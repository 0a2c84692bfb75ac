-- ===== src/Text/Iconv/Stream.antt =====
-- kernel/arch/x86_64/iconv64.c: converting a whole input, point by point.
use char_os.Base.{
  ℕ, zero, suc, ◌-◌, not, ◌||◌, Option, none, some, List, [], ◌∷◌, ◌++◌, leb, if◌then◌else◌, length,
  drop,
}
use char_os.Text.Iconv.{
  Decoded, decoded, incomplete, illegal, Encoded, written, no_space, unmapped, decode, encode,
  iconv_max,
}
use char_os.Text.Iconv.Handles.{Cd}

-- The return code of a conversion: 0, -1, -2 or -3.
pub data Code : Type 0 where
  complete : Code
  bad_handle : Code
  bad_sequence : Code
  too_big : Code

-- The four pointers after a conversion: what is left of the input, the bytes written, the room
-- left in the output.
pub record Converted : Type 0 where
  pub code : Code
  pub rest : List ℕ
  pub output : List ℕ
  pub room : ℕ

-- Bytes before those a later part of the loop writes.
abbrev pub written_before : List ℕ → Option Converted → Option Converted
written_before bytes none = none
written_before bytes (some c) = some (record c { output = bytes ++ c.output })

abbrev pub stopped : Code → List ℕ → ℕ → Option Converted
stopped code p room = some (record { code = code; rest = p; output = []; room = room })

-- One pass of the loop after encoding; `next` is the rest of the loop.
abbrev pub emit : Encoded → List ℕ → ℕ → ℕ → (List ℕ → ℕ → Option Converted) → Option Converted
emit (written bytes) p used room next =
    written_before bytes (next (drop used p) (room - length bytes))
emit no_space p used room next = stopped too_big p room
emit unmapped p used room next = stopped too_big p room

abbrev pub pass : ℕ → Decoded → List ℕ → ℕ → (List ℕ → ℕ → Option Converted) → Option Converted
pass to (decoded used cp) p room next = emit (encode to cp room) p used room next
pass to incomplete p room next = stopped bad_sequence p room
pass to illegal p room next = stopped bad_sequence p room

-- The loop, on fuel; every pass takes a byte at least, so the length of the input is enough.
unfoldable pub convert_from : ℕ → ℕ → ℕ → List ℕ → ℕ → Option Converted
convert_from fuel from to [] room = stopped complete [] room
convert_from zero from to (x ∷ p) room = none
convert_from (suc fuel) from to (x ∷ p) room =
    pass to (decode from (x ∷ p)) (x ∷ p) room (convert_from fuel from to)

-- iconv64_convert; a handle below 0 is none.
unfoldable pub convert : (ℕ → Cd) → Option ℕ → List ℕ → ℕ → Option Converted
convert tab none p room = stopped bad_handle p room
convert tab (some cd) p room =
    if leb iconv_max cd || not (tab cd).used
    then stopped bad_handle p room
    else convert_from (length p) (tab cd).from (tab cd).to p room
