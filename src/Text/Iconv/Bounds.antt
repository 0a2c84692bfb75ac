-- ===== src/Text/Iconv/Bounds.antt =====
-- kernel/arch/x86_64/iconv64.c: the loop of a conversion ends and stays within both buffers.
use char_os.Base.{
  ℕ, zero, suc, ◌+◌, ◌-◌, ◌≡◌, refl, ap, ◌∙◌, ◌≤◌, arith, Bool, true, false, not, ◌||◌, Option,
  none, some, List, [], ◌∷◌, ◌++◌, leb, if◌then◌else◌, length, length-append, drop, drop-drop,
  length-drop,
}
use char_os.Text.Iconv.{
  Decoded, decoded, illegal, incomplete, Encoded, written, unmapped, no_space, decode, encode,
}
use char_os.Text.Iconv.Handles.{Cd}
use char_os.Text.Iconv.Convert.{decode_uses, encode_bytes}
use char_os.Text.Iconv.Stream.{
  Code, complete, bad_handle, bad_sequence, too_big, Converted, written_before, stopped, emit, pass,
  convert_from, convert,
}

-- What a run of the loop over `p` with `room` bytes of output gives.
abbrev pub Within : List ℕ → ℕ → Option Converted → Type 0
Within p room o =
    (c : Converted) × (k : ℕ) × (o ≡ some c)
    × (c.rest ≡ drop k p)
    × (length c.output + c.room ≡ room)
    × ((c.code ≡ complete) → c.rest ≡ [])

stops :
    (code : Code) (p : List ℕ) (room : ℕ)
    → (code ≡ complete → p ≡ [])
    → Within p room (stopped code p room)
stops code p room h = (_, 0, refl, refl, omega arith, h)

emitted :
    (w : Encoded) (p : List ℕ) (used room to cp : ℕ) (next : List ℕ → ℕ → Option Converted)
    → encode to cp room ≡ w
    → ((r : ℕ) → Within (drop used p) r (next (drop used p) r))
    → Within p room (emit w p used room next)
emitted (written b) p used room to cp next w h =
    let (c, k, e, rest, sum, ended) = h (room - length b) in
    (
      record c { output = b ++ c.output },
      used + k,
      ap (written_before b) e,
      rest ∙ drop-drop used k p,
      omega (arith, length-append b c.output, (encode_bytes to cp room b w).1),
      ended,
    )
emitted unmapped p used room to cp next w h = stops too_big p room (λ e. absurd (ground arith))
emitted no_space p used room to cp next w h = stops too_big p room (λ e. absurd (ground arith))

passed :
    (d : Decoded) (p : List ℕ) (from to room n : ℕ) (next : List ℕ → ℕ → Option Converted)
    → decode from p ≡ d
    → length p ≤ suc n
    → ((q : List ℕ) (r : ℕ) → length q ≤ n → Within q r (next q r))
    → Within p room (pass to d p room next)
passed (decoded used cp) p from to room n next d hn h =
    emitted (encode to cp room) p used room to cp next refl
      λ r. h (drop used p) r (omega (arith, length-drop used p, (decode_uses from used cp p d).0))
passed illegal p from to room n next d hn h = stops bad_sequence p room (λ e. absurd (ground arith))
passed incomplete p from to room n next d hn h =
    stops bad_sequence p room (λ e. absurd (ground arith))

runs :
    (n from to : ℕ) (p : List ℕ) (room : ℕ)
    → length p ≤ n
    → Within p room (convert_from n from to p room)
unfolding convert_from
runs n from to [] room h = stops complete [] room (λ _. refl)
runs zero from to (x ∷ p) room h = absurd (omega arith)
runs (suc n) from to (x ∷ p) room h =
    passed (decode from (x ∷ p)) (x ∷ p) from to room n (convert_from n from to) refl h
      λ q r below. runs n from to q r below

-- A conversion always ends, for any input and any handle: what it leaves of the input is a final
-- part of it, what it writes and the room that is left make up the room given, and it reports
-- success only when nothing of the input is left.
pub convert-Within :
    (tab : ℕ → Cd) (cd : Option ℕ) (p : List ℕ) (room : ℕ) → Within p room (convert tab cd p room)
unfolding convert
convert-Within tab none p room = stops bad_handle p room (λ e. absurd (ground arith))
convert-Within tab (some cd) p room =
    if_within (leb 8 cd || not (tab cd).used) p room _
      (runs (length p) (tab cd).from (tab cd).to p room (omega arith))
  where
    if_within :
        (b : Bool) (p : List ℕ) (room : ℕ) (o : Option Converted)
        → Within p room o
        → Within p room (if b then stopped bad_handle p room else o)
    if_within true p room o h = stops bad_handle p room (λ e. absurd (ground arith))
    if_within false p room o h = h
