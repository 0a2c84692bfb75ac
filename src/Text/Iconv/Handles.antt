-- ===== src/Text/Iconv/Handles.antt =====
-- kernel/arch/x86_64/iconv64.c: the names of the encodings and the table of open conversions.
use char_os.Base.{
  ℕ, zero, suc, Bool, true, false, not, ◌&&◌, ◌||◌, Option, none, some, List, ◌==◌, leb,
  if◌then◌else◌, update,
}
use char_os.Text.Iconv.{at, iconv_max, utf8, utf16, utf32, latin1}

-- struct iconv64_cd
pub record Cd : Type 0 where
  pub used : Bool
  pub to : ℕ
  pub from : ℕ

unfoldable pub enc_id : List ℕ → Option ℕ
enc_id s =
    if (at s 0 == b'U' || at s 0 == b'u')
      && at s 1 == b'T'
      && (at s 2 == b'F' || at s 2 == b'f')
      && at s 3 == b'-'
      && at s 4 == b'8'
      && at s 5 == 0
    then some utf8
    else if (at s 0 == b'U' || at s 0 == b'u')
        && at s 1 == b'T'
        && (at s 2 == b'F' || at s 2 == b'f')
        && at s 3 == b'-'
        && at s 4 == b'1'
        && at s 5 == b'6'
        && at s 6 == 0
    then some utf16
    else if (at s 0 == b'U' || at s 0 == b'u')
        && at s 1 == b'T'
        && (at s 2 == b'F' || at s 2 == b'f')
        && at s 3 == b'-'
        && at s 4 == b'3'
        && at s 5 == b'2'
        && at s 6 == 0
    then some utf32
    else if (at s 0 == b'L' || at s 0 == b'l')
        && at s 1 == b'A'
        && (at s 2 == b'T' || at s 2 == b't')
    then some latin1
    else if at s 0 == b'I'
        && at s 1 == b'S'
        && at s 2 == b'O'
        && at s 3 == b'-'
        && at s 4 == b'8'
        && at s 5 == b'8'
        && at s 6 == b'5'
        && at s 7 == b'9'
        && at s 8 == 0
    then some latin1
    else none

-- What iconv64_open returns: a handle, -1 for a name that is not known, -2 for a full table.
pub data Opened : Type 0 where
  handle : ℕ → Opened
  unknown_name : Opened
  table_full : Opened

-- The first entry that is not used among the `n` entries from `i`.
abbrev pub free_cd : (ℕ → Cd) → ℕ → ℕ → Option ℕ
free_cd tab i zero = none
free_cd tab i (suc n) = if (tab i).used then free_cd tab (suc i) n else some i

abbrev pub install_cd : (ℕ → Cd) → ℕ → ℕ → Option ℕ → Opened × (ℕ → Cd)
install_cd tab t f none = (table_full, tab)
install_cd tab t f (some i) = (handle i, update tab i (record { used = true; to = t; from = f }))

abbrev pub open_ids : (ℕ → Cd) → Option ℕ → Option ℕ → Opened × (ℕ → Cd)
open_ids tab none f = (unknown_name, tab)
open_ids tab (some t) none = (unknown_name, tab)
open_ids tab (some t) (some f) = install_cd tab t f (free_cd tab 0 iconv_max)

-- iconv64_open
unfoldable pub open_cd : (ℕ → Cd) → List ℕ → List ℕ → Opened × (ℕ → Cd)
open_cd tab to from = open_ids tab (enc_id to) (enc_id from)

-- iconv64_close: whether it returned 0, and the table.
unfoldable pub close_cd : (ℕ → Cd) → ℕ → Bool × (ℕ → Cd)
close_cd tab cd =
    if leb iconv_max cd || not (tab cd).used
    then (false, tab)
    else (true, update tab cd (record (tab cd) { used = false }))
