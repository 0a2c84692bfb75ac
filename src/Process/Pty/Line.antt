-- ===== src/Process/Pty/Line.antt =====
-- kernel/process/pty.c: editing a line in canonical mode, against a list of characters.
use mathlib.Core.List.{append_assoc}
use char_os.Base.{
  copy, copy_zero, copy-put, length-copy, copy-append, ℕ, zero, suc, ◌+◌, ◌-◌, ◌≤◌, ◌<◌, ◌≡◌, Bool,
  true, false, not, ◌&&◌, ◌||◌, List, [], ◌∷◌, ◌++◌, ◌==◌, ltb, leb, if◌then◌else◌, length,
  length-append, arith, refl, ap, sym, ◌∙◌,
}
use char_os.Process.Pty.{Pty, icanon, pty_line, echoed, input, slave_read}

-- The line so far, and whether it may be read.
pub record Editor : Type 0 where
  pub line : List ℕ
  pub ready : Bool

-- A line holds 255 characters at most; what comes after is lost.
abbrev pub push_char : List ℕ → ℕ → List ℕ
push_char l c = if ltb (length l) 255 then l ++ (c ∷ []) else l

pub drop_last : List ℕ → List ℕ
drop_last [] = []
drop_last (x ∷ []) = []
drop_last (x ∷ y ∷ l) = x ∷ drop_last (y ∷ l)

-- Typing one key.
unfoldable pub type_key : Editor → ℕ → Editor
unfolding drop_last
type_key e c =
    if c == b'\r' || c == b'\n'
    then record { line = push_char e.line b'\n'; ready = true }
    else if c == 0x08 || c == 0x7F
    then record e { line = drop_last e.line }
    else if c == 0x15
    then record e { line = [] }
    else if leb 32 c || c == b'\t'
    then record e { line = push_char e.line c }
    else e

abbrev pub editor : Pty → Editor
editor p = record { line = copy p.canon 0 p.canon_len; ready = p.line_ready }

drop_last-append : (l : List ℕ) (x : ℕ) → drop_last (l ++ (x ∷ [])) ≡ l
unfolding drop_last
drop_last-append [] x = refl
drop_last-append (y ∷ []) x = refl
drop_last-append (y ∷ z ∷ l) x = ap (λ k. y ∷ k) (drop_last-append (z ∷ l) x)

drop_last-copy : (a : ℕ → ℕ) (n : ℕ) → drop_last (copy a 0 n) ≡ copy a 0 (n - 1)
drop_last-copy a zero = unfold drop_last copy in refl
drop_last-copy a (suc n) =
    ap drop_last (copy-append a 0 n)
    ∙ drop_last-append (copy a 0 n) (a (0 + n))
    ∙ ap (copy a 0) (omega arith)

-- The fields that echoing leaves alone.
echoed-editor : (p : Pty) (c : ℕ) → editor (echoed p c) ≡ editor p
echoed-editor p c = ground arith

-- In canonical mode the line buffer does what the editor says, key by key, and never holds more
-- than 255 characters.
pub input-editor :
    (p : Pty) (c : ℕ)
    → icanon p.flags ≡ true
    → p.canon_len < pty_line
    → (editor (input p c) ≡ type_key (editor p) c)
      × ((input p c).canon_len < pty_line)
      × ((input p c).flags ≡ p.flags)
unfolding input type_key
input-editor p c canonical fits = (
  ground (
    arith,
    copy-put p.canon p.canon_len c,
    copy-put p.canon p.canon_len 10,
    drop_last-copy p.canon p.canon_len,
    length-copy p.canon 0 p.canon_len,
    copy_zero p.canon 0,
  ),
  ground arith,
  ground arith,
)

-- Typing several keys.
unfoldable pub inputs : Pty → List ℕ → Pty
unfolding input
inputs p [] = p
inputs p (c ∷ cs) = inputs (input p c) cs

pub type_keys : Editor → List ℕ → Editor
type_keys e [] = e
type_keys e (c ∷ cs) = type_keys (type_key e c) cs

-- Whatever is typed in canonical mode, the line buffer holds what the editor says of the keys, and
-- never more than 255 characters.
pub inputs-editor :
    (p : Pty) (cs : List ℕ)
    → icanon p.flags ≡ true
    → p.canon_len < pty_line
    → (editor (inputs p cs) ≡ type_keys (editor p) cs)
      × ((inputs p cs).canon_len < pty_line)
      × ((inputs p cs).flags ≡ p.flags)
unfolding inputs type_keys
inputs-editor p [] canonical fits = (refl, fits, refl)
inputs-editor p (c ∷ cs) canonical fits =
    let (now, small, same) = input-editor p c canonical fits in
    let (end, still, kept) = inputs-editor (input p c) cs (ap icanon same ∙ canonical) small in
    (end ∙ ap (λ e. type_keys e cs) now, still, kept ∙ same)

-- A character that a line takes as it is.
abbrev pub is_plain : ℕ → Bool
is_plain c = leb 32 c && not (c == 0x7F)

abbrev pub all_plain : List ℕ → Bool
all_plain [] = true
all_plain (c ∷ cs) = is_plain c && all_plain cs

type_key-plain :
    (e : Editor) (c : ℕ)
    → is_plain c ≡ true
    → length e.line < 255
    → type_key e c ≡ record { line = e.line ++ (c ∷ []); ready = e.ready }
unfolding type_key
type_key-plain e c plain room = ground arith

type_key-enter :
    (e : Editor)
    → length e.line < 255
    → type_key e b'\n' ≡ record { line = e.line ++ (b'\n' ∷ []); ready = true }
unfolding type_key
type_key-enter e room = ground arith

split_and : (a b : Bool) → (a && b) ≡ true → (a ≡ true) × (b ≡ true)
split_and a b h = ground arith

type_keys-plain :
    (e : Editor) (cs : List ℕ)
    → all_plain cs ≡ true
    → length e.line + length cs < 255
    → type_keys e (cs ++ (b'\n' ∷ []))
      ≡ record { line = e.line ++ (cs ++ (b'\n' ∷ [])); ready = true }
unfolding type_keys
type_keys-plain e [] plain room = type_key-enter e (omega arith)
type_keys-plain e (c ∷ cs) plain room =
    let (this, others) = split_and (is_plain c) (all_plain cs) plain in
    let next : Editor = record { line = e.line ++ (c ∷ []); ready = e.ready } in
    let size : length next.line ≡ length e.line + 1 = length-append e.line (c ∷ []) in
    ap (λ f. type_keys f (cs ++ (b'\n' ∷ []))) (type_key-plain e c this (omega arith))
    ∙ type_keys-plain next cs others (omega (arith, size))
    ∙ ap (λ l. record { line = l; ready = true })
        (append_assoc e.line (c ∷ []) (cs ++ (b'\n' ∷ [])))

slave_read-line :
    (p : Pty) (max : ℕ)
    → icanon p.flags ≡ true
    → p.line_ready ≡ true
    → p.canon_len + 1 ≤ max
    → slave_read p max
      ≡ (record p { canon_len = 0; line_ready = false }, copy p.canon 0 p.canon_len)
unfolding slave_read
slave_read-line p max canonical ready room = ground arith

-- A line of at most 254 plain characters, typed on an empty line and ended with Enter, is what the
-- next read gives, with its newline, if the caller's buffer has room for one character more; and
-- the line is empty then and no longer ready.
pub type-read :
    (p : Pty) (cs : List ℕ) (max : ℕ)
    → icanon p.flags ≡ true
    → p.canon_len ≡ 0
    → all_plain cs ≡ true
    → length cs < 255
    → length cs + 2 ≤ max
    → let (q, bytes) = slave_read (inputs p (cs ++ (b'\n' ∷ []))) max in
      (bytes ≡ cs ++ (b'\n' ∷ [])) × (editor q ≡ record { line = []; ready = false })
type-read p cs max canonical empty plain short room =
    let keys = cs ++ (b'\n' ∷ []) in
    let r = inputs p keys in
    let (same, small, kept) = inputs-editor p keys canonical (omega arith) in
    let start : (editor p).line ≡ [] = ap (copy p.canon 0) empty ∙ copy_zero p.canon 0 in
    let typed : editor r ≡ record { line = (editor p).line ++ keys; ready = true } =
      same ∙ type_keys-plain (editor p) cs plain (omega (arith, ap length start)) in
    let full : copy r.canon 0 r.canon_len ≡ keys =
      ap Editor.line typed ∙ ap (λ l. l ++ keys) start in
    let size : r.canon_len ≡ length cs + 1 =
      sym (length-copy r.canon 0 r.canon_len) ∙ ap length full ∙ length-append cs (b'\n' ∷ []) in
    rw
      (slave_read-line r max (ap icanon kept ∙ canonical) (ap Editor.ready typed)
        (omega (arith, size)))
      (full, ap (λ l. record { line = l; ready = false }) (copy_zero r.canon 0))

erased :
    (was : Bool)
    → type_keys (record { line = []; ready = was }) (b'\n' ∷ 0x7F ∷ [])
      ≡ record { line = []; ready = true }
unfolding type_keys type_key drop_last
erased was = refl

-- Enter and then a backspace, on an empty line: the line is still marked ready, and the next read
-- gives no character at all, not even the newline, and clears the mark.
pub enter-backspace-read :
    (p : Pty) (max : ℕ)
    → icanon p.flags ≡ true
    → p.canon_len ≡ 0
    → 0 < max
    → let q = inputs p (b'\n' ∷ 0x7F ∷ []) in
      let (r, bytes) = slave_read q max in
      (q.line_ready ≡ true) × (bytes ≡ []) × (editor r ≡ record { line = []; ready = false })
enter-backspace-read p max canonical empty room =
    let q = inputs p (b'\n' ∷ 0x7F ∷ []) in
    let (same, small, kept) = inputs-editor p (b'\n' ∷ 0x7F ∷ []) canonical (omega arith) in
    let start : (editor p).line ≡ [] = ap (copy p.canon 0) empty ∙ copy_zero p.canon 0 in
    let typed : editor q ≡ record { line = []; ready = true } =
      same
      ∙ ap (λ l. type_keys (record { line = l; ready = p.line_ready }) (b'\n' ∷ 0x7F ∷ [])) start
      ∙ erased p.line_ready in
    let size : q.canon_len ≡ 0 =
      sym (length-copy q.canon 0 q.canon_len) ∙ ap (λ e. length (Editor.line e)) typed in
    rw
      (slave_read-line q max (ap icanon kept ∙ canonical) (ap Editor.ready typed)
        (omega (arith, size)))
      (
        ap Editor.ready typed,
        ap Editor.line typed,
        ap (λ l. record { line = l; ready = false }) (copy_zero q.canon 0),
      )
