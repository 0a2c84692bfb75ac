-- ===== src/Text/Iconv/Convert.antt =====
-- kernel/arch/x86_64/iconv64.c: converting a whole text from one encoding to another.
use char_os.Base.{
  ℕ, zero, suc, ◌-◌, ◌≡◌, refl, ap, ap₂, sym, subst, ◌∙◌, ◌≤◌, ◌<◌, arith, Bool, true, ◌&&◌, Option,
  none, some, List, [], ◌∷◌, ◌++◌, leb, length, length-append, drop,
}
use char_os.Text.Iconv.{decoded, Encoded, written, unmapped, no_space, decode, encode}
use char_os.Text.Iconv.Points.{encode-decode}
use char_os.Text.Iconv.Handles.{Cd}
use char_os.Text.Iconv.Stream.{
  complete, Converted, written_before, emit, pass, convert_from, convert,
}

-- A text is a list of points; its bytes in an encoding, when each point has a form there.
abbrev joined : Encoded → Option (List ℕ) → Option (List ℕ)
joined (written b) (some bs) = some (b ++ bs)
joined (written b) none = none
joined unmapped o = none
joined no_space o = none

unfoldable pub bytes_of : ℕ → List ℕ → Option (List ℕ)
bytes_of e [] = some []
bytes_of e (cp ∷ cps) = joined (encode e cp 4) (bytes_of e cps)

-- Whether all points are in the range of Unicode.
abbrev pub is_text : List ℕ → Bool
is_text [] = true
is_text (cp ∷ cps) = leb cp 0x10FFFF && is_text cps

is_text_split :
    (cp : ℕ) (cps : List ℕ) → is_text (cp ∷ cps) ≡ true → (cp ≤ 0x10FFFF) × (is_text cps ≡ true)
is_text_split cp cps h = (ground arith, ground arith)

joined_split :
    (w : Encoded) (o : Option (List ℕ)) (bs : List ℕ)
    → joined w o ≡ some bs
    → (b : List ℕ) × (k : List ℕ) × (w ≡ written b) × (o ≡ some k) × (bs ≡ b ++ k)
joined_split (written b) (some k) bs e = (b, k, refl, refl, ground arith)
joined_split (written b) none bs e = absurd (ground arith)
joined_split unmapped o bs e = absurd (ground arith)
joined_split no_space o bs e = absurd (ground arith)

-- A point that has a form is written into any room that holds it.
encode_room :
    (e cp room : ℕ) (b : List ℕ)
    → encode e cp 4 ≡ written b
    → length b ≤ room
    → encode e cp room ≡ written b
unfolding encode
encode_room e cp room b w fits = ground arith

pub encode_bytes :
    (e cp left : ℕ) (b : List ℕ) → encode e cp left ≡ written b → (1 ≤ length b) × (length b ≤ left)
unfolding encode
encode_bytes e cp left b w = (ground arith, ground arith)

drop_length-append : (xs ys : List ℕ) → drop (length xs) (xs ++ ys) ≡ ys
drop_length-append [] ys = refl
drop_length-append (x ∷ xs) ys = drop_length-append xs ys

-- A pass of the loop over the bytes of one point.
pass_point :
    (n from to cp room : ℕ) (b o rest : List ℕ)
    → 1 ≤ length b
    → decode from (b ++ rest) ≡ decoded (length b) cp
    → encode to cp room ≡ written o
    → convert_from (suc n) from to (b ++ rest) room
      ≡ written_before o (convert_from n from to rest (room - length o))
unfolding convert_from
pass_point n from to cp room [] o rest h d w = absurd (omega arith)
pass_point n from to cp room (x ∷ b) o rest h d w =
    ap (λ t. pass to t (x ∷ (b ++ rest)) room (convert_from n from to)) d
    ∙ ap (λ t. emit t (x ∷ (b ++ rest)) (suc (length b)) room (convert_from n from to)) w
    ∙ ap (λ r. written_before o (convert_from n from to r (room - length o)))
        (drop_length-append b rest)

abbrev pub all_of : List ℕ → ℕ → Option Converted
all_of output room = some (record { code = complete; rest = []; output = output; room = room })

no_points : (n from to room : ℕ) → convert_from n from to [] room ≡ all_of [] (room - 0)
unfolding convert_from
no_points n from to room = ap (λ r. all_of [] r) {x = room} (omega arith)

-- The pass for a point, before what is converted after it.
pass_then :
    (n from to cp room : ℕ) (b o k l : List ℕ)
    → cp ≤ 0x10FFFF
    → encode from cp 4 ≡ written b
    → encode to cp 4 ≡ written o
    → length (b ++ k) ≤ suc n
    → length (o ++ l) ≤ room
    → (length k ≤ n
        → length l ≤ room - length o
        → convert_from n from to k (room - length o) ≡ all_of l (room - length o - length l))
    → convert_from (suc n) from to (b ++ k) room ≡ all_of (o ++ l) (room - length (o ++ l))
pass_then n from to cp room b o k l below w v hn hr next =
    pass_point n from to cp room b o k ((encode_bytes from cp 4 b w).0)
      (encode-decode from cp 4 b k below w)
      (encode_room to cp room o v (omega (arith, length-append o l)))
    ∙ ap (written_before o) (
        next (omega (arith, length-append b k, (encode_bytes from cp 4 b w).0))
          (omega (arith, length-append o l)))
    ∙ ap (λ r. all_of (o ++ l) r) (omega (arith, length-append o l))

-- A text in one encoding is converted to the same text in the other.
convert_text :
    (cps : List ℕ) (n from to room : ℕ) (bs out : List ℕ)
    → is_text cps ≡ true
    → bytes_of from cps ≡ some bs
    → bytes_of to cps ≡ some out
    → length bs ≤ n
    → length out ≤ room
    → convert_from n from to bs room ≡ all_of out (room - length out)
unfolding bytes_of
convert_text [] n from to room bs out h e f hn hr =
    subst (λ l. convert_from n from to l room ≡ all_of out (room - length out)) {x = []}
      (ground arith)
      (subst (λ l. convert_from n from to [] room ≡ all_of l (room - length l)) {x = []}
        (ground arith) (no_points n from to room))
convert_text (cp ∷ cps) zero from to room bs out h e f hn hr =
    let (b, k, w, ek, same) = joined_split (encode from cp 4) (bytes_of from cps) bs e in
    absurd (omega (arith, ap length same, length-append b k, (encode_bytes from cp 4 b w).0))
convert_text (cp ∷ cps) (suc n) from to room bs out h e f hn hr =
    let (b, k, w, ek, same) = joined_split (encode from cp 4) (bytes_of from cps) bs e in
    let (o, l, v, el, also) = joined_split (encode to cp 4) (bytes_of to cps) out f in
    let (below, tail) = is_text_split cp cps h in
    let fits : length (b ++ k) ≤ suc n = omega (arith, ap length same) in
    let held : length (o ++ l) ≤ room = omega (arith, ap length also) in
    ap₂ (λ x y. convert_from (suc n) from to x room) same also
    ∙ pass_then n from to cp room b o k l below w v fits held
        (convert_text cps n from to (room - length o) k l tail ek el)
    ∙ ap (λ y. all_of y (room - length y)) (sym also)

-- A text that has a form in both encodings is converted from one to the other: the output is the
-- form of the same points in the other encoding, when it fits, and the whole input is used up.
pub convert-bytes_of :
    (tab : ℕ → Cd) (cd : ℕ) (cps : List ℕ) (room : ℕ) (bs out : List ℕ)
    → cd < 8
    → (tab cd).used ≡ true
    → is_text cps ≡ true
    → bytes_of (tab cd).from cps ≡ some bs
    → bytes_of (tab cd).to cps ≡ some out
    → length out ≤ room
    → convert tab (some cd) bs room
      ≡ some (record { code = complete; rest = []; output = out; room = room - length out })
unfolding convert
convert-bytes_of tab cd cps room bs out below used h e f fits = ground (
  arith,
  convert_text cps (length bs) (tab cd).from (tab cd).to room bs out h e f (omega arith) fits,
)

-- A decoded point uses up a byte at least and no more than there are.
pub decode_uses :
    (from used cp : ℕ) (p : List ℕ)
    → decode from p ≡ decoded used cp
    → (1 ≤ used) × (used ≤ length p)
unfolding decode
decode_uses from used cp p e = (ground arith, ground arith)
