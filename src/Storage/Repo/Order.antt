-- ===== src/Storage/Repo/Order.antt =====
-- kernel/arch/x86_64/repo64.c: comparing versions, and the version that is found.
use char_os.Base.{
  ℕ, zero, suc, ◌+◌, ◌-◌, ◌*◌, ◌≡◌, ◌≤◌, refl, ap, ap₂, sym, ◌∙◌, subst, arith, Bool, true, false,
  ◌&&◌, Option, none, some, List, [], ◌∷◌, if◌then◌else◌, length, Bool-cases, inl, inr,
}
use char_os.Storage.Repo.{
  Comparison, lower, equal, higher, compare_numbers, is_digit, number, rest_value, unless_equal,
  vercmp_from, or_equal, vercmp,
}

-- The other way round.
abbrev pub flip : Comparison → Comparison
flip lower = higher
flip equal = equal
flip higher = lower

abbrev flip_option : Option Comparison → Option Comparison
flip_option none = none
flip_option (some c) = some (flip c)

compare_flip : (a b : ℕ) → compare_numbers b a ≡ flip (compare_numbers a b)
compare_flip a b = ground arith

unless_flip :
    (c : Comparison) (o : Option Comparison)
    → unless_equal (flip c) (flip_option o) ≡ flip_option (unless_equal c o)
unless_flip lower o = refl
unless_flip equal o = refl
unless_flip higher o = refl

and_comm : (a b : Bool) → (a && b) ≡ (b && a)
and_comm a b = ground arith

if_flip :
    (b : Bool) (o p x y : Option Comparison)
    → o ≡ flip_option x
    → p ≡ flip_option y
    → (if b then o else p) ≡ flip_option (if b then x else y)
if_flip true o p x y e f = e
if_flip false o p x y e f = f

step_flip :
    (a b : ℕ) (o x : Option Comparison)
    → o ≡ flip_option x
    → unless_equal (compare_numbers b a) o ≡ flip_option (unless_equal (compare_numbers a b) x)
step_flip a b o x e = ap₂ unless_equal (compare_flip a b) e ∙ unless_flip (compare_numbers a b) x

from_flip : (n : ℕ) (a b : List ℕ) → vercmp_from n b a ≡ flip_option (vercmp_from n a b)
unfolding vercmp_from
from_flip n [] [] = refl
from_flip n [] (y ∷ b) = ap some (compare_flip 0 (rest_value (y ∷ b)))
from_flip n (x ∷ a) [] = ap some (compare_flip (rest_value (x ∷ a)) 0)
from_flip zero (x ∷ a) (y ∷ b) = refl
from_flip (suc n) (x ∷ a) (y ∷ b) =
    ap
      (λ c.
        if c
        then unless_equal (compare_numbers (number 0 (y ∷ b)).0 (number 0 (x ∷ a)).0)
            (vercmp_from n (number 0 (y ∷ b)).1 (number 0 (x ∷ a)).1)
        else unless_equal (compare_numbers y x) (vercmp_from n b a))
      (and_comm (is_digit y) (is_digit x))
    ∙ if_flip (is_digit x && is_digit y) _ _ _ _
        (step_flip (number 0 (x ∷ a)).0 (number 0 (y ∷ b)).0 _ _
          (from_flip n (number 0 (x ∷ a)).1 (number 0 (y ∷ b)).1))
        (step_flip x y _ _ (from_flip n a b))

or_equal-flip : (o : Option Comparison) → or_equal (flip_option o) ≡ flip (or_equal o)
or_equal-flip none = refl
or_equal-flip (some c) = refl

-- Comparing two versions the other way round gives the opposite answer, so that one version is
-- never both above and below another.
pub vercmp_swap : (a b : List ℕ) → vercmp b a ≡ flip (vercmp a b)
unfolding vercmp
vercmp_swap a b =
    ap or_equal (
      ap (λ n. vercmp_from n b a) {x = length b + length a} {y = length a + length b} (omega arith)
      ∙ from_flip (length a + length b) a b)
    ∙ or_equal-flip (vercmp_from (length a + length b) a b)

number_rest : (p : List ℕ) (v : ℕ) → length (number v p).1 ≤ length p
unfolding number
number_rest [] v = omega arith
number_rest (c ∷ p) v =
    chosen (is_digit c) (number (v * 10 + (c - b'0')) p) (number_rest p (v * 10 + (c - b'0')))
  where
    chosen :
        (b : Bool) (r : ℕ × List ℕ)
        → length r.1 ≤ length p
        → length (if◌then◌else◌ {A = ℕ × List ℕ} b r (v, c ∷ p)).1 ≤ suc (length p)
    chosen true r h = omega arith
    chosen false r h = omega arith

-- A digit at the front is taken.
number_takes : (x : ℕ) (a : List ℕ) → is_digit x ≡ true → length (number 0 (x ∷ a)).1 ≤ length a
unfolding number
number_takes x a e =
    subst
      (λ b.
        length (if◌then◌else◌ {A = ℕ × List ℕ} b (number (0 * 10 + (x - b'0')) a) (0, x ∷ a)).1
        ≤ length a)
      (sym e) (number_rest a (0 * 10 + (x - b'0')))

Answers : Option Comparison → Type 0
Answers o = (c : Comparison) × (o ≡ some c)

unless-Answers : (c : Comparison) (o : Option Comparison) → Answers o → Answers (unless_equal c o)
unfolding Answers
unless-Answers lower o h = (lower, refl)
unless-Answers equal o h = h
unless-Answers higher o h = (higher, refl)

from-Answers : (n : ℕ) (a b : List ℕ) → length a + length b ≤ n → Answers (vercmp_from n a b)
unfolding vercmp_from Answers
from-Answers n [] b h = (_, refl)
from-Answers n (x ∷ a) [] h = (_, refl)
from-Answers zero (x ∷ a) (y ∷ b) h = absurd (omega arith)
from-Answers (suc n) (x ∷ a) (y ∷ b) h = elim (Bool-cases (is_digit x && is_digit y)) [
  | inl e ↦
      subst
        (λ c. Answers (
          if c
          then unless_equal (compare_numbers (number 0 (x ∷ a)).0 (number 0 (y ∷ b)).0) numbers
          else unless_equal (compare_numbers x y) (vercmp_from n a b)))
        (sym e)
        (unless-Answers _ numbers (
          from-Answers n (number 0 (x ∷ a)).1 (number 0 (y ∷ b)).1 (
            omega (
              arith,
              number_takes x a (first (is_digit x) (is_digit y) e),
              number_takes y b (second (is_digit x) (is_digit y) e),
            ))))
  | inr e ↦
      subst
        (λ c. Answers (
          if c
          then unless_equal (compare_numbers (number 0 (x ∷ a)).0 (number 0 (y ∷ b)).0) numbers
          else unless_equal (compare_numbers x y) (vercmp_from n a b)))
        (sym e) (unless-Answers _ (vercmp_from n a b) (from-Answers n a b (omega arith)))
]
  where
    numbers : Option Comparison
    numbers = vercmp_from n (number 0 (x ∷ a)).1 (number 0 (y ∷ b)).1

    first : (p q : Bool) → (p && q) ≡ true → p ≡ true
    first p q e = ground arith

    second : (p q : Bool) → (p && q) ≡ true → q ≡ true
    second p q e = ground arith

-- The comparison ends for any two strings: the fuel it is given is enough.
pub vercmp_ends : (a b : List ℕ) → vercmp_from (length a + length b) a b ≡ some (vercmp a b)
unfolding vercmp Answers
vercmp_ends a b =
    let (c, e) = from-Answers (length a + length b) a b (omega arith) in
    e ∙ ap some (ap or_equal (sym e))
