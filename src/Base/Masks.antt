-- ===== src/Base/Masks.antt =====
-- Masking a word with `&` and joining fields with `|`, as division, remainder and sum.
use Prim.Native.Nat.{ℕ, zero, suc, ◌+◌, ◌*◌, ◌/◌, ◌%◌, bit_and, bit_or}
use mathlib.Core.Path.{◌≡◌, refl, ap, ◌∙◌}
use native.Mathlib.Omega.{arith}
use char_os.Base.Bits.{bit_and_digit, bit_or_digit, bit-ext, bit-bit_and, bit-bit_or, bit-zero}

-- `h << k`.
abbrev pub shl : ℕ → ℕ → ℕ
shl zero h = h
shl (suc k) h = shl k h * 2

-- `x >> k`.
abbrev pub shr : ℕ → ℕ → ℕ
shr zero x = x
shr (suc k) x = shr k (x / 2)

-- The word of `k` ones.
abbrev pub ones : ℕ → ℕ
ones zero = 0
ones (suc k) = ones k * 2 + 1

-- The low `k` bits.
abbrev pub low : ℕ → ℕ → ℕ
low zero x = 0
low (suc k) x = low k (x / 2) * 2 + x % 2

and_step : (x y : ℕ) → bit_and x (y * 2) ≡ bit_and (x / 2) y * 2
and_step x y = halved (y * 2 / 2) (omega arith)
  where
    halved : (z : ℕ) → z ≡ y → bit_and x (y * 2) ≡ bit_and (x / 2) y * 2
    halved z e =
        omega (
          arith,
          bit_and_digit x (y * 2),
          ap (bit_and (x / 2)) {x = y * 2 / 2} {y = y} (omega arith),
        )

and_step_one : (x y : ℕ) → bit_and x (y * 2 + 1) ≡ bit_and (x / 2) y * 2 + x % 2
and_step_one x y = omega (
  arith,
  bit_and_digit x (y * 2 + 1),
  ap (bit_and (x / 2)) {x = (y * 2 + 1) / 2} {y = y} (omega arith),
)

or_step : (x l : ℕ) → bit_or (x * 2) l ≡ bit_or x (l / 2) * 2 + l % 2
or_step x l = omega (
  arith,
  bit_or_digit (x * 2) l,
  ap (λ h. bit_or h (l / 2)) {x = x * 2 / 2} {y = x} (omega arith),
)

and_zero : (x : ℕ) → bit_and x 0 ≡ 0
and_zero x = bit-ext _ _ λ k. ground (arith, bit-bit_and x 0 k, bit-zero k)

pub or_zero : (x : ℕ) → bit_or x 0 ≡ x
or_zero x = bit-ext _ _ λ k. ground (arith, bit-bit_or x 0 k, bit-zero k)

-- The low bits under a mask of ones.
pub and_ones : (k x : ℕ) → bit_and x (ones k) ≡ low k x
and_ones zero x = and_zero x
and_ones (suc k) x = omega (arith, and_step_one x (ones k), and_ones k (x / 2))

-- A mask that leaves out the low `k` bits.
pub and_shl : (k x m : ℕ) → bit_and x (shl k m) ≡ shl k (bit_and (shr k x) m)
and_shl zero x m = refl
and_shl (suc k) x m = omega (arith, and_step x (shl k m), and_shl k (x / 2) m)

-- The high bits under a mask, once they are known.
pub and_high : (k x q m : ℕ) → shr k x ≡ q → bit_and x (shl k m) ≡ shl k (bit_and q m)
and_high k x q m e = and_shl k x m ∙ ap (λ t. shl k (bit_and t m)) e

-- Fields that do not overlap are joined by `|` as by a sum.
pub or_shl : (k h l : ℕ) → shr k l ≡ 0 → bit_or (shl k h) l ≡ shl k h + l
or_shl zero h l e = ap (bit_or h) e ∙ or_zero h ∙ omega (arith, e)
or_shl (suc k) h l e = omega (arith, or_step (shl k h) l, or_shl k h (l / 2) e)

pub bit_or_comm : (x y : ℕ) → bit_or x y ≡ bit_or y x
bit_or_comm x y = bit-ext _ _ λ k. ground (arith, bit-bit_or x y k, bit-bit_or y x k)
