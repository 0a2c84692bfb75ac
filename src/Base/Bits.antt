-- ===== src/Base/Bits.antt =====
-- The bits of a word, and what the bit operators of C do to each of them.
use Prim.Native.Nat.{
  ℕ, zero, suc, ◌+◌, ◌-◌, ◌*◌, ◌/◌, ◌%◌, ◌^◌, ◌≤◌, ◌<◌, min, max, bit_and, bit_or, digits,
  bit_and-bitwise, bit_or-bitwise,
}
use mathlib.Core.Path.{◌≡◌, refl, ap, sym, ◌∙◌}
use mathlib.Core.Bool.{Bool, true, false, not, ◌&&◌, ◌||◌}
use native.Mathlib.Nat.{pow-suc, one-le-pow, pow-le-pow_right}
use native.Mathlib.Omega.{arith}
use char_os.Base.Tests.{◌==◌, ltb, if◌then◌else◌}

-- Bit `k` of `x`.
unfoldable pub bit : ℕ → ℕ → Bool
bit x zero = x % 2 == 1
bit x (suc k) = bit (x / 2) k

abbrev and_of : ℕ → ℕ → ℕ → ℕ
and_of = digits (λ b. zero) min

abbrev or_of : ℕ → ℕ → ℕ → ℕ
or_of = digits (λ b. b) max

-- More digits than the number has change nothing.
and_of_more : (n m a b : ℕ) → a ≤ n → a ≤ m → and_of n a b ≡ and_of m a b
and_of_more zero zero a b p q = refl
and_of_more zero (suc m) zero b p q = refl
and_of_more zero (suc m) (suc a) b p q = absurd (omega arith)
and_of_more (suc n) zero zero b p q = refl
and_of_more (suc n) zero (suc a) b p q = absurd (omega arith)
and_of_more (suc n) (suc m) zero b p q = refl
and_of_more (suc n) (suc m) (suc a) b p q =
    omega (arith, and_of_more n m (suc a / 2) (b / 2) (omega arith) (omega arith))

or_of_more : (n m a b : ℕ) → a ≤ n → a ≤ m → or_of n a b ≡ or_of m a b
or_of_more zero zero a b p q = refl
or_of_more zero (suc m) zero b p q = refl
or_of_more zero (suc m) (suc a) b p q = absurd (omega arith)
or_of_more (suc n) zero zero b p q = refl
or_of_more (suc n) zero (suc a) b p q = absurd (omega arith)
or_of_more (suc n) (suc m) zero b p q = refl
or_of_more (suc n) (suc m) (suc a) b p q =
    omega (arith, or_of_more n m (suc a / 2) (b / 2) (omega arith) (omega arith))

pub bit_and_digit : (a b : ℕ) → bit_and a b ≡ bit_and (a / 2) (b / 2) * 2 + min (a % 2) (b % 2)
bit_and_digit zero b = omega (arith, bit_and-bitwise 0 b, bit_and-bitwise 0 (b / 2))
bit_and_digit (suc a) b = omega (
  arith,
  bit_and-bitwise (suc a) b,
  bit_and-bitwise (suc a / 2) (b / 2),
  and_of_more a (suc a / 2) (suc a / 2) (b / 2) (omega arith) (omega arith),
)

pub bit_or_digit : (a b : ℕ) → bit_or a b ≡ bit_or (a / 2) (b / 2) * 2 + max (a % 2) (b % 2)
bit_or_digit zero b = omega (arith, bit_or-bitwise 0 b, bit_or-bitwise 0 (b / 2))
bit_or_digit (suc a) b = omega (
  arith,
  bit_or-bitwise (suc a) b,
  bit_or-bitwise (suc a / 2) (b / 2),
  or_of_more a (suc a / 2) (suc a / 2) (b / 2) (omega arith) (omega arith),
)

bit_and_half : (a b : ℕ) → bit_and a b / 2 ≡ bit_and (a / 2) (b / 2)
bit_and_half a b = omega (arith, bit_and_digit a b)

bit_or_half : (a b : ℕ) → bit_or a b / 2 ≡ bit_or (a / 2) (b / 2)
bit_or_half a b = omega (arith, bit_or_digit a b)

pub bit-bit_and : (a b k : ℕ) → bit (bit_and a b) k ≡ (bit a k && bit b k)
unfolding bit
bit-bit_and a b zero = ground (arith, bit_and_digit a b)
bit-bit_and a b (suc k) = rw bit_and_half (bit-bit_and (a / 2) (b / 2) k)

pub bit-bit_or : (a b k : ℕ) → bit (bit_or a b) k ≡ (bit a k || bit b k)
unfolding bit
bit-bit_or a b zero = ground (arith, bit_or_digit a b)
bit-bit_or a b (suc k) = rw bit_or_half (bit-bit_or (a / 2) (b / 2) k)

pub bit-zero : (k : ℕ) → bit 0 k ≡ false
unfolding bit
bit-zero zero = refl
bit-zero (suc k) = bit-zero k

half_pow : (i : ℕ) → 2 ^ suc i / 2 ≡ 2 ^ i
half_pow i = rw pow-suc (omega arith)

-- `1 << i` has the one bit `i`.
pub bit-pow : (i k : ℕ) → bit (2 ^ i) k ≡ (i == k)
unfolding bit
bit-pow zero zero = refl
bit-pow zero (suc k) = rw bit-zero (ground arith)
bit-pow (suc i) zero = rw pow-suc (ground arith)
bit-pow (suc i) (suc k) = rw (half_pow i, bit-pow i k) (ground arith)

-- `~x` in a word of `w` bits.
unfoldable pub bit_not : ℕ → ℕ → ℕ
bit_not w x = 2 ^ w - 1 - x

bit_not_half : (w x : ℕ) → x < 2 ^ suc w → bit_not (suc w) x / 2 ≡ bit_not w (x / 2)
unfolding bit_not
bit_not_half w x h = omega (arith, pow-suc 2 w)

bit_not_parity : (w x : ℕ) → x < 2 ^ suc w → bit_not (suc w) x % 2 ≡ 1 - x % 2
unfolding bit_not
bit_not_parity w x h = omega (arith, pow-suc 2 w)

pub bit-bit_not : (w x k : ℕ) → x < 2 ^ w → bit (bit_not w x) k ≡ (ltb k w && not (bit x k))
unfolding bit
bit-bit_not zero x k h = rw (none_left, bit-zero) (ground arith)
  where
    none_left : bit_not 0 x ≡ 0
    none_left = unfold bit_not in omega arith
bit-bit_not (suc w) x zero h = ground (arith, bit_not_parity w x h)
bit-bit_not (suc w) x (suc k) h =
    rw (bit_not_half w x h, bit-bit_not w (x / 2) k (omega (arith, pow-suc 2 w))) (ground arith)

bit_head : (a b : ℕ) → bit a 0 ≡ bit b 0 → a % 2 ≡ b % 2
unfolding bit
bit_head a b h = ground arith

bit-ext_below : (n a b : ℕ) → a ≤ n → b ≤ n → ((k : ℕ) → bit a k ≡ bit b k) → a ≡ b
unfolding bit
bit-ext_below zero a b p q h = omega arith
bit-ext_below (suc n) a b p q h = omega (
  arith,
  bit_head a b (h 0),
  bit-ext_below n (a / 2) (b / 2) (omega arith) (omega arith) (λ k. h (suc k)),
)

-- Two words with the same bits are equal.
pub bit-ext : (a b : ℕ) → ((k : ℕ) → bit a k ≡ bit b k) → a ≡ b
bit-ext a b h = bit-ext_below (a + b) a b (omega arith) (omega arith) h

-- `x & (1 << k)` is not 0 exactly when bit `k` is set.
pub bit_and_pow : (x k : ℕ) → bit_and x (2 ^ k) ≡ (if bit x k then 2 ^ k else 0)
bit_and_pow x k = bit-ext _ _ λ j. same j
  where
    same : (j : ℕ) → bit (bit_and x (2 ^ k)) j ≡ bit (if bit x k then 2 ^ k else 0) j
    same j =
        ground (arith, bit-bit_and x (2 ^ k) j, bit-pow k j, bit-zero j, ap (bit x) {x = k} {y = j})

bit_and-le_fuel : (n a b : ℕ) → a ≤ n → bit_and a b ≤ a
bit_and-le_fuel zero zero b h = omega (arith, bit_and-bitwise 0 b)
bit_and-le_fuel zero (suc a) b h = absurd (omega arith)
bit_and-le_fuel (suc n) zero b h = omega (arith, bit_and-bitwise 0 b)
bit_and-le_fuel (suc n) (suc a) b h =
    omega (arith, bit_and_digit (suc a) b, bit_and-le_fuel n (suc a / 2) (b / 2) (omega arith))

pub bit_and-le : (a b : ℕ) → bit_and a b ≤ a
bit_and-le a b = bit_and-le_fuel a a b (omega arith)

-- Words of `w` bits are closed under the operators.
pub bit_or-lt : (w a b : ℕ) → a < 2 ^ w → b < 2 ^ w → bit_or a b < 2 ^ w
bit_or-lt zero zero zero p q = omega arith
bit_or-lt zero zero (suc b) p q = absurd (omega arith)
bit_or-lt zero (suc a) b p q = absurd (omega arith)
bit_or-lt (suc w) a b p q = omega (
  arith,
  pow-suc 2 w,
  bit_or_digit a b,
  bit_or-lt w (a / 2) (b / 2) (omega (arith, pow-suc 2 w)) (omega (arith, pow-suc 2 w)),
)

pub bit_not-lt : (w x : ℕ) → bit_not w x < 2 ^ w
unfolding bit_not
bit_not-lt w x = omega (arith, one-le-pow w 2)

pub pow-pos : (k : ℕ) → 0 < 2 ^ k
pow-pos k = one-le-pow k 2 (omega arith)

pub pow-lt : (j k : ℕ) → j < k → 2 ^ j < 2 ^ k
pow-lt j k h = omega (arith, pow-pos j, pow-suc 2 j, pow-le-pow_right {n = 2} (omega arith) h)

-- `(x & (1 << k)) != 0` reads bit `k`.
pub bit_and_pow-ne_zero : (x k : ℕ) → not (bit_and x (2 ^ k) == 0) ≡ bit x k
bit_and_pow-ne_zero x k = ground (arith, bit_and_pow x k, pow-pos k)

bits_of_half :
    (w x : ℕ) → ((k : ℕ) → w < k → bit x k ≡ false) → (k : ℕ) → w ≤ k → bit (x / 2) k ≡ false
unfolding bit
bits_of_half w x h k le = h (suc k) (omega arith)

-- A word with no bit from `w` on is below 2 ^ w.
pub lt_of_bits : (w x : ℕ) → ((k : ℕ) → w ≤ k → bit x k ≡ false) → x < 2 ^ w
lt_of_bits zero x h = omega (arith, bit-ext x 0 (λ k. h k (omega arith) ∙ sym (bit-zero k)))
lt_of_bits (suc w) x h =
    omega (arith, pow-suc 2 w, lt_of_bits w (x / 2) (bits_of_half w x (λ k lt. h k (omega arith))))

-- And the other way round.
pub bit_above : (w x k : ℕ) → x < 2 ^ w → w ≤ k → bit x k ≡ false
unfolding bit
bit_above zero x k h le = rw (none_left) (bit-zero k)
  where
    none_left : x ≡ 0
    none_left = omega arith
bit_above (suc w) x zero h le = absurd (omega arith)
bit_above (suc w) x (suc k) h le = bit_above w (x / 2) k (omega (arith, pow-suc 2 w)) (omega arith)

-- To prove a fact about all numbers below `n` by evaluation.
unfoldable pub all_below : ℕ → (ℕ → Bool) → Bool
all_below zero test = true
all_below (suc n) test = test n && all_below n test

pub of_all_below :
    (n : ℕ) (test : ℕ → Bool) (x : ℕ) → all_below n test ≡ true → x < n → test x ≡ true
unfolding all_below
of_all_below zero test x h lt = absurd (omega arith)
of_all_below (suc n) test x h lt = ground (arith, of_all_below n test x)
