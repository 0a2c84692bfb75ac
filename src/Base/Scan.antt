-- ===== src/Base/Scan.antt =====
-- `for (i = lo; i < lo + n; i++) if (test(i)) { ...; break; }`: the first index that passes a test.
use Prim.Native.Nat.{ℕ, zero, suc, ◌+◌, ◌<◌, ◌≤◌}
use mathlib.Core.Path.{◌≡◌, refl, ap}
use mathlib.Core.Logic.{◌⊎◌, inl, inr}
use mathlib.Core.Bool.{Bool, true, false}
use mathlib.Core.Option.{Option, none, some}
use native.Mathlib.Decide.{dec_lt}
use native.Mathlib.Omega.{arith}
use char_os.Base.Tests.{Bool-cases, Option-cases}

-- `n` rounds from index `i`.
unfoldable pub scan : (ℕ → Bool) → ℕ → ℕ → Option ℕ
scan test i zero = none
scan test i (suc n) = elim (test i) [ true ↦ some i | false ↦ scan test (i + 1) n ]

pub record Found (test : ℕ → Bool) (i n k : ℕ) : Type 0 where
  pub from : i ≤ k
  pub below : k < i + n
  pub passes : test k ≡ true
  pub first : (j : ℕ) → i ≤ j → j < k → test j ≡ false

-- The next index is `i`, or the rest of the range has it.
range_cases : (i j : ℕ) → i ≤ j → (j ≡ i) ⊎ (i + 1 ≤ j)
range_cases i j h = grind arith

scan-some_here : (test : ℕ → Bool) (i n k : ℕ) → test i ≡ true → i ≡ k → Found test i (suc n) k
scan-some_here test i n k t e = record {
  from = omega arith;
  below = omega arith;
  passes = rw (← e) t;
  first = λ j lo hi. absurd (omega arith);
}

scan-some_later :
    (test : ℕ → Bool) (i n k : ℕ) → test i ≡ false → Found test (i + 1) n k → Found test i (suc n) k
scan-some_later test i n k t f = record {
  from = omega (arith, f.from);
  below = omega (arith, f.below);
  passes = f.passes;
  first = λ j lo hi. elim (range_cases i j lo) [ inl e ↦ rw e t | inr lo' ↦ f.first j lo' hi ];
}

pub scan-some : (test : ℕ → Bool) (i n k : ℕ) → scan test i n ≡ some k → Found test i n k
unfolding scan
scan-some test i zero k h = cc
scan-some test i (suc n) k h = elim (Bool-cases (test i)) [
  | inl t ↦ scan-some_here test i n k t (cc (rw (t, scan) at h))
  | inr t ↦ scan-some_later test i n k t (scan-some test (i + 1) n k (rw (t, scan) at h))
]

pub scan-none :
    (test : ℕ → Bool) (i n : ℕ)
    → scan test i n ≡ none
    → (j : ℕ) → i ≤ j
    → j < i + n
    → test j ≡ false
unfolding scan
scan-none test i zero h j lo hi = absurd (omega arith)
scan-none test i (suc n) h j lo hi = elim (Bool-cases (test i)) [
  | inl t ↦ cc (rw (t, scan) at h)
  | inr t ↦ elim (range_cases i j lo) [
    | inl e ↦ rw e t
    | inr lo' ↦ scan-none test (i + 1) n (rw (t, scan) at h) j lo' (omega arith)
  ]
]

-- A test that fails on the whole range finds nothing.
pub scan_all_fail :
    (test : ℕ → Bool) (i n : ℕ)
    → ((j : ℕ) → i ≤ j → j < i + n → test j ≡ false)
    → scan test i n ≡ none
unfolding scan
scan_all_fail test i zero h = refl
scan_all_fail test i (suc n) h =
    rw (h i (omega arith) (omega arith), scan)
      (scan_all_fail test (i + 1) n (λ j lo hi. h j (omega arith) (omega arith)))

-- The first index that passes is the one found.
pub scan-first : (test : ℕ → Bool) (i n k : ℕ) → Found test i n k → scan test i n ≡ some k
scan-first test i n k f = elim (Option-cases (scan test i n)) [
  | inl e ↦ cc (scan-none test i n e k f.from f.below, f.passes)
  | inr (m, e) ↦ rw e (ap some (same m (scan-some test i n m e)))
]
  where
    same : (m : ℕ) → Found test i n m → m ≡ k
    same m g = elim (dec_lt m k) [
      | yes lt ↦ cc (f.first m g.from lt, g.passes)
      | no ge ↦ elim (dec_lt k m) [
        | yes lt ↦ cc (g.first k f.from lt, f.passes)
        | no ge' ↦ omega arith
      ]
    ]
