-- ===== src/Process/Sandbox/Filter.antt =====
-- kernel/process/sandbox.c: the mask is a set of call numbers.
use mathlib.Core.Option
use char_os.Base.{
  ℕ, ◌/◌, ◌%◌, ◌^◌, ◌<◌, ◌≡◌, false, not, ◌&&◌, ◌||◌, none, some, ◌==◌, ltb, if◌then◌else◌, arith,
  refl, update, bit_and, bit_or, Bool-cases, inl, inr, ltb→lt,
}
use char_os.Base.Bits.{
  bit, bit_not, bit-bit_and, bit-bit_or, bit-bit_not, bit-pow, bit-zero, pow-lt,
  bit_and_pow-ne_zero,
}
use char_os.Process.Sandbox.{Mask, max_nr, allow_all, lockdown, allow, deny, check}

check-bit :
    (m : Mask) (n : ℕ) → check m n ≡ (if ltb n max_nr then bit (m (n / 32)) (n % 32) else false)
unfolding check
check-bit m n = ground (arith, bit_and_pow-ne_zero (m (n / 32)) (n % 32))

allow-check :
    (m : Mask) (nr n : ℕ)
    → nr < 256
    → Option.map (λ a. check a n) (allow m nr) ≡ some ((n == nr) || check m n)
unfolding allow
allow-check m nr n small =
    let a : Mask = update m (nr / 32) (bit_or (m (nr / 32)) (2 ^ (nr % 32))) in
    ground (
      arith,
      check-bit m n,
      check-bit a n,
      bit-bit_or (m (nr / 32)) (2 ^ (nr % 32)) (n % 32),
      bit-pow (nr % 32) (n % 32),
    )

deny-check :
    (m : Mask) (nr n : ℕ)
    → nr < 256
    → Option.map (λ d. check d n) (deny m nr) ≡ some (not (n == nr) && check m n)
unfolding deny
deny-check m nr n small =
    let d : Mask = update m (nr / 32) (bit_and (m (nr / 32)) (bit_not 32 (2 ^ (nr % 32)))) in
    ground (
      arith,
      check-bit m n,
      check-bit d n,
      bit-bit_and (m (nr / 32)) (bit_not 32 (2 ^ (nr % 32))) (n % 32),
      bit-bit_not 32 (2 ^ (nr % 32)) (n % 32) (pow-lt (nr % 32) 32 (omega arith)),
      bit-pow (nr % 32) (n % 32),
    )

-- Allowing or denying a call number succeeds exactly below 256, and the mask that comes out then
-- answers anew for that number and as before for every other.
pub check-allow-deny :
    (m : Mask) (nr n : ℕ)
    → (Option.map (λ a. check a n) (allow m nr)
        ≡ (if ltb nr 256 then some ((n == nr) || check m n) else none))
      × (Option.map (λ d. check d n) (deny m nr)
          ≡ (if ltb nr 256 then some (not (n == nr) && check m n) else none))
unfolding allow deny
check-allow-deny m nr n = elim (Bool-cases (ltb nr 256)) [
  | inl small ↦ rw (small) (
    rw small at (allow-check m nr n (ltb→lt _ _ small)),
    rw small at (deny-check m nr n (ltb→lt _ _ small)),
  )
  | inr large ↦ rw large (refl, refl)
]

-- After a lockdown every call is refused; after `allow_all` exactly those below 256 pass.
pub check-lockdown-allow_all :
    (m : Mask) (n : ℕ) → (check (lockdown m) n ≡ false) × (check (allow_all m) n ≡ ltb n max_nr)
unfolding lockdown allow_all
check-lockdown-allow_all m n = ground (
  arith,
  check-bit (lockdown m) n,
  check-bit (allow_all m) n,
  bit-zero (n % 32),
  bit-bit_not 32 0 (n % 32),
  all_ones,
)
  where
    all_ones : bit_not 32 0 ≡ 0xFFFFFFFF
    all_ones = unfold bit_not in refl
