-- ===== src/Process/Cap/Sets.antt =====
-- kernel/process/cap.c: the words as sets of thirteen capabilities.
use char_os.Base.{
  ℕ, zero, suc, ◌^◌, ◌<◌, ◌≡◌, ◌↔◌, Bool, true, not, ◌&&◌, ◌||◌, some, ◌==◌, ltb, if◌then◌else◌,
  bit_and, bit_or, arith, refl, ap, Bool-cases, inl, inr,
}
use char_os.Base.Bits.{
  bit, bit_not, bit-bit_and, bit-bit_or, bit-bit_not, bit-pow, bit-zero, pow-lt,
  bit_and_pow-ne_zero, lt_of_bits, bit_above, all_below, of_all_below,
}
use char_os.Process.Cap.{valid_mask, cap_valid, cap_has, cap_grant, cap_revoke, cap_allow_only}

-- The position of a capability's bit, found by trying them.
abbrev position_from : ℕ → ℕ → ℕ
position_from zero c = 0
position_from (suc n) c = if c == 2 ^ n then n else position_from n c

pub position : ℕ → ℕ
position c = position_from 13 c

abbrev agrees : ℕ → Bool
agrees c = if cap_valid c then ltb (position c) 13 && c == 2 ^ position c else true

agrees_table : all_below 8192 agrees ≡ true
unfolding all_below cap_valid position bit_not
agrees_table = refl

singles : all_below 13 (λ j. cap_valid (2 ^ j)) ≡ true
unfolding all_below cap_valid
singles = refl

ones : bit_not 13 0 ≡ valid_mask
unfolding bit_not
ones = refl

valid_mask-bit : (k : ℕ) → bit valid_mask k ≡ ltb k 13
valid_mask-bit k = ground (arith, bit-bit_not 13 0 k, bit-zero k, ones)

-- What the complement of a mask shares no bit with lies in the mask.
disjoint_below :
    (a b k : ℕ)
    → a < 2 ^ 32
    → b < 2 ^ 32
    → bit_and a (bit_not 32 b) ≡ 0
    → bit a k ≡ true
    → bit b k ≡ true
disjoint_below a b k ha hb e t = ground (
  arith,
  ap (λ w. bit w k) e,
  bit-zero k,
  bit-bit_and a (bit_not 32 b) k,
  bit-bit_not 32 b k hb,
  bit_above 32 a k ha,
)

valid_disjoint : (c : ℕ) → cap_valid c ≡ true → bit_and c (bit_not 32 valid_mask) ≡ 0
unfolding cap_valid
valid_disjoint c h = ground arith

valid-lt : (c : ℕ) → c < 2 ^ 32 → cap_valid c ≡ true → c < 8192
valid-lt c fits h = lt_of_bits 13 c λ k le. elim (Bool-cases (bit c k)) [
  | inr off ↦ off
  | inl on ↦ ground (
    arith,
    disjoint_below c valid_mask k fits (omega arith) (valid_disjoint c h) on,
    valid_mask-bit k,
  )
]

-- A word is a capability exactly if it is one of the thirteen single bits.
pub cap_valid_iff : (c : ℕ) → c < 2 ^ 32 → (cap_valid c ≡ true) ↔ ((k : ℕ) × (k < 13) × (c ≡ 2 ^ k))
cap_valid_iff c fits = (find, check)
  where
    find : cap_valid c ≡ true → (k : ℕ) × (k < 13) × (c ≡ 2 ^ k)
    find h =
        let t = of_all_below 8192 agrees c agrees_table (valid-lt c fits h) in
        (position c, ground (arith, t), ground (arith, t))

    check : ((k : ℕ) × (k < 13) × (c ≡ 2 ^ k)) → cap_valid c ≡ true
    check (k, lt, e) = rw e (of_all_below 13 (λ j. cap_valid (2 ^ j)) k singles lt)

-- For one of the thirteen, `cap_has` reads its bit.
cap_has-bit : (set k : ℕ) → k < 13 → cap_has set (2 ^ k) ≡ bit set k
unfolding cap_has
cap_has-bit set k lt =
    rw (of_all_below 13 (λ j. cap_valid (2 ^ j)) k singles lt) (bit_and_pow-ne_zero set k)

-- Granting one of the thirteen capabilities adds it and no other, revoking removes it and no
-- other; both succeed, and only words that are no capability are refused.
pub cap_grant-revoke :
    (set j k : ℕ)
    → j < 13
    → k < 13
    → ((s : ℕ) × (cap_grant set (2 ^ j) ≡ some s)
        × (cap_has s (2 ^ k) ≡ ((k == j) || cap_has set (2 ^ k))))
      × ((s : ℕ) × (cap_revoke set (2 ^ j) ≡ some s)
          × (cap_has s (2 ^ k) ≡ (not (k == j) && cap_has set (2 ^ k))))
unfolding cap_grant cap_revoke
cap_grant-revoke set j k lj lk =
    let v = of_all_below 13 (λ i. cap_valid (2 ^ i)) j singles lj in
    ((bit_or set (2 ^ j), rw v, granted), (bit_and set (bit_not 32 (2 ^ j)), rw v, revoked))
  where
    granted : cap_has (bit_or set (2 ^ j)) (2 ^ k) ≡ ((k == j) || cap_has set (2 ^ k))
    granted = ground (
      arith,
      cap_has-bit (bit_or set (2 ^ j)) k lk,
      cap_has-bit set k lk,
      bit-bit_or set (2 ^ j) k,
      bit-pow j k,
    )

    revoked :
        cap_has (bit_and set (bit_not 32 (2 ^ j))) (2 ^ k) ≡ (not (k == j) && cap_has set (2 ^ k))
    revoked = ground (
      arith,
      cap_has-bit (bit_and set (bit_not 32 (2 ^ j))) k lk,
      cap_has-bit set k lk,
      bit-bit_and set (bit_not 32 (2 ^ j)) k,
      bit-bit_not 32 (2 ^ j) k (pow-lt j 32 (omega arith)),
      bit-pow j k,
    )

-- `cap_allow_only` never adds a capability: whatever 32-bit word is asked for, every bit of the
-- result is a bit of the current set.
pub cap_allow_only_never_adds :
    (cur want k : ℕ)
    → cur < 2 ^ 32
    → want < 2 ^ 32
    → bit (cap_allow_only cur want) k ≡ true
    → bit cur k ≡ true
unfolding cap_allow_only
cap_allow_only_never_adds cur want k fc fw h = ground (arith, disjoint_below want cur k fw fc)
