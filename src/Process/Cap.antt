-- ===== src/Process/Cap.antt =====
-- kernel/process/cap.c and include/process/cap.h: sets of capabilities as words, and the ring of
-- the last sixteen decisions. A set is passed by a pointer that is not null; null pointers and the
-- count of broken contracts are in Process/Contracts.antt.
pub mod Sets
pub mod Audit
mod Tests
use char_os.Base.{
  ℕ, zero, suc, ◌+◌, ◌-◌, ◌%◌, ◌^◌, Bool, true, false, not, ◌||◌, Option, none, some, ◌==◌, ltb,
  leb, if◌then◌else◌, update, bit_and, bit_or,
}
use char_os.Base.Bits.{bit_not}

abbrev pub valid_mask : ℕ
valid_mask = 0x1FFF

-- One bit, and inside the mask. (`cap - 1` is taken only of a `cap` that is not 0.)
unfoldable pub cap_valid : ℕ → Bool
unfolding bit_not
cap_valid cap =
    if cap == 0
    then false
    else if bit_and cap (bit_not 32 valid_mask) == 0
    then bit_and cap (cap - 1) == 0
    else false

unfoldable pub cap_has : ℕ → ℕ → Bool
unfolding cap_valid
cap_has set cap = if cap_valid cap then not (bit_and set cap == 0) else false

-- `none` is -1.
unfoldable pub cap_grant : ℕ → ℕ → Option ℕ
unfolding cap_valid
cap_grant set cap = if cap_valid cap then some (bit_or set cap) else none

unfoldable pub cap_revoke : ℕ → ℕ → Option ℕ
unfolding cap_valid bit_not
cap_revoke set cap = if cap_valid cap then some (bit_and set (bit_not 32 cap)) else none

unfoldable pub cap_is_subset : ℕ → ℕ → Bool
unfolding bit_not
cap_is_subset a b = bit_and a (bit_not 32 b) == 0

unfoldable pub cap_allow_only : ℕ → ℕ → ℕ
unfolding cap_is_subset bit_not
cap_allow_only cur want =
    if bit_and want (bit_not 32 valid_mask) == 0
    then if cap_is_subset want cur then want else cur
    else cur

-- `struct cap_audit_entry`
pub record Entry : Type 0 where
  pub cap : ℕ
  pub granted : ℕ

abbrev pub audit_len : ℕ
audit_len = 16

pub record Ring : Type 0 where
  pub entries : ℕ → Entry
  pub pos : ℕ  -- uint32_t

unfoldable pub cap_audit : Ring → ℕ → ℕ → Ring
cap_audit r cap granted = record {
  entries =
      update r.entries (r.pos % audit_len)
        (record { cap = cap; granted = if granted == 0 then 0 else 1 });
  pos = (r.pos + 1) % 2 ^ 32;
}

-- For outputs that are not null.
unfoldable pub cap_audit_read : Ring → ℕ → Option Entry
cap_audit_read r idx =
    if leb audit_len idx || leb r.pos idx
    then none
    else some (r.entries ((r.pos - 1 - idx) % audit_len))

-- `cap_drop_all` leaves the empty set.
abbrev pub cap_drop_all : ℕ → ℕ
cap_drop_all set = 0
