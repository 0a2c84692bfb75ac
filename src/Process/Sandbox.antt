-- ===== src/Process/Sandbox.antt =====
-- kernel/process/sandbox.c: the filter of system calls, one bit for each number in eight words.
-- A mask is not null here; null masks and the count of broken contracts are in Process/Contracts.antt.
pub mod Filter
mod Tests
use char_os.Base.{
  ℕ, ◌+◌, ◌-◌, ◌/◌, ◌%◌, ◌^◌, Bool, true, false, not, Option, none, some, ◌==◌, ltb, if◌then◌else◌,
  update, bit_and, bit_or,
}
use char_os.Base.Bits.{bit_not}

abbrev pub max_nr : ℕ
max_nr = 256

-- The words of a mask that is not null.
abbrev pub Mask : Type 0
Mask = ℕ → ℕ

pub allow_all : Mask → Mask
allow_all mask i = if ltb i 8 then 0xFFFFFFFF else mask i

pub lockdown : Mask → Mask
lockdown mask i = if ltb i 8 then 0 else mask i

-- `none` is -1: the contract `nr < SB_MAX_NR` does not hold.
unfoldable pub allow : Mask → ℕ → Option Mask
allow mask nr =
    if ltb nr max_nr
    then some (update mask (nr / 32) (bit_or (mask (nr / 32)) (2 ^ (nr % 32))))
    else none

unfoldable pub deny : Mask → ℕ → Option Mask
unfolding bit_not
deny mask nr =
    if ltb nr max_nr
    then some (update mask (nr / 32) (bit_and (mask (nr / 32)) (bit_not 32 (2 ^ (nr % 32)))))
    else none

unfoldable pub check : Mask → ℕ → Bool
check mask nr = if ltb nr max_nr then not (bit_and (mask (nr / 32)) (2 ^ (nr % 32)) == 0) else false
