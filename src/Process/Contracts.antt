-- ===== src/Process/Contracts.antt =====
-- kernel/core/verify.c with the calls of kernel/process/cap.c and kernel/process/sandbox.c that state
-- contracts: null pointers and arguments out of range are counted and reported.
use char_os.Base.{
  ℕ, zero, suc, ◌+◌, ◌%◌, ◌^◌, Bool, true, false, Option, none, some, List, [], ◌∷◌, ◌++◌,
  if◌then◌else◌,
}
use char_os.Process.Cap.{cap_grant, cap_revoke}
use char_os.Process.Sandbox.{Mask, allow, deny, allow_all, lockdown}
pub mod Counted
mod Tests

-- The hook is set from outside; `reported` has the codes it was called with, the newest last.
pub record Verify : Type 0 where
  pub hooked : Bool
  pub fails : ℕ
  pub reported : List ℕ

unfoldable pub verify_set_hook : Verify → Bool → Verify
verify_set_hook v hooked = record v { hooked = hooked }

-- verify_require of a condition that does not hold; one that holds changes nothing.
unfoldable pub broken : Verify → ℕ → Verify
broken v code = record v {
  fails = (v.fails + 1) % 2 ^ 32;
  reported = if v.hooked then v.reported ++ (code ∷ []) else v.reported;
}

-- A call with two contracts: its pointer is not null, and its argument is in range.  The second
-- part is the object after the call, none for -1.
abbrev pub in_range {ℓ} : {A : Type ℓ} → Verify → ℕ → Option A → Verify × Option A
in_range v code none = (broken v code, none)
in_range v code (some a) = (v, some a)

abbrev pub contract {ℓ} :
    {A : Type ℓ} → Verify → ℕ → ℕ → Option A → (A → Option A) → Verify × Option A
contract v null_code range_code none op = (broken v null_code, none)
contract v null_code range_code (some a) op = in_range v range_code (op a)

unfoldable pub grant_call : Verify → Option ℕ → ℕ → Verify × Option ℕ
grant_call v set cap = contract v 0xC101 0xC102 set (λ s. cap_grant s cap)

unfoldable pub revoke_call : Verify → Option ℕ → ℕ → Verify × Option ℕ
revoke_call v set cap = contract v 0xC103 0xC104 set (λ s. cap_revoke s cap)

-- cap_drop_all has the first contract only.
unfoldable pub drop_all_call : Verify → Option ℕ → Verify × Option ℕ
drop_all_call v set = contract v 0xC105 0xC105 set (λ s. some 0)

unfoldable pub allow_call : Verify → Option Mask → ℕ → Verify × Option Mask
allow_call v mask nr = contract v 0xB101 0xB102 mask (λ m. allow m nr)

unfoldable pub deny_call : Verify → Option Mask → ℕ → Verify × Option Mask
deny_call v mask nr = contract v 0xB103 0xB104 mask (λ m. deny m nr)

-- A task's set and mask with the counter.
pub record Guarded : Type 0 where
  pub set : ℕ
  pub mask : Mask
  pub verify : Verify

-- The calls; `true` passes the pointer, `false` a null pointer.
pub data GuardedCall : Type 0 where
  grants : Bool → ℕ → GuardedCall
  revokes : Bool → ℕ → GuardedCall
  drops_all : Bool → GuardedCall
  allows : Bool → ℕ → GuardedCall
  denies : Bool → ℕ → GuardedCall

abbrev pub pointer {ℓ} : {A : Type ℓ} → Bool → A → Option A
pointer true a = some a
pointer false a = none

-- Whether a call returned 0, with the state after it.
abbrev pub with_set : Guarded → Verify × Option ℕ → Bool × Guarded
with_set g (v, none) = (false, record g { verify = v })
with_set g (v, some s) = (true, record g { set = s; verify = v })

abbrev pub with_mask : Guarded → Verify × Option Mask → Bool × Guarded
with_mask g (v, none) = (false, record g { verify = v })
with_mask g (v, some m) = (true, record g { mask = m; verify = v })

unfoldable pub guarded_call : Guarded → GuardedCall → Bool × Guarded
guarded_call g (grants given cap) = with_set g (grant_call g.verify (pointer given g.set) cap)
guarded_call g (revokes given cap) = with_set g (revoke_call g.verify (pointer given g.set) cap)
guarded_call g (drops_all given) = with_set g (drop_all_call g.verify (pointer given g.set))
guarded_call g (allows given nr) = with_mask g (allow_call g.verify (pointer given g.mask) nr)
guarded_call g (denies given nr) = with_mask g (deny_call g.verify (pointer given g.mask) nr)

unfoldable pub guarded_calls : Guarded → List GuardedCall → Guarded
unfolding guarded_call
guarded_calls g [] = g
guarded_calls g (c ∷ cs) = guarded_calls (guarded_call g c).1 cs
