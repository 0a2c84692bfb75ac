-- ===== src/Process/Contracts/Counted.antt =====
-- kernel/core/verify.c: the counter of broken contracts over any calls.
use char_os.Base.{
  ℕ, ◌+◌, ◌%◌, ◌^◌, ◌≡◌, ◌<◌, refl, ◌∙◌, arith, Bool, true, false, Option, none, some, List, [],
  ◌∷◌, if◌then◌else◌,
}
use char_os.Process.Sandbox.{Mask}
use char_os.Process.Contracts.{
  broken, in_range, contract, Guarded, GuardedCall, grants, revokes, drops_all, allows, denies,
  pointer, with_set, with_mask, grant_call, revoke_call, drop_all_call, allow_call, deny_call,
  guarded_call, guarded_calls,
}

-- How many of the calls return -1.
pub refused : Guarded → List GuardedCall → ℕ
refused g [] = 0
refused g (c ∷ cs) = (if (guarded_call g c).0 then 0 else 1) + refused (guarded_call g c).1 cs

-- A call that is refused leaves set and mask and is counted; another one is not counted.
record IsCounted (g : Guarded) (r : Bool × Guarded) : Type 0 where
  counted : r.1.verify.fails ≡ (if r.0 then g.verify.fails else (g.verify.fails + 1) % 2 ^ 32)
  kept_set : r.0 ≡ false → r.1.set ≡ g.set
  kept_mask : r.0 ≡ false → r.1.mask ≡ g.mask

set-IsCounted :
    (g : Guarded) (a b : ℕ) (p : Option ℕ) (op : ℕ → Option ℕ)
    → IsCounted g (with_set g (contract g.verify a b p op))
unfolding broken
set-IsCounted g a b none op = record { counted = refl; kept_set = λ e. refl; kept_mask = λ e. refl }
set-IsCounted g a b (some s) op = ranged (op s)
  where
    ranged : (o : Option ℕ) → IsCounted g (with_set g (in_range g.verify b o))
    ranged none =
        unfold broken in record { counted = refl; kept_set = λ e. refl; kept_mask = λ e. refl }
    ranged (some s) = record {
      counted = refl;
      kept_set = λ e. absurd (ground arith);
      kept_mask = λ e. refl;
    }

mask-IsCounted :
    (g : Guarded) (a b : ℕ) (p : Option Mask) (op : Mask → Option Mask)
    → IsCounted g (with_mask g (contract g.verify a b p op))
unfolding broken
mask-IsCounted g a b none op = record {
  counted = refl;
  kept_set = λ e. refl;
  kept_mask = λ e. refl;
}
mask-IsCounted g a b (some m) op = ranged (op m)
  where
    ranged : (o : Option Mask) → IsCounted g (with_mask g (in_range g.verify b o))
    ranged none =
        unfold broken in record { counted = refl; kept_set = λ e. refl; kept_mask = λ e. refl }
    ranged (some m) = record {
      counted = refl;
      kept_set = λ e. refl;
      kept_mask = λ e. absurd (ground arith);
    }

call-IsCounted : (g : Guarded) (c : GuardedCall) → IsCounted g (guarded_call g c)
unfolding guarded_call grant_call revoke_call drop_all_call allow_call deny_call
call-IsCounted g (grants given cap) = set-IsCounted g 0xC101 0xC102 (pointer given g.set) _
call-IsCounted g (revokes given cap) = set-IsCounted g 0xC103 0xC104 (pointer given g.set) _
call-IsCounted g (drops_all given) = set-IsCounted g 0xC105 0xC105 (pointer given g.set) _
call-IsCounted g (allows given nr) = mask-IsCounted g 0xB101 0xB102 (pointer given g.mask) _
call-IsCounted g (denies given nr) = mask-IsCounted g 0xB103 0xB104 (pointer given g.mask) _

count_step :
    (b : Bool) (f n : ℕ) (g : ℕ)
    → g ≡ (if b then f else (f + 1) % 2 ^ 32)
    → f < 2 ^ 32
    → ((g + n) % 2 ^ 32 ≡ (f + ((if b then 0 else 1) + n)) % 2 ^ 32) × (g < 2 ^ 32)
count_step true f n g e h = (omega (arith, e), omega (arith, e))
count_step false f n g e h = (omega (arith, e), omega (arith, e))

-- Over any calls on a set and a mask, with null pointers and arguments out of range among them, the
-- counter of broken contracts grows by the number of calls that return -1, in 32 bits, and each
-- such call leaves the set and the mask as they were.
pub guarded_calls-refused :
    (cs : List GuardedCall) (g : Guarded)
    → g.verify.fails < 2 ^ 32
    → ((guarded_calls g cs).verify.fails ≡ (g.verify.fails + refused g cs) % 2 ^ 32)
      × ((c : GuardedCall)
          → (guarded_call g c).0 ≡ false
          → ((guarded_call g c).1.set ≡ g.set) × ((guarded_call g c).1.mask ≡ g.mask))
unfolding guarded_calls refused
guarded_calls-refused [] g h =
    (omega arith, λ c e. ((call-IsCounted g c).kept_set e, (call-IsCounted g c).kept_mask e))
guarded_calls-refused (c ∷ cs) g h =
    let u = (guarded_call g c).1 in
    let (sum, below) =
      count_step (guarded_call g c).0 g.verify.fails (refused u cs) u.verify.fails
        (call-IsCounted g c).counted h in
    (
      (guarded_calls-refused cs u below).0 ∙ sum,
      λ d e. ((call-IsCounted g d).kept_set e, (call-IsCounted g d).kept_mask e),
    )
