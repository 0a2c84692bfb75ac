-- ===== src/Process/Contracts/Tests.antt =====
-- kernel/core/verify.c: concrete runs.
use char_os.Base.{◌+◌, ◌%◌, ◌^◌, ◌≡◌, refl, arith, true, false, List, [], ◌∷◌}
use char_os.Base.Bits.{bit_not}
use char_os.Process.Cap.{cap_grant, cap_valid}
use char_os.Process.Sandbox.{allow}
use char_os.Process.Contracts.{
  broken, Guarded, GuardedCall, grants, allows, grant_call, allow_call, guarded_call, guarded_calls,
}
use char_os.Process.Contracts.Counted.{refused, guarded_calls-refused}

abbrev fresh : Guarded
fresh = record {
  set = 1;
  mask = λ _. 0;
  verify = record { hooked = true; fails = 0; reported = [] };
}

-- A null pointer, two capabilities at once, a call number out of range, and one call that is right.
abbrev mixed : List GuardedCall
mixed = grants false 2 ∷ grants true 6 ∷ allows true 256 ∷ grants true 2 ∷ []

reported_codes : (guarded_calls fresh mixed).verify.reported ≡ 0xC101 ∷ 0xC102 ∷ 0xB102 ∷ []
unfolding guarded_calls guarded_call grant_call allow_call cap_grant cap_valid allow bit_not broken
reported_codes = refl

guarded_calls-refused_example :
    ((guarded_calls fresh mixed).verify.fails ≡ (0 + refused fresh mixed) % 2 ^ 32)
    × ((c : GuardedCall)
        → (guarded_call fresh c).0 ≡ false
        → ((guarded_call fresh c).1.set ≡ 1) × ((guarded_call fresh c).1.mask ≡ fresh.mask))
guarded_calls-refused_example = guarded_calls-refused mixed fresh (omega arith)
