-- ===== src/Process/Cap/Tests.antt =====
-- The theorems about capabilities at concrete words.
use char_os.Base.{ℕ, ◌^◌, ◌≡◌, not, ◌||◌, ◌&&◌, some, ◌==◌, List, [], ◌∷◌, arith}
use char_os.Process.Cap.{cap_has, cap_grant, cap_revoke}
use char_os.Process.Cap.Sets.{cap_grant-revoke}

cap_grant-revoke_example :
    ((s : ℕ) × (cap_grant 0b100 (2 ^ 5) ≡ some s)
      × (cap_has s (2 ^ 2) ≡ ((2 == 5) || cap_has 0b100 (2 ^ 2))))
    × ((s : ℕ) × (cap_revoke 0b100 (2 ^ 5) ≡ some s)
        × (cap_has s (2 ^ 2) ≡ (not (2 == 5) && cap_has 0b100 (2 ^ 2))))
cap_grant-revoke_example = cap_grant-revoke 0b100 5 2 (omega arith) (omega arith)

abbrev decisions : List (ℕ × ℕ)
decisions = (1, 1) ∷ (2, 0) ∷ (4, 7) ∷ []
