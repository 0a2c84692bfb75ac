-- ===== src/Storage/Repo/Tests.antt =====
-- kernel/arch/x86_64/repo64.c: concrete runs.
use char_os.Base.{ℕ, ◌≡◌, refl, List, [], ◌∷◌}
use char_os.Storage.Repo.{higher, vercmp, vercmp_from, number}
use char_os.Storage.Repo.Order.{flip, vercmp_swap}

abbrev nine : List ℕ
nine = b'1' ∷ b'.' ∷ b'9' ∷ []

abbrev ten : List ℕ
ten = b'1' ∷ b'.' ∷ b'1' ∷ b'0' ∷ []

ten_above_nine : vercmp ten nine ≡ higher
unfolding vercmp vercmp_from number
ten_above_nine = refl

-- What is left of one string is compared by its next character, so "1.0" is above "1".
longer_above : vercmp (b'1' ∷ b'.' ∷ b'0' ∷ []) (b'1' ∷ []) ≡ higher
unfolding vercmp vercmp_from number
longer_above = refl

vercmp_swap_example : vercmp nine ten ≡ flip (vercmp ten nine)
vercmp_swap_example = vercmp_swap ten nine
