-- ===== src/Base/Ring.antt =====
-- A C array used as a ring: the items from one index on, going round at the capacity.
use Prim.Native.Nat.{ℕ, zero, suc, ◌+◌, ◌-◌, ◌%◌, ◌<◌}
use mathlib.Core.Path.{◌≡◌, refl, ap, ap₂}
use mathlib.Core.Logic.{◌≢◌}
use mathlib.Core.List.{List, [], ◌∷◌, ◌++◌}
use native.Mathlib.Nat.{mod-eq_of_lt, mod-add-mod, mod-eq-sub-mod}
use native.Mathlib.Numerals.{add-one}
use native.Mathlib.Decide.{dec_lt}
use native.Mathlib.Omega.{arith}
use char_os.Base.Arrays.{update, update_here, update_away, length}

-- `(i + 1) % cap` of an index is an index.
pub ring_next-lt : (i cap : ℕ) → i < cap → (i + 1) % cap < cap
ring_next-lt i cap h = omega arith

-- Stepping on from `pos` and then by `n` is one step more than `n`.
pub ring_shift : (pos n cap : ℕ) → (pos + suc n) % cap ≡ ((pos + 1) % cap + n) % cap
ring_shift pos n cap = omega (arith, mod-add-mod (pos + 1) cap n, ap (λ k. k % cap) regroup)
  where
    regroup : pos + suc n ≡ pos + 1 + n
    regroup = omega arith

-- Fewer than `cap` steps do not come back.
pub ring_apart : (pos n cap : ℕ) → pos < cap → suc n < cap → (pos + suc n) % cap ≢ pos
ring_apart pos n cap p q = elim (dec_lt (pos + suc n) cap) [
  | yes stays ↦ omega (arith, mod-eq_of_lt stays)
  | no wraps ↦ omega (
    arith,
    mod-eq-sub-mod {n = pos + suc n} {m = cap} (omega arith),
    mod-eq_of_lt {n = pos + suc n - cap} {m = cap} (omega arith),
  )
]

module _ {ℓ} {A : Type ℓ} where
  unfoldable pub window : (ℕ → A) → ℕ → ℕ → ℕ → List A
  window d cap pos zero = []
  window d cap pos (suc n) = d pos ∷ window d cap ((pos + 1) % cap) n

  pub length-window : (d : ℕ → A) (cap pos n : ℕ) → length (window d cap pos n) ≡ n
  unfolding window
  length-window d cap pos zero = refl
  length-window d cap pos (suc n) = ap suc (length-window d cap ((pos + 1) % cap) n)

  window-update_at :
      (d : ℕ → A) (m pos n w : ℕ) (x : A)
      → pos < m
      → n < m
      → w ≡ (pos + n) % m
      → window (update d w x) m pos (suc n) ≡ window d m pos n ++ (x ∷ [])
  unfolding window
  window-update_at d m pos zero w x p q e =
      ap (λ y. y ∷ [])
        (update_here d w pos x (omega (arith, mod-eq_of_lt {n = pos + 0} {m = m} (omega arith))))
  window-update_at d m pos (suc n) w x p q e =
      ap₂ ◌∷◌ (update_away d w pos x (λ same. ring_apart pos n m p q (omega arith))) (
        window-update_at d m ((pos + 1) % m) n w x (ring_next-lt pos m p) (omega arith)
          (omega (arith, ring_shift pos n m)))

  -- Storing behind a window that does not fill the ring appends to it.
  pub window-update :
      (d : ℕ → A) (m pos n : ℕ) (x : A)
      → pos < m
      → n < m
      → window (update d ((pos + n) % m) x) m pos (suc n) ≡ window d m pos n ++ (x ∷ [])
  window-update d m pos n x p q = window-update_at d m pos n ((pos + n) % m) x p q refl

  -- The same with the writer's index `w` kept apart, as the models keep it.
  pub window-push :
      (d : ℕ → A) (m pos n w : ℕ) (x : A)
      → pos < m
      → n < m
      → w ≡ (pos + n) % m
      → window (update d w x) m pos (n + 1) ≡ window d m pos n ++ (x ∷ [])
  window-push d m pos n w x p q e = rw (add-one, e) (window-update d m pos n x p q)

  -- A window that is not empty has its first item at its index.
  pub window-pop :
      (d : ℕ → A) (m pos n : ℕ)
      → 0 < n
      → window d m pos n ≡ d pos ∷ window d m ((pos + 1) % m) (n - 1)
  unfolding window
  window-pop d m pos zero h = absurd (omega arith)
  window-pop d m pos (suc n) h = ap (λ k. d pos ∷ window d m ((pos + 1) % m) k) (omega arith)
