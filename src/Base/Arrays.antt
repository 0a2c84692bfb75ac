-- ===== src/Base/Arrays.antt =====
-- Fixed C arrays as functions of the index, and lists with native indices.
use Prim.Native.Nat.{ℕ, zero, suc, ◌+◌, ◌-◌, ◌≤◌, ◌<◌}
use mathlib.Core.Path.{◌≡◌, refl, ap, ap₂, sym, ◌∙◌}
use mathlib.Core.Logic.{◌≢◌}
use mathlib.Core.List.{List, [], ◌∷◌, ◌++◌}
use mathlib.Core.Option.{Option, none, some}
use native.Mathlib.Omega.{arith}
use char_os.Base.Tests.{◌==◌, if◌then◌else◌}

-- `a[i] = v`.
abbrev pub update {ℓ} : {A : Type ℓ} → (ℕ → A) → ℕ → A → ℕ → A
update a i v j = if j == i then v else a j

module _ {ℓ} {A : Type ℓ} where
  abbrev pub length : List A → ℕ
  length [] = 0
  length (x ∷ xs) = suc (length xs)

  abbrev pub take : ℕ → List A → List A
  take zero xs = []
  take (suc n) [] = []
  take (suc n) (x ∷ xs) = x ∷ take n xs

  abbrev pub drop : ℕ → List A → List A
  drop zero xs = xs
  drop (suc n) [] = []
  drop (suc n) (x ∷ xs) = drop n xs

  pub length-append : (xs ys : List A) → length (xs ++ ys) ≡ length xs + length ys
  length-append [] ys = omega arith
  length-append (x ∷ xs) ys = omega (arith, length-append xs ys)

module _ {ℓ} {A : Type ℓ} where
  pub update_here : (a : ℕ → A) (i j : ℕ) (v : A) → j ≡ i → update a i v j ≡ v
  update_here a i j v e = ground arith

  pub update_away : (a : ℕ → A) (i j : ℕ) (v : A) → j ≢ i → update a i v j ≡ a j
  update_away a i j v ne = ground arith

module _ {ℓ} {A : Type ℓ} where
  pub take_length-append : (xs ys : List A) → take (length xs) (xs ++ ys) ≡ xs
  take_length-append [] ys = refl
  take_length-append (x ∷ xs) ys = ap (λ l. x ∷ l) (take_length-append xs ys)

  -- The part of `xs ++ ys` before `ys` is `xs`.
  pub take-append : (xs ys : List A) → take (length (xs ++ ys) - length ys) (xs ++ ys) ≡ xs
  take-append xs ys =
      ap (λ n. take n (xs ++ ys)) (omega (arith, length-append xs ys)) ∙ take_length-append xs ys

  pub take_all : (n : ℕ) (xs : List A) → length xs ≤ n → take n xs ≡ xs
  take_all zero [] h = refl
  take_all zero (x ∷ xs) h = absurd (omega arith)
  take_all (suc n) [] h = refl
  take_all (suc n) (x ∷ xs) h = ap (λ l. x ∷ l) (take_all n xs (omega arith))

  -- What a first cut at `n` drops, a second one would drop as well.
  pub take-append-take : (n : ℕ) (xs ys : List A) → take n (take n xs ++ ys) ≡ take n (xs ++ ys)
  take-append-take zero xs ys = refl
  take-append-take (suc n) [] ys = refl
  take-append-take (suc n) (x ∷ xs) ys = ap (λ l. x ∷ l) (take-append-take n xs ys)

  -- Items behind a full list are cut off.
  pub take_full : (n : ℕ) (xs ys : List A) → length xs ≡ n → take n (xs ++ ys) ≡ xs
  take_full n xs ys e = ap (λ k. take k (xs ++ ys)) (omega (arith, e)) ∙ take_length-append xs ys

  pub drop_nil : (i : ℕ) → drop {A = A} i [] ≡ []
  drop_nil zero = refl
  drop_nil (suc i) = refl

  -- Dropping twice.
  pub drop-drop : (i j : ℕ) (xs : List A) → drop j (drop i xs) ≡ drop (i + j) xs
  drop-drop zero j xs = ap (λ k. drop k xs) {x = j} (omega arith)
  drop-drop (suc i) j [] = drop_nil j ∙ sym (drop_nil (suc i + j))
  drop-drop (suc i) j (x ∷ xs) =
      drop-drop i j xs ∙ ap (λ k. drop k (x ∷ xs)) {x = suc (i + j)} (omega arith)

  pub length-drop : (i : ℕ) (xs : List A) → length (drop i xs) ≡ length xs - i
  length-drop zero xs = omega arith
  length-drop (suc i) [] = omega arith
  length-drop (suc i) (x ∷ xs) = omega (arith, length-drop i xs)

  pub nil_of_length : (xs : List A) → length xs ≡ 0 → xs ≡ []
  nil_of_length [] h = refl
  nil_of_length (x ∷ xs) h = absurd (omega arith)

module _ {ℓ} {A : Type ℓ} where
  abbrev pub get_elem? : List A → ℕ → Option A
  get_elem? [] i = none
  get_elem? (x ∷ xs) zero = some x
  get_elem? (x ∷ xs) (suc i) = get_elem? xs i

  pub get_elem?_past : (xs : List A) (i : ℕ) → length xs ≤ i → get_elem? xs i ≡ none
  get_elem?_past [] i h = refl
  get_elem?_past (x ∷ xs) zero h = absurd (omega arith)
  get_elem?_past (x ∷ xs) (suc i) h = get_elem?_past xs i (omega arith)

module _ {ℓ} {A : Type ℓ} where
  -- `for (k = 0; k < n; k++) out[k] = a[i + k]`
  unfoldable pub copy : (ℕ → A) → ℕ → ℕ → List A
  copy a i zero = []
  copy a i (suc n) = a i ∷ copy a (i + 1) n

  pub copy_zero : (a : ℕ → A) (i : ℕ) → copy a i 0 ≡ []
  unfolding copy
  copy_zero a i = refl

  pub length-copy : (a : ℕ → A) (i n : ℕ) → length (copy a i n) ≡ n
  unfolding copy
  length-copy a i zero = refl
  length-copy a i (suc n) = ap suc (length-copy a (i + 1) n)

  -- A store behind the copied part does not show in it.
  copy-update_above :
      (a : ℕ → A) (i n j : ℕ) (v : A) → i + n ≤ j → copy (update a j v) i n ≡ copy a i n
  unfolding copy
  copy-update_above a i zero j v h = refl
  copy-update_above a i (suc n) j v h =
      ap₂ ◌∷◌ (update_away a j i v (omega arith)) (copy-update_above a (i + 1) n j v (omega arith))

  pub copy-append : (a : ℕ → A) (i n : ℕ) → copy a i (suc n) ≡ copy a i n ++ (a (i + n) ∷ [])
  unfolding copy
  copy-append a i zero = ap (λ k. a k ∷ []) (omega arith)
  copy-append a i (suc n) =
      ap (λ l. a i ∷ l)
        (copy-append a (i + 1) n ∙ ap (λ k. copy a (i + 1) n ++ (a k ∷ [])) (omega arith))

  pub copy-put :
      (a : ℕ → A) (n : ℕ) (v : A) → copy (update a n v) 0 (n + 1) ≡ copy a 0 n ++ (v ∷ [])
  copy-put a n v =
      ap (copy (update a n v) 0) (omega arith)
      ∙ copy-append (update a n v) 0 n
      ∙ ap₂ (λ l w. l ++ (w ∷ [])) (copy-update_above a 0 n n v (omega arith))
          (update_here a n (0 + n) v (omega arith))

  -- Arrays that agree on a part give the same list.
  pub copy-cong :
      (a b : ℕ → A) (i j n : ℕ)
      → ((k : ℕ) → k < n → a (i + k) ≡ b (j + k))
      → copy a i n ≡ copy b j n
  unfolding copy
  copy-cong a b i j zero h = refl
  copy-cong a b i j (suc n) h =
      ap₂ ◌∷◌ (ap a (omega arith) ∙ h 0 (omega arith) ∙ ap b (omega arith)) (
        copy-cong a b (i + 1) (j + 1) n
          (λ k lt. ap a (omega arith) ∙ h (k + 1) (omega arith) ∙ ap b (omega arith)))
