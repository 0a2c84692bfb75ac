-- ===== src/Text/Memory/Strings.antt =====
-- kernel/lib/string.c: copying and measuring C strings.
use char_os.Base.{
  ℕ, zero, suc, ◌+◌, ◌-◌, ◌%◌, ◌≡◌, ◌≤◌, ◌<◌, ◌⊎◌, refl, ap, ap₂, sym, ◌∙◌, arith, Bool, true,
  false, ◌&&◌, ◌||◌, some, ◌==◌, ltb, leb, if◌then◌else◌, update, Bool-cases, inl, inr,
}
use char_os.Text.Memory.{Mem, fill_from, strncpy_from, strncpy, strlen_from, strlen}

-- Whether one of the `k` bytes from `p` is the end mark.
pub ended : Mem → ℕ → ℕ → Bool
ended m p zero = false
ended m p (suc k) = m p == 0 || ended m (p + 1) k

-- What strncpy should leave at an address: the string as far as it goes, zeros behind it, and
-- nothing changed outside of the `n` bytes of the target.
abbrev pub string_copied : Mem → ℕ → ℕ → ℕ → ℕ → ℕ
string_copied m dst src n j =
    if leb dst j && ltb j (dst + n)
    then (if ended m src (j - dst + 1) then 0 else m (src + (j - dst)))
    else m j

fill_value :
    (n : ℕ) (m : Mem) (s c i j : ℕ)
    → fill_from m s c i n j ≡ (if leb (s + i) j && ltb j (s + i + n) then c % 256 else m j)
unfolding fill_from
fill_value zero m s c i j = ground arith
fill_value (suc n) m s c i j =
    fill_value n (update m (s + i) (c % 256)) s c (i + 1) j ∙ ground arith

-- Bytes stored elsewhere do not end a string.
ended-update :
    (k : ℕ) (m : Mem) (p q v : ℕ) → (q < p) ⊎ (p + k ≤ q) → ended (update m q v) p k ≡ ended m p k
unfolding ended
ended-update zero m p q v h = refl
ended-update (suc k) m p q v h =
    ap₂ (λ x b. x == 0 || b) (ground arith) (ended-update k m (p + 1) q v (later h))
  where
    later : (q < p) ⊎ (p + suc k ≤ q) → (q < p + 1) ⊎ (p + 1 + k ≤ q)
    later (inl l) = inl (omega arith)
    later (inr r) = inr (omega arith)

ended_step : (m : Mem) (p k : ℕ) → ended m p (k + 1) ≡ (m p == 0 || ended m (p + 1) k)
unfolding ended
ended_step m p k = ap (ended m p) {x = k + 1} {y = suc k} (omega arith)

ended_none : (m : Mem) (p : ℕ) → ended m p 0 ≡ false
unfolding ended
ended_none m p = refl

Apart : ℕ → ℕ → ℕ → Type 0
Apart d s n = (d + n ≤ s) ⊎ (s + n ≤ d)

-- One byte copied, before the rest.
copied_head :
    (n : ℕ) (m : Mem) (d s j : ℕ)
    → Apart d s (suc n)
    → (m s == 0) ≡ false
    → string_copied (update m d (m s)) (d + 1) (s + 1) n j ≡ string_copied m d s (suc n) j
unfolding Apart
copied_head n m d s j h e = elim (Bool-cases (leb (d + 1) j && ltb j (d + 1 + n))) [
  | inl inside ↦
      let k = j - (d + 1) in
      let same : ended (update m d (m s)) (s + 1) (k + 1) ≡ ended m s (j - d + 1) =
        ended-update (k + 1) m (s + 1) d (m s) (away inside h)
        ∙ sym (ap (λ b. b || ended m (s + 1) (k + 1)) e)
        ∙ ap (λ x. m s == 0 || ended m (s + 1) x) {x = k + 1} {y = j - d} (ground arith)
        ∙ sym (ended_step m s (j - d)) in
      ap
        (λ b.
          if b
          then (if ended (update m d (m s)) (s + 1) (k + 1)
              then 0
              else update m d (m s) (s + 1 + k))
          else update m d (m s) j)
        inside
      ∙ ap₂ (λ b x. if b then 0 else x) same (byte inside h)
      ∙ sym (
          ap (λ b. if b then (if ended m s (j - d + 1) then 0 else m (s + (j - d))) else m j)
            (wider inside))
  | inr outside ↦
      ap
        (λ b.
          if b
          then (if ended (update m d (m s)) (s + 1) (j - (d + 1) + 1)
              then 0
              else update m d (m s) (s + 1 + (j - (d + 1))))
          else update m d (m s) j)
        outside
      ∙ ground (arith, at_first, first_byte)
]
  where
    at_first : j ≡ d → ended m s (j - d + 1) ≡ false
    at_first q =
        ap (ended m s) {x = j - d + 1} {y = 0 + 1} (omega (arith, q))
        ∙ ended_step m s 0
        ∙ ground (arith, e, ended_none m (s + 1))

    first_byte : j ≡ d → m (s + (j - d)) ≡ m s
    first_byte q = ap m (omega (arith, q))

    away :
        (leb (d + 1) j && ltb j (d + 1 + n)) ≡ true
        → (d + suc n ≤ s) ⊎ (s + suc n ≤ d)
        → (d < s + 1) ⊎ (s + 1 + (j - (d + 1) + 1) ≤ d)
    away inside (inl l) = inl (omega arith)
    away inside (inr r) = inr (ground arith)

    wider : (leb (d + 1) j && ltb j (d + 1 + n)) ≡ true → (leb d j && ltb j (d + suc n)) ≡ true
    wider inside = ground arith

    byte :
        (leb (d + 1) j && ltb j (d + 1 + n)) ≡ true
        → (d + suc n ≤ s) ⊎ (s + suc n ≤ d)
        → update m d (m s) (s + 1 + (j - (d + 1))) ≡ m (s + (j - d))
    byte inside h =
        ground (arith, ap m {x = s + 1 + (j - (d + 1))} {y = s + (j - d)} (ground arith))

apart_later :
    (d s i n : ℕ)
    → (d + i + suc n ≤ s + i) ⊎ (s + i + suc n ≤ d + i)
    → (d + (i + 1) + n ≤ s + (i + 1)) ⊎ (s + (i + 1) + n ≤ d + (i + 1))
apart_later d s i n (inl l) = inl (omega arith)
apart_later d s i n (inr r) = inr (omega arith)

strncpy_value :
    (n : ℕ) (m : Mem) (dst src i j : ℕ)
    → Apart (dst + i) (src + i) n
    → strncpy_from m dst src i n j ≡ string_copied m (dst + i) (src + i) n j
unfolding strncpy_from
strncpy_value zero m dst src i j h = ground arith
strncpy_value (suc n) m dst src i j h = elim (Bool-cases (m (src + i) == 0)) [
  | inl e ↦
      ap (λ b. (if b then fill_from m dst 0 i (suc n) else rest) j) e
      ∙ fill_value (suc n) m dst 0 i j
      ∙ ap
          (λ b.
            if leb (dst + i) j && ltb j (dst + i + suc n)
            then (if b then 0 else m (src + i + (j - (dst + i))))
            else m j)
          (sym (
            ended_step m (src + i) (j - (dst + i))
            ∙ ap (λ b. b || ended m (src + i + 1) (j - (dst + i))) e))
  | inr e ↦
      ap (λ b. (if b then fill_from m dst 0 i (suc n) else rest) j) e
      ∙ strncpy_value n (update m (dst + i) (m (src + i))) dst src (i + 1) j (later h)
      ∙ ap₂ (λ d s. string_copied (update m (dst + i) (m (src + i))) d s n j) {x = dst + (i + 1)}
          {y = dst + i + 1} {u = src + (i + 1)} {v = src + i + 1} (omega arith) (omega arith)
      ∙ copied_head n m (dst + i) (src + i) j h e
]
  where
    rest : Mem
    rest = strncpy_from (update m (dst + i) (m (src + i))) dst src (i + 1) n

    later : Apart (dst + i) (src + i) (suc n) → Apart (dst + (i + 1)) (src + (i + 1)) n
    later h = unfold Apart in apart_later dst src i n h

-- strncpy writes the `n` bytes of its target and no other: the string as far as it goes, and zeros
-- behind it.  The two areas of `n` bytes do not overlap.
pub strncpy-string_copied :
    (m : Mem) (dst src n j : ℕ)
    → (dst + n ≤ src) ⊎ (src + n ≤ dst)
    → strncpy m dst src n j ≡ string_copied m dst src n j
unfolding strncpy Apart
strncpy-string_copied m dst src n j h =
    strncpy_value n m dst src 0 j (moved_zero h)
    ∙ ap₂ (λ d s. string_copied m d s n j) {x = dst + 0} {y = dst} {u = src + 0} {v = src}
        (omega arith) (omega arith)
  where
    moved_zero :
        (dst + n ≤ src) ⊎ (src + n ≤ dst) → (dst + 0 + n ≤ src + 0) ⊎ (src + 0 + n ≤ dst + 0)
    moved_zero (inl l) = inl (omega arith)
    moved_zero (inr r) = inr (omega arith)

strlen_value :
    (k fuel : ℕ) (m : Mem) (s n : ℕ)
    → ended m (s + n) k ≡ false
    → m (s + (n + k)) ≡ 0
    → k < fuel
    → strlen_from fuel m s n ≡ some (n + k)
unfolding strlen_from ended
strlen_value k zero m s n h e lt = absurd (omega arith)
strlen_value zero (suc fuel) m s n h e lt =
    ground (arith, ap m {x = s + (n + 0)} {y = s + n} (omega arith))
strlen_value (suc k) (suc fuel) m s n h e lt =
    ap (λ b. if b then some n else strlen_from fuel m s (n + 1)) {x = m (s + n) == 0} {y = false}
      (ground arith)
    ∙ strlen_value k fuel m s (n + 1)
        (ap (λ p. ended m p k) {x = s + (n + 1)} {y = s + n + 1} (omega arith) ∙ ground arith)
        (ap m (omega arith) ∙ e) (omega arith)
    ∙ ap some (omega arith)

-- strlen finds the end mark when it looks far enough: the number of bytes before the first one
-- that is 0.
pub strlen-ended :
    (fuel : ℕ) (m : Mem) (s k : ℕ)
    → ended m s k ≡ false
    → m (s + k) ≡ 0
    → k < fuel
    → strlen fuel m s ≡ some k
unfolding strlen
strlen-ended fuel m s k h e lt =
    strlen_value k fuel m s 0 (ap (λ p. ended m p k) {x = s + 0} {y = s} (omega arith) ∙ h)
      (ap m {x = s + (0 + k)} {y = s + k} (omega arith) ∙ e) lt
    ∙ ap some (omega arith)
