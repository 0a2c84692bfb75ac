-- ===== src/Memory/Pmm/Region.antt =====
-- kernel/memory/pmm.c: `pmm_reserve_region` and `pmm_free_region` against page arithmetic.
use char_os.Base.{
  ℕ, zero, suc, ◌+◌, ◌-◌, ◌*◌, ◌/◌, ◌^◌, ◌≤◌, ◌<◌, ◌≡◌, Bool, not, ◌||◌, ◌&&◌, if◌then◌else◌, arith,
  ◌==◌, ltb, leb, ◌⊎◌, inl, inr, Bool-cases,
}
use char_os.Memory.Pmm.Bitmap.{
  bitmap_test, bitmap_test-set, bitmap_test-clear, bitmap_set-byte, bitmap_clear-byte,
}
use char_os.Memory.Pmm.Count.{free_below-le, free_below-set, free_below-clear, IsCounted, IsExact}
use char_os.Memory.Pmm.{
  Pmm, max_frames, max_memory, page_size, reserve_one, reserve_from, reserve_region, reserve_end,
  clamped, free_one, free_from, free_pages, free_region, u32, page_down,
}

reserve_one-test :
    (s : Pmm) (i g : ℕ)
    → bitmap_test (reserve_one s i).bitmap g ≡ ((g == i) || bitmap_test s.bitmap g)
unfolding reserve_one
reserve_one-test s i g = ground (arith, bitmap_test-set s.bitmap i g)

reserve_from-test :
    (s : Pmm) (i n g : ℕ)
    → bitmap_test (reserve_from s i n).bitmap g
      ≡ ((leb i g && ltb g (i + n)) || bitmap_test s.bitmap g)
unfolding reserve_from
reserve_from-test s i zero g = ground arith
reserve_from-test s i (suc n) g =
    ground (arith, reserve_from-test (reserve_one s i) (i + 1) n g, reserve_one-test s i g)

-- The page `f` has a byte in `[base, base + length)`, or holds `base`.
abbrev pub touches : ℕ → ℕ → ℕ → Bool
touches base length f = ltb (f * page_size) (base + length) && ltb base ((f + 1) * page_size)

-- The page `f` lies in `[base, base + length)` whole.
abbrev pub lies_in : ℕ → ℕ → ℕ → Bool
lies_in base length f = leb base (f * page_size) && leb ((f + 1) * page_size) (base + length)

-- Reserving a region whose end fits 32 bits takes exactly the managed pages that it touches.
pub reserve_region-test :
    (s : Pmm) (base length f : ℕ)
    → base + length < 2 ^ 32
    → f < max_frames
    → bitmap_test (reserve_region s base length).bitmap f
      ≡ (touches base length f || bitmap_test s.bitmap f)
unfolding reserve_region
reserve_region-test s base length f fits lt = ground (
  arith,
  reserve_from-test s (base / page_size) (reserve_end base (clamped base length) - base / page_size)
      f,
)

free_one-test :
    (s : Pmm) (i g : ℕ)
    → bitmap_test (free_one s i).bitmap g ≡ (not (g == i) && bitmap_test s.bitmap g)
unfolding free_one
free_one-test s i g = ground (arith, bitmap_test-clear s.bitmap i g)

free_from-test :
    (s : Pmm) (i n g : ℕ)
    → bitmap_test (free_from s i n).bitmap g
      ≡ (not (leb i g && ltb g (i + n)) && bitmap_test s.bitmap g)
unfolding free_from
free_from-test s i zero g = ground arith
free_from-test s i (suc n) g =
    ground (arith, free_from-test (free_one s i) (i + 1) n g, free_one-test s i g)

free_pages-test :
    (s : Pmm) (a b f : ℕ)
    → f < max_frames
    → bitmap_test (free_pages s (a * page_size) (b * page_size)).bitmap f
      ≡ (not (leb a f && ltb f b) && bitmap_test s.bitmap f)
unfolding free_pages
free_pages-test s a b f lt = ground (
  arith,
  free_from-test s (a * page_size / page_size)
      ((if ltb max_memory (b * page_size) then max_memory else b * page_size) / page_size
        - a * page_size / page_size)
      f,
)

-- Freeing a region whose end fits 32 bits frees exactly the managed pages that lie in it whole.
pub free_region-test :
    (s : Pmm) (base length f : ℕ)
    → base + length < 2 ^ 32
    → f < max_frames
    → bitmap_test (free_region s base length).bitmap f
      ≡ (not (lies_in base length f) && bitmap_test s.bitmap f)
unfolding free_region
free_region-test s base length f fits lt = ground (
  arith,
  free_pages-test s (u32 (base + page_size - 1) / page_size)
      (u32 (base + clamped base length) / page_size) f lt,
)

reserve_one-IsCounted :
    (d : ℕ) (s : Pmm) (i : ℕ) → i < max_frames → IsCounted d s → IsCounted d (reserve_one s i)
unfolding reserve_one
reserve_one-IsCounted d s i lt v = record {
  slack = v.slack;
  exact = ground (arith, v.exact, free_below-set max_frames i s.bitmap lt);
  unused = λ g h. ground (arith, v.unused g, bitmap_test-set s.bitmap i g);
  ref_fits = λ g. ground (arith, v.ref_fits g);
  byte_fits = λ j. ground (arith, bitmap_set-byte s.bitmap i v.byte_fits j);
}

reserve_from-IsCounted :
    (d : ℕ) (s : Pmm) (i n : ℕ)
    → i + n ≤ max_frames
    → IsCounted d s
    → IsCounted d (reserve_from s i n)
unfolding reserve_from
reserve_from-IsCounted d s i zero h v = v
reserve_from-IsCounted d s i (suc n) h v =
    reserve_from-IsCounted d (reserve_one s i) (i + 1) n (omega arith)
      (reserve_one-IsCounted d s i (omega arith) v)

-- A call does nothing, or is one run of the loop below `max_frames`.
reserve_region_cases :
    (s : Pmm) (base length : ℕ)
    → (reserve_region s base length ≡ s)
      ⊎ ((n : ℕ) × (base / page_size + n ≤ max_frames)
          × (reserve_region s base length ≡ reserve_from s (base / page_size) n))
unfolding reserve_region
reserve_region_cases s base length = elim (Bool-cases (leb max_memory base)) [
  | inl e ↦ inl (rw e)
  | inr e ↦ inr (reserve_end base (clamped base length) - base / page_size, ground arith, rw e)
]

-- Reserving keeps the counter as exact as it was, whatever the region.
pub reserve_region-IsCounted :
    (d : ℕ) (s : Pmm) (base length : ℕ) → IsCounted d s → IsCounted d (reserve_region s base length)
unfolding reserve_region
reserve_region-IsCounted d s base length v = elim (reserve_region_cases s base length) [
  | inl e ↦ rw e v
  | inr (n, h, e) ↦ rw e (reserve_from-IsCounted d s (base / page_size) n h v)
]

free_one-IsExact :
    (d : ℕ) (s : Pmm) (i : ℕ) → i < max_frames → IsExact d s → IsExact d (free_one s i)
unfolding free_one
free_one-IsExact d s i lt v = record {
  slack = v.slack;
  exact = ground (
    arith,
    v.exact,
    v.slack,
    free_below-clear max_frames i s.bitmap lt,
    free_below-le max_frames s.bitmap,
  );
  byte_fits = λ j. ground (arith, v.byte_fits j, bitmap_clear-byte s.bitmap i v.byte_fits j);
}

free_from-IsExact :
    (d : ℕ) (s : Pmm) (i n : ℕ) → i + n ≤ max_frames → IsExact d s → IsExact d (free_from s i n)
unfolding free_from
free_from-IsExact d s i zero h v = v
free_from-IsExact d s i (suc n) h v =
    free_from-IsExact d (free_one s i) (i + 1) n (omega arith)
      (free_one-IsExact d s i (omega arith) v)

free_pages-IsExact :
    (d : ℕ) (s : Pmm) (start end : ℕ) → IsExact d s → IsExact d (free_pages s start end)
unfolding free_pages
free_pages-IsExact d s start end v = elim (Bool-cases (leb end start)) [
  | inl e ↦ rw e v
  | inr e ↦ elim (Bool-cases (leb max_memory start)) [
    | inl e' ↦ rw (e, e') v
    | inr e' ↦ rw (e, e') (free_from-IsExact d s (start / page_size) _ (ground arith) v)
  ]
]

-- Freeing keeps the counter as exact as it was, whatever the region.
pub free_region-IsExact :
    (d : ℕ) (s : Pmm) (base length : ℕ) → IsExact d s → IsExact d (free_region s base length)
unfolding free_region
free_region-IsExact d s base length v = elim (Bool-cases (leb max_memory base)) [
  | inl e ↦ rw e v
  | inr e ↦ rw e (
      free_pages-IsExact d s (page_down (u32 (base + page_size - 1)))
        (page_down (u32 (base + clamped base length))) v)
]
