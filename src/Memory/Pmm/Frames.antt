-- ===== src/Memory/Pmm/Frames.antt =====
-- kernel/memory/pmm.c: `pmm_alloc_frame`, `pmm_free_frame`, `pmm_inc_ref` and `pmm_dec_ref`.
use char_os.Base.{
  ℕ, ◌+◌, ◌-◌, ◌*◌, ◌/◌, ◌^◌, ◌≤◌, ◌<◌, ◌≡◌, ◌≢◌, true, false, ◌||◌, ◌⊎◌, inl, inr, arith, ◌==◌,
  refl, Option, none, some, scan, Found, scan-some, scan-none, Bool-cases, Option-cases, update,
}
use char_os.Memory.Pmm.Bitmap.{
  bitmap_test, bitmap_set, bitmap_test-set, bitmap_test-clear, bitmap_set-byte, bitmap_clear-byte,
}
use char_os.Memory.Pmm.Count.{free_below-le, free_below-set, free_below-clear, IsCounted}
use char_os.Memory.Pmm.{
  Pmm, max_frames, min_frame, page_size, is_free, u32, alloc_frame, free_frame, inc_ref, dec_ref,
}

-- `alloc_frame` found frame `f`.
pub record Takes (s : Pmm) (f : ℕ) (r : ℕ × Pmm) : Type 0 where
  pub address : r.0 ≡ f * page_size
  pub allowed : (min_frame ≤ f) × (f < max_frames)
  pub was_free : bitmap_test s.bitmap f ≡ false
  pub lowest : (g : ℕ) → min_frame ≤ g → g < f → bitmap_test s.bitmap g ≡ true
  pub counted : r.1.refcount f ≡ 1
  pub others : (g : ℕ) → g ≢ f → r.1.refcount g ≡ s.refcount g
  pub marked : (g : ℕ) → bitmap_test r.1.bitmap g ≡ ((g == f) || bitmap_test s.bitmap g)

-- `alloc_frame` gave up.
pub record Refuses (s : Pmm) (r : ℕ × Pmm) : Type 0 where
  pub result : r ≡ (0, s)
  pub full : (g : ℕ) → min_frame ≤ g → g < max_frames → bitmap_test s.bitmap g ≡ true

pub taken : Pmm → ℕ → Pmm
taken s i = record s {
  bitmap = bitmap_set s.bitmap i;
  free_frames = u32 (s.free_frames + 2 ^ 32 - 1);
  refcount = update s.refcount i 1;
}

abbrev scanned : Pmm → Option ℕ
scanned s = scan (is_free s) min_frame (max_frames - min_frame)

alloc_frame-none : (s : Pmm) → s.ready ≡ true → scanned s ≡ none → alloc_frame s ≡ (0, s)
unfolding alloc_frame
alloc_frame-none s r e = ground arith

alloc_frame_off : (s : Pmm) → s.ready ≡ false → alloc_frame s ≡ (0, s)
unfolding alloc_frame
alloc_frame_off s r = ground arith

alloc_frame-some :
    (s : Pmm) (f : ℕ)
    → s.ready ≡ true
    → scanned s ≡ some f
    → alloc_frame s ≡ (f * page_size, taken s f)
unfolding alloc_frame taken
alloc_frame-some s f r e = ground arith

Takes-taken :
    (s : Pmm) (f : ℕ)
    → Found (is_free s) min_frame (max_frames - min_frame) f
    → Takes s f (f * page_size, taken s f)
unfolding taken
Takes-taken s f w = record {
  address = refl;
  allowed = (w.from, omega (arith, w.below));
  was_free = ground (arith, w.passes);
  lowest = λ g lo hi. ground (arith, w.first g lo hi);
  counted = ground arith;
  others = λ g ne. ground arith;
  marked = λ g. bitmap_test-set s.bitmap f g;
}

Refuses-full :
    (s : Pmm)
    → ((j : ℕ) → min_frame ≤ j → j < min_frame + (max_frames - min_frame) → is_free s j ≡ false)
    → Refuses s (0, s)
Refuses-full s h = record { result = refl; full = λ g lo hi. ground (arith, h g lo (omega arith)) }

-- A ready allocator hands out the lowest free frame at or above 1 MiB, marks it taken with one
-- user and touches no other frame; it answers 0, and changes nothing, exactly if there is none.
pub alloc_frame_cases :
    (s : Pmm) → s.ready ≡ true → ((f : ℕ) × Takes s f (alloc_frame s)) ⊎ Refuses s (alloc_frame s)
alloc_frame_cases s r = elim (Option-cases (scanned s)) [
  | inl e ↦ inr (rw (alloc_frame-none s r e) (Refuses-full s (scan-none _ _ _ e)))
  | inr (f, e) ↦ inl (f, rw (alloc_frame-some s f r e) (Takes-taken s f (scan-some _ _ _ f e)))
]

-- A frame's place in the bytes below `max_frames` is counted when it is taken.
taken-IsCounted :
    (d : ℕ) (s : Pmm) (f : ℕ)
    → f < max_frames
    → bitmap_test s.bitmap f ≡ false
    → IsCounted d s
    → IsCounted d (taken s f)
unfolding taken
taken-IsCounted d s f lt free v = record {
  slack = v.slack;
  exact = ground (
    arith,
    v.exact,
    v.slack,
    free_below-set max_frames f s.bitmap lt,
    free_below-le max_frames s.bitmap,
  );
  unused = λ g h. ground (arith, v.unused g, bitmap_test-set s.bitmap f g);
  ref_fits = λ g. ground (arith, v.ref_fits g);
  byte_fits = bitmap_set-byte s.bitmap f v.byte_fits;
}

-- Handing out a frame keeps the counter exact.
pub alloc_frame-IsCounted : (d : ℕ) (s : Pmm) → IsCounted d s → IsCounted d (alloc_frame s).1
alloc_frame-IsCounted d s v = elim (Bool-cases s.ready) [
  | inr off ↦ rw (alloc_frame_off s off) v
  | inl r ↦ elim (Option-cases (scanned s)) [
    | inl e ↦ rw (alloc_frame-none s r e) v
    | inr (f, e) ↦ rw (alloc_frame-some s f r e) (taken_found d s f (scan-some _ _ _ f e) v)
  ]
]
  where
    taken_found :
        (d : ℕ) (s : Pmm) (f : ℕ)
        → Found (is_free s) min_frame (max_frames - min_frame) f
        → IsCounted d s
        → IsCounted d (taken s f)
    taken_found d s f w v =
        taken-IsCounted d s f (omega (arith, w.below)) (ground (arith, w.passes)) v

-- So does giving one up.
pub free_frame-IsCounted :
    (d : ℕ) (s : Pmm) (phys : ℕ) → IsCounted d s → IsCounted d (free_frame s phys)
unfolding free_frame
free_frame-IsCounted d s phys v = record {
  slack = v.slack;
  exact = ground (
    arith,
    v.exact,
    v.slack,
    free_below-clear max_frames (phys / page_size) s.bitmap,
    free_below-le max_frames s.bitmap,
  );
  unused = λ g h. ground (arith, v.unused g, bitmap_test-clear s.bitmap (phys / page_size) g);
  ref_fits = λ g. ground (arith, v.ref_fits g, v.ref_fits (phys / page_size));
  byte_fits = λ i.
      ground (arith, v.byte_fits i, bitmap_clear-byte s.bitmap (phys / page_size) v.byte_fits i);
}

pub inc_ref-IsCounted : (d : ℕ) (s : Pmm) (phys : ℕ) → IsCounted d s → IsCounted d (inc_ref s phys)
unfolding inc_ref
inc_ref-IsCounted d s phys v = record {
  slack = v.slack;
  exact = ground (arith, v.exact);
  unused = λ g h. ground (arith, v.unused g);
  ref_fits = λ g. ground (arith, v.ref_fits g, v.ref_fits (phys / page_size));
  byte_fits = λ i. ground (arith, v.byte_fits i);
}

pub dec_ref-IsCounted : (d : ℕ) (s : Pmm) (phys : ℕ) → IsCounted d s → IsCounted d (dec_ref s phys)
unfolding dec_ref
dec_ref-IsCounted d s phys v = record {
  slack = v.slack;
  exact = ground (arith, v.exact);
  unused = λ g h. ground (arith, v.unused g);
  ref_fits = λ g. ground (arith, v.ref_fits g, v.ref_fits (phys / page_size));
  byte_fits = λ i. ground (arith, v.byte_fits i);
}
