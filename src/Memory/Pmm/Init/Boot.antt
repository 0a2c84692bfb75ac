-- ===== src/Memory/Pmm/Init/Boot.antt =====
-- kernel/memory/pmm.c: which frames are free when `pmm_init` is done, and what its counter says.
use char_os.Base.{
  ℕ, ◌+◌, ◌-◌, ◌*◌, ◌^◌, ◌≤◌, ◌<◌, ◌≡◌, Bool, true, false, not, ◌||◌, ◌&&◌, inl, inr, if◌then◌else◌,
  arith, ◌==◌, ltb, leb, refl, Bool-cases, Option, none, some, List, [], ◌∷◌,
}
use char_os.Memory.Pmm.Bitmap.{bitmap_test, bitmap_test-set, bitmap_set-byte, bitmap_test-all}
use char_os.Memory.Pmm.Count.{free_below, free_below-set, free_below_full, IsCounted, IsExact}
use char_os.Memory.Pmm.Region.{
  lies_in, reserve_region-test, free_region-test, reserve_region-IsCounted, free_region-IsExact,
}
use char_os.Memory.Pmm.Init.{
  MmapEntry, BootInfo, blank, kernel_start, kheap_top, entry_length, free_entry, free_map,
  free_fallback, free_memory, reserve_null, count_users, reserve_kernel, init,
}
use char_os.Memory.Pmm.{Pmm, max_frames, max_memory, page_size, page_down, u32, reserve_region}

-- The end of what the entry describes fits 32 bits, if it begins in the managed memory.
abbrev pub Fits : List MmapEntry → Type 0
Fits [] = Unit {0}
Fits (e ∷ es) = (e.base_addr < max_memory → e.base_addr + u32 e.length < 2 ^ 32) × Fits es

-- Frame `f` lies whole in an entry of available memory.
unfoldable pub offered : List MmapEntry → ℕ → Bool
offered [] f = false
offered (e ∷ es) f = (e.kind == 1 && lies_in e.base_addr (u32 e.length) f) || offered es f

free_entry-test :
    (s : Pmm) (e : MmapEntry) (f : ℕ)
    → (e.base_addr < max_memory → e.base_addr + u32 e.length < 2 ^ 32)
    → f < max_frames
    → bitmap_test (free_entry s e).bitmap f
      ≡ (not (e.kind == 1 && lies_in e.base_addr (u32 e.length) f) && bitmap_test s.bitmap f)
unfolding free_entry
free_entry-test s e f fits lt =
    ground (arith, fits, free_region-test s e.base_addr (entry_length e) f)

free_map-test :
    (s : Pmm) (es : List MmapEntry) (f : ℕ)
    → Fits es
    → f < max_frames
    → bitmap_test (free_map s es).bitmap f ≡ (not (offered es f) && bitmap_test s.bitmap f)
unfolding free_map offered
free_map-test s [] f fits lt = refl
free_map-test s (e ∷ es) f fits lt =
    ground (arith, free_map-test (free_entry s e) es f fits.1 lt, free_entry-test s e f fits.0 lt)

-- The pages of the kernel and of its heap: from 1 MiB to the kernel's end, or to 8 MiB.
abbrev pub is_kernel : ℕ → ℕ → Bool
is_kernel kernel_end f =
    leb kernel_start (f * page_size)
    && (ltb (f * page_size) kernel_end || ltb (f * page_size) kheap_top)

reserve_kernel-test :
    (s : Pmm) (kernel_end f : ℕ)
    → kernel_start ≤ kernel_end
    → kernel_end < 2 ^ 31
    → f < max_frames
    → bitmap_test (reserve_kernel s kernel_end).bitmap f
      ≡ (is_kernel kernel_end f || bitmap_test s.bitmap f)
unfolding reserve_kernel
reserve_kernel-test s kernel_end f lo hi lt =
    let end = page_down (u32 (kernel_end + 0xFFF)) in
    let t = reserve_region s kernel_start (u32 (end + 2 ^ 32 - kernel_start)) in
    ground (
      arith,
      reserve_region-test s kernel_start (u32 (end + 2 ^ 32 - kernel_start)) f,
      reserve_region-test t end (kheap_top - end) f,
    )

reserve_null-test :
    (s : Pmm) (f : ℕ) → bitmap_test (reserve_null s).bitmap f ≡ ((f == 0) || bitmap_test s.bitmap f)
unfolding reserve_null
reserve_null-test s f = ground (arith, bitmap_test-set s.bitmap 0 f, bitmap_test-set s.bitmap 0 0)

-- With a memory map, a frame is free after `init` exactly if an available entry holds it whole and
-- it is neither frame 0 nor one of the kernel's and its heap's.
pub init-free :
    (upper kernel_end f : ℕ) (es : List MmapEntry)
    → Fits es
    → kernel_start ≤ kernel_end
    → kernel_end < 2 ^ 31
    → f < max_frames
    → not (
        bitmap_test
          (init (some (record { has_mmap = true; mem_upper = upper; mmap = es })) kernel_end).bitmap
          f)
      ≡ (offered es f && not (f == 0) && not (is_kernel kernel_end f))
unfolding init
init-free upper kernel_end f es fits lo hi lt = ground (
  arith,
  reserve_kernel-test (count_users (reserve_null (free_map blank es))) kernel_end f lo hi lt,
  reserve_null-test (free_map blank es) f,
  free_map-test blank es f fits lt,
  bitmap_test-all f,
)

free_map-IsExact : (d : ℕ) (s : Pmm) (es : List MmapEntry) → IsExact d s → IsExact d (free_map s es)
unfolding free_map free_entry
free_map-IsExact d s [] v = v
free_map-IsExact d s (e ∷ es) v = free_map-IsExact d (free_entry s e) es (entry_kept d s e v)
  where
    entry_kept : (d : ℕ) (s : Pmm) (e : MmapEntry) → IsExact d s → IsExact d (free_entry s e)
    entry_kept d s e v = elim (Bool-cases (e.kind == 1)) [
      | inr k ↦ rw k v
      | inl k ↦ elim (Bool-cases (ltb e.base_addr max_memory)) [
        | inr b ↦ rw (k, b) v
        | inl b ↦ rw (k, b) (free_region-IsExact d s e.base_addr (entry_length e) v)
      ]
    ]

blank-IsExact : IsExact 0 blank
unfolding blank
blank-IsExact = record {
  slack = omega arith;
  exact = omega (arith, free_below_full max_frames (λ i. 0xFF) bitmap_test-all);
  byte_fits = λ i. omega arith;
}

free_fallback-IsExact : (d : ℕ) (s : Pmm) (kb : ℕ) → IsExact d s → IsExact d (free_fallback s kb)
unfolding free_fallback
free_fallback-IsExact d s kb v = elim (Bool-cases (ltb 0 kb)) [
  | inl e ↦ rw e (free_region-IsExact d s kernel_start _ v)
  | inr e ↦ rw e (free_region-IsExact d s kernel_start _ v)
]

free_memory-IsExact : (info : Option BootInfo) → IsExact 0 (free_memory blank info)
unfolding free_memory
free_memory-IsExact none = free_fallback-IsExact 0 blank 0 blank-IsExact
free_memory-IsExact (some i) = elim (Bool-cases i.has_mmap) [
  | inl e ↦ rw e (free_map-IsExact 0 blank i.mmap blank-IsExact)
  | inr e ↦ rw e (free_fallback-IsExact 0 blank i.mem_upper blank-IsExact)
]

-- By how much the counter is off when `init` is done.
abbrev pub null_slack : Pmm → ℕ
null_slack s = if bitmap_test s.bitmap 0 then 0 else 1

count_users-IsCounted :
    (s : Pmm) → IsExact 0 s → IsCounted (null_slack s) (count_users (reserve_null s))
unfolding reserve_null count_users
count_users-IsCounted s v = record {
  slack = ground arith;
  exact = ground (
    arith,
    v.exact,
    bitmap_test-set s.bitmap 0 0,
    free_below-set max_frames 0 s.bitmap (omega arith),
  );
  unused = λ f h. ground (arith, bitmap_test-set s.bitmap 0 0);
  ref_fits = λ f. ground arith;
  byte_fits =
      λ i. ground (arith, bitmap_set-byte s.bitmap 0 v.byte_fits i, bitmap_test-set s.bitmap 0 0);
}

reserve_kernel-IsCounted :
    (d : ℕ) (s : Pmm) (kernel_end : ℕ) → IsCounted d s → IsCounted d (reserve_kernel s kernel_end)
unfolding reserve_kernel
reserve_kernel-IsCounted d s kernel_end v =
    let end = page_down (u32 (kernel_end + 0xFFF)) in
    let t = reserve_region s kernel_start (u32 (end + 2 ^ 32 - kernel_start)) in
    let w = reserve_region-IsCounted d s kernel_start (u32 (end + 2 ^ 32 - kernel_start)) v in
    elim (Bool-cases (ltb end kheap_top)) [
      | inl e ↦ rw e (reserve_region-IsCounted d t end (kheap_top - end) w)
      | inr e ↦ rw e w
    ]

-- After `init`, whatever the boot loader said, the free counter is the number of free frames, and
-- one more if frame 0 had been freed before it was taken back.
pub init-IsCounted :
    (info : Option BootInfo) (kernel_end : ℕ)
    → IsCounted (null_slack (free_memory blank info)) (init info kernel_end)
unfolding init
init-IsCounted info kernel_end =
    let s = free_memory blank info in
    let v =
      reserve_kernel-IsCounted (null_slack s) (count_users (reserve_null s)) kernel_end
        (count_users-IsCounted s (free_memory-IsExact info)) in
    record {
      slack = v.slack;
      exact = v.exact;
      unused = v.unused;
      ref_fits = v.ref_fits;
      byte_fits = v.byte_fits;
    }

-- A memory map that offers page 0, as that of a PC does, leaves the counter one too high.
pub init_overcounts :
    (upper kernel_end : ℕ) (es : List MmapEntry)
    → Fits es
    → offered es 0 ≡ true
    → let s = init (some (record { has_mmap = true; mem_upper = upper; mmap = es })) kernel_end in
      s.free_frames ≡ free_below max_frames s.bitmap + 1
unfolding free_memory
init_overcounts upper kernel_end es fits off =
    let info : Option BootInfo = some (record { has_mmap = true; mem_upper = upper; mmap = es }) in
    ground (
      arith,
      (init-IsCounted info kernel_end).exact,
      free_map-test blank es 0 fits (omega arith),
      bitmap_test-all 0,
    )
