-- ===== src/Memory/Pmm/Init.antt =====
-- kernel/memory/pmm.c: `pmm_init`, from the boot loader's memory map to a ready allocator.
pub mod Boot
use char_os.Base.{
  ℕ, ◌+◌, ◌-◌, ◌*◌, ◌^◌, Bool, true, false, if◌then◌else◌, ◌==◌, ltb, Option, none, some, List, [],
  ◌∷◌,
}
use char_os.Memory.Pmm.Bitmap.{bitmap_test, bitmap_set}
use char_os.Memory.Pmm.{Pmm, max_frames, max_memory, page_down, u32, reserve_region, free_region}

-- `struct multiboot_mmap_entry` as the walk over the map reads it; both numbers have 64 bits.
pub record MmapEntry : Type 0 where
  pub base_addr : ℕ
  pub length : ℕ
  pub kind : ℕ

-- What `pmm_init` reads of `struct multiboot_info`, with the entries of the map in order.
pub record BootInfo : Type 0 where
  pub has_mmap : Bool
  pub mem_upper : ℕ
  pub mmap : List MmapEntry

-- All frames taken, no counter set.
pub blank : Pmm
blank = record {
  bitmap = λ i. 0xFF;
  refcount = λ f. 0;
  free_frames = 0;
  total_frames = max_frames;
  ready = false;
}

abbrev pub kernel_start : ℕ
kernel_start = 0x100000

-- Without a map: the upper memory, or 15 MiB.
pub free_fallback : Pmm → ℕ → Pmm
free_fallback s mem_kb =
    let total = u32 ((mem_kb + 1024) * 1024) in
    let total_bytes = if ltb max_memory total then max_memory else total in
    if ltb 0 mem_kb
    then free_region s kernel_start (u32 (total_bytes + 2 ^ 32 - kernel_start))
    else free_region s kernel_start (15 * 1024 * 1024)

-- `l`, from the low 32 bits of the entry's length.
abbrev pub entry_length : MmapEntry → ℕ
entry_length e =
    let l = u32 e.length in
    if ltb max_memory (u32 (e.base_addr + l)) then max_memory - e.base_addr else l

pub free_entry : Pmm → MmapEntry → Pmm
free_entry s e =
    if e.kind == 1
    then (if ltb e.base_addr max_memory then free_region s e.base_addr (entry_length e) else s)
    else s

pub free_map : Pmm → List MmapEntry → Pmm
free_map s [] = s
free_map s (e ∷ es) = free_map (free_entry s e) es

-- Both ways to find the free memory; `none` is a null pointer.
pub free_memory : Pmm → Option BootInfo → Pmm
unfolding free_fallback free_map
free_memory s none = free_fallback s 0
free_memory s (some info) =
    if info.has_mmap then free_map s info.mmap else free_fallback s info.mem_upper

-- Frame 0 stays taken: the bit is set first and tested after.
pub reserve_null : Pmm → Pmm
reserve_null s =
    let t = record s { bitmap = bitmap_set s.bitmap 0 } in
    if bitmap_test t.bitmap 0 then t else record t {
      bitmap = bitmap_set t.bitmap 0;
      free_frames = if ltb 0 t.free_frames then t.free_frames - 1 else t.free_frames;
    }

-- One user for each frame that is taken so far.
pub count_users : Pmm → Pmm
count_users s = record s { refcount = λ f. if bitmap_test s.bitmap f then 1 else 0 }

abbrev pub kheap_top : ℕ
kheap_top = 0x800000

-- The kernel's image, and the heap's region behind it.
pub reserve_kernel : Pmm → ℕ → Pmm
reserve_kernel s kernel_end =
    let end = page_down (u32 (kernel_end + 0xFFF)) in
    let t = reserve_region s kernel_start (u32 (end + 2 ^ 32 - kernel_start)) in
    if ltb end kheap_top then reserve_region t end (kheap_top - end) else t

unfoldable pub init : Option BootInfo → ℕ → Pmm
unfolding blank free_memory reserve_null count_users reserve_kernel
init info kernel_end =
    let s = reserve_kernel (count_users (reserve_null (free_memory blank info))) kernel_end in
    record s { total_frames = max_frames; ready = true }
