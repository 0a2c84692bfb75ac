-- ===== src/Memory/Pmm.antt =====
-- kernel/memory/pmm.c and include/memory/pmm.h: physical frames of 4 KiB, shared by counting.
-- Every public operation runs under `pmm_lock`, so each is one step here. Addresses, counts and
-- lengths are `uint32_t`; console output is left out.
pub mod Bitmap
pub mod Count
pub mod Frames
pub mod Region
pub mod Init
pub mod Sharing
mod Tests
use char_os.Base.{
  ℕ, zero, suc, ◌+◌, ◌-◌, ◌*◌, ◌/◌, ◌%◌, ◌^◌, Bool, true, false, not, Option, none, some, List, [],
  ◌∷◌, ◌==◌, ltb, leb, if◌then◌else◌, update, scan,
}
use Bitmap.{Bytes, bitmap_set, bitmap_clear, bitmap_test}

abbrev pub max_memory : ℕ
max_memory = 256 * 1024 * 1024

abbrev pub page_size : ℕ
page_size = 4096

abbrev pub max_frames : ℕ
max_frames = 65536

abbrev pub u32 : ℕ → ℕ
u32 n = n % 2 ^ 32

-- The file's static variables.
pub record Pmm : Type 0 where
  pub bitmap : Bytes
  pub refcount : ℕ → ℕ
  pub free_frames : ℕ
  pub total_frames : ℕ
  pub ready : Bool

-- The body of the loop of `pmm_reserve_region`.
pub reserve_one : Pmm → ℕ → Pmm
reserve_one s i =
    let t = record s { bitmap = bitmap_set s.bitmap i } in
    if bitmap_test s.bitmap i
    then t
    else record t { free_frames = if ltb 0 s.free_frames then s.free_frames - 1 else s.free_frames }

-- `for (i = ...; i < end_frame; i++)` with the rounds left.
pub reserve_from : Pmm → ℕ → ℕ → Pmm
reserve_from s i zero = s
reserve_from s i (suc n) = reserve_from (reserve_one s i) (i + 1) n

-- `length`, cut at the end of the managed memory.
abbrev pub clamped : ℕ → ℕ → ℕ
clamped base length = if ltb max_memory (u32 (base + length)) then max_memory - base else length

abbrev pub reserve_end : ℕ → ℕ → ℕ
reserve_end base length =
    let end_frame = u32 (base + length + page_size - 1) / page_size in
    if ltb max_frames end_frame then max_frames else end_frame

-- `pmm_reserve` is this function under a public name.
unfoldable pub reserve_region : Pmm → ℕ → ℕ → Pmm
reserve_region s base length =
    if leb max_memory base
    then s
    else reserve_from s (base / page_size)
        (reserve_end base (clamped base length) - base / page_size)

-- The body of the loop of `pmm_free_region`.
pub free_one : Pmm → ℕ → Pmm
free_one s i =
    if bitmap_test s.bitmap i
    then record s { bitmap = bitmap_clear s.bitmap i; free_frames = u32 (s.free_frames + 1) }
    else s

pub free_from : Pmm → ℕ → ℕ → Pmm
free_from s i zero = s
free_from s i (suc n) = free_from (free_one s i) (i + 1) n

-- `x & ~(PMM_PAGE_SIZE - 1)`.
abbrev pub page_down : ℕ → ℕ
page_down x = x / page_size * page_size

free_pages : Pmm → ℕ → ℕ → Pmm
free_pages s start end =
    if leb end start
    then s
    else if leb max_memory start
    then s
    else free_from s (start / page_size)
        ((if ltb max_memory end then max_memory else end) / page_size - start / page_size)

unfoldable pub free_region : Pmm → ℕ → ℕ → Pmm
unfolding free_pages
free_region s base length =
    if leb max_memory base
    then s
    else free_pages s (page_down (u32 (base + page_size - 1)))
        (page_down (u32 (base + clamped base length)))

-- The lowest frame that is handed out: the first megabyte is left to the firmware.
abbrev pub min_frame : ℕ
min_frame = 0x100000 / page_size

abbrev pub is_free : Pmm → ℕ → Bool
is_free s i = not (bitmap_test s.bitmap i)

-- The address of a frame and the new state; 0 when there is none.
unfoldable pub alloc_frame : Pmm → ℕ × Pmm
alloc_frame s =
    if s.ready
    then elim (scan (is_free s) min_frame (max_frames - min_frame)) [
      | none ↦ (0, s)
      | some i ↦ (
        i * page_size,
        record s {
          bitmap = bitmap_set s.bitmap i;
          free_frames = u32 (s.free_frames + 2 ^ 32 - 1);
          refcount = update s.refcount i 1;
        },
      )
    ]
    else (0, s)

-- The address is that of a managed frame.
abbrev pub is_frame : ℕ → Bool
is_frame phys = if phys % page_size == 0 then ltb (phys / page_size) max_frames else false

unfoldable pub inc_ref : Pmm → ℕ → Pmm
inc_ref s phys =
    let f = phys / page_size in
    if is_frame phys
    then (if bitmap_test s.bitmap f
        then (if ltb (s.refcount f) 0xFFFF
            then record s { refcount = update s.refcount f (s.refcount f + 1) }
            else s)
        else s)
    else s

unfoldable pub dec_ref : Pmm → ℕ → Pmm
dec_ref s phys =
    let f = phys / page_size in
    if is_frame phys
    then (if bitmap_test s.bitmap f
        then (if ltb 0 (s.refcount f)
            then record s { refcount = update s.refcount f (s.refcount f - 1) }
            else s)
        else s)
    else s

-- `none` is -1.
unfoldable pub get_ref : Pmm → ℕ → Option ℕ
get_ref s phys = if is_frame phys then some (s.refcount (phys / page_size)) else none

unfoldable pub free_frame : Pmm → ℕ → Pmm
free_frame s phys =
    let f = phys / page_size in
    if is_frame phys
    then (if f == 0
        then s
        else if bitmap_test s.bitmap f
        then (if ltb 1 (s.refcount f)
            then record s { refcount = update s.refcount f (s.refcount f - 1) }
            else record s {
              refcount = update s.refcount f 0;
              bitmap = bitmap_clear s.bitmap f;
              free_frames = u32 (s.free_frames + 1);
            })
        else s)
    else s
