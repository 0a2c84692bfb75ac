-- ===== src/Memory/Heap.antt =====
-- kernel/memory/kheap.c: the heap of the kernel, under its lock. The blocks are the list that their
-- `next` pointers make, in which a block's `prev` is the one before it; a header takes 20 bytes in
-- front of the memory of its block. Sizes and addresses are 32 bits wide. The diagnostics are left
-- out. What freeing does to a pointer that is not of a block in the list is decided by the bytes in
-- front of it (a block that was joined to another keeps its `magic` word): that is not described, and
-- the result is `none`.
pub mod Tiling
pub mod Calls
pub mod Realloc
mod Tests
use char_os.Base.{
  ℕ, zero, suc, ◌+◌, ◌-◌, ◌*◌, ◌/◌, ◌%◌, ◌^◌, min, Bool, true, false, not, ◌&&◌, ◌||◌, Option, none,
  some, List, [], ◌∷◌, ◌++◌, ◌==◌, ltb, leb, if◌then◌else◌,
}

abbrev pub header : ℕ
header = 20

abbrev pub initial_size : ℕ
initial_size = 1024 * 1024

abbrev pub identity_limit : ℕ
identity_limit = 0x800000

-- `struct block_header`, at its address.
pub record Block : Type 0 where
  pub addr : ℕ
  pub size : ℕ
  pub free : Bool

-- `frames` is how many frames the frame allocator still has for `kheap_expand`.
pub record Heap : Type 0 where
  pub heap_start : ℕ
  pub heap_end : ℕ
  pub heap_max : ℕ
  pub blocks : List Block
  pub frames : ℕ

-- `a - b` of a size.
abbrev pub less : ℕ → ℕ → ℕ
less a b = (a + 2 ^ 32 - b) % 2 ^ 32

-- `kheap_init` behind the end of the kernel.
unfoldable pub kheap_init : ℕ → ℕ → Heap
kheap_init kernel_end frames =
    let start = (kernel_end + 0xFFF) % 2 ^ 32 / 0x1000 * 0x1000 in
    let end = min ((start + initial_size) % 2 ^ 32) identity_limit in
    record {
      heap_start = start;
      heap_end = end;
      heap_max = identity_limit;
      blocks = record { addr = start; size = less (end + 2 ^ 32 - start) header; free = true } ∷ [];
      frames = frames;
    }

abbrev pub to_alloc : ℕ → ℕ
to_alloc needed = (needed + header + 0xFFF) % 2 ^ 32 / 0x1000 * 0x1000

-- The new block at the end of the heap.
abbrev pub grow : Heap → ℕ → Heap
grow h bytes = record h {
  blocks = h.blocks ++ (record { addr = h.heap_end; size = less bytes header; free = true } ∷ []);
  heap_end = (h.heap_end + bytes) % 2 ^ 32;
}

-- Behind the mapped part, each page wants a frame; without enough of them nothing is added. (What
-- was taken so far is not given back.)
unfoldable pub kheap_expand : Heap → ℕ → Heap
kheap_expand h needed =
    let bytes = to_alloc needed in
    let pages = (bytes + 0xFFF) / 0x1000 in
    if ltb h.heap_max ((h.heap_end + bytes) % 2 ^ 32)
    then if ltb h.frames pages
      then record h { frames = 0 }
      else grow
          (record h {
            frames = h.frames - pages;
            heap_max = min ((h.heap_end + bytes) % 2 ^ 32) identity_limit;
          })
          bytes
    else grow h bytes

-- The block and, if it is large enough for one, the free block that is cut off behind it.
abbrev pub split_block : Block → ℕ → List Block → List Block
split_block b size rest =
    if leb ((size + header + 16) % 2 ^ 32) b.size
    then record { addr = b.addr; size = size; free = false }
      ∷ record { addr = b.addr + header + size; size = less (b.size - size) header; free = true }
      ∷ rest
    else record b { free = false } ∷ rest

abbrev pub behind : Block → Option (List Block × ℕ) → Option (List Block × ℕ)
behind b none = none
behind b (some (bs, p)) = some (b ∷ bs, p)

-- `find_free`, and what `kmalloc` does with the block that it finds.
pub alloc_in : ℕ → List Block → Option (List Block × ℕ)
alloc_in size [] = none
alloc_in size (b ∷ bs) =
    let later = alloc_in size bs in
    if b.free && leb size b.size
    then some (split_block b size bs, b.addr + header)
    else behind b later

abbrev pub align8 : ℕ → ℕ
align8 size = (size + 7) % 2 ^ 32 / 8 * 8

abbrev pub taken : Heap → Option (List Block × ℕ) → Heap × Option ℕ
taken h none = (h, none)
taken h (some (bs, p)) = (record h { blocks = bs }, some p)

abbrev pub or_grown : Heap → ℕ → Option (List Block × ℕ) → Heap × Option ℕ
or_grown h size none = taken (kheap_expand h size) (alloc_in size (kheap_expand h size).blocks)
or_grown h size (some r) = taken h (some r)

-- `none` is the null pointer.
unfoldable pub kmalloc : Heap → ℕ → Heap × Option ℕ
unfolding alloc_in kheap_expand
kmalloc h size =
    if size == 0 then (h, none) else or_grown h (align8 size) (alloc_in (align8 size) h.blocks)

abbrev pub merge_next : Block → List Block → List Block
merge_next b [] = b ∷ []
merge_next b (c ∷ bs) =
    if c.free then record b { size = (b.size + header + c.size) % 2 ^ 32 } ∷ bs else b ∷ c ∷ bs

-- Whether the pointer is that of the first block.
abbrev pub is_first : List Block → ℕ → Bool
is_first [] p = false
is_first (b ∷ bs) p = b.addr + header == p

pub free_in : List Block → ℕ → List Block
free_in [] p = []
free_in (b ∷ bs) p =
    let rest = free_in bs p in
    if b.addr + header == p
    then merge_next (record b { free = true }) bs
    else if is_first bs p && b.free
    then merge_next b rest
    else b ∷ rest

-- Whether a block of the list has its memory at the pointer.
abbrev pub has_block : List Block → ℕ → Bool
has_block [] p = false
has_block (b ∷ bs) p = b.addr + header == p || has_block bs p

-- The null pointer is `none` and frees nothing; the result for a pointer of no block is `none`.
unfoldable pub kfree : Heap → Option ℕ → Option Heap
unfolding free_in
kfree h none = some h
kfree h (some p) =
    if has_block h.blocks p then some (record h { blocks = free_in h.blocks p }) else none
