-- ===== src/Memory/Heap/Tests.antt =====
-- Runs of the heap, and the theorems about it at concrete heaps.
use char_os.Base.{
  ℕ, ◌+◌, ◌≡◌, true, false, not, ◌&&◌, Option, none, some, List, [], ◌∷◌, ◌==◌, refl, arith,
}
use char_os.Memory.Heap.{Block, Heap, kheap_expand, kmalloc, kfree}
use char_os.Memory.Heap.Tiling.{in_use}
use char_os.Memory.Heap.Calls.{IsTiled, kmalloc-room, kfree-in_use}
use char_os.Memory.Heap.Realloc.{Reallocated, krealloc, IsMoved, krealloc-IsMoved}

-- A heap of 4096 bytes with a block of 16 bytes in use.
abbrev small : Heap
small = record {
  heap_start = 0x100000;
  heap_end = 0x101000;
  heap_max = 0x800000;
  blocks =
      record { addr = 0x100000; size = 16; free = false }
      ∷ record { addr = 0x100024; size = 4040; free = true }
      ∷ [];
  frames = 3;
}

abbrev freed_blocks : Option Heap → List Block
freed_blocks none = []
freed_blocks (some h) = h.blocks

-- What is freed joins its neighbours.
coalesces :
    freed_blocks (kfree (kmalloc small 32).0 (some 0x100038))
    ≡ record { addr = 0x100000; size = 16; free = false }
      ∷ record { addr = 0x100024; size = 4040; free = true }
      ∷ []
unfolding kfree kmalloc
coalesces = refl

-- An address inside a block is that of no block.
stale : kfree small (some 0x100200) ≡ none
unfolding kfree
stale = refl

-- A request near 4 GB moves the end of the heap back.
wraps : (kheap_expand (record small { heap_end = 0x212000 }) 0xFFE00000).heap_end ≡ 0x13000
unfolding kheap_expand
wraps = refl

-- What is left after 40 bytes are taken from it.
abbrev smaller : Heap
smaller = record small {
  blocks =
      record { addr = 0x100000; size = 16; free = false }
      ∷ record { addr = 0x100024; size = 40; free = false }
      ∷ record { addr = 0x100060; size = 3980; free = true }
      ∷ [];
}

kmalloc-room_example :
    (p : ℕ) × ((kmalloc small 33).1 ≡ some p) × ((kmalloc small 33).0.heap_end ≡ 0x101000)
kmalloc-room_example = kmalloc-room small 33 (omega arith) refl

kfree-in_use_example :
    (g : Heap) × (kfree small (some 0x100014) ≡ some g)
    × IsTiled g
    × (in_use g.blocks 0x100000 16
        ≡ (in_use small.blocks 0x100000 16 && not (0x100000 + 20 == 0x100014)))
kfree-in_use_example =
    kfree-in_use small 0x100014 0x100000 16 ((refl, (refl, refl)), omega arith) refl

krealloc-IsMoved_example :
    (r : Reallocated) × (krealloc small (some 0x100014) 33 ≡ some r)
    × IsMoved small 0x100014 16 0x100038 33 r
krealloc-IsMoved_example =
    krealloc-IsMoved small smaller 0x100014 16 0x100038 33 (omega arith)
      ((refl, (refl, refl)), omega arith) (omega arith) refl refl (omega arith)
      (unfold kmalloc in refl)
