-- ===== src/Memory/Heap/Realloc.antt =====
-- kernel/memory/kheap.c: resizing a block and aligned memory.
use char_os.Base.{
  ℕ, ◌+◌, ◌-◌, ◌*◌, ◌/◌, ◌%◌, ◌^◌, ◌≡◌, ◌≤◌, ◌<◌, refl, ap, ap₂, sym, subst, ◌∙◌, arith, Bool, true,
  false, not, ◌&&◌, Bool-cases, inl, inr, Option, none, some, List, [], ◌∷◌, ◌==◌, leb,
  if◌then◌else◌,
}
use char_os.Memory.Heap.{Block, Heap, header, align8, kmalloc, kfree, has_block}
use char_os.Memory.Heap.Tiling.{Tiles, in_use, in_use-below}
use char_os.Memory.Heap.Calls.{IsTiled, kmalloc-some, kfree-in_use}

-- `block->size` of the block whose memory starts at `p`.
abbrev pub size_of : List Block → ℕ → ℕ
size_of [] p = 0
size_of (b ∷ bs) p = if b.addr + header == p then b.size else size_of bs p

-- `memcpy(dst, src, len)` of a call.
pub record Copy : Type 0 where
  pub dst : ℕ
  pub src : ℕ
  pub len : ℕ

-- What krealloc does: the heap, the pointer it returns, and the copy it makes.
pub record Reallocated : Type 0 where
  pub heap : Heap
  pub ptr : Option ℕ
  pub copied : Option Copy

abbrev pub from_kmalloc : Heap × Option ℕ → Option Reallocated
from_kmalloc (h, p) = some (record { heap = h; ptr = p; copied = none })

-- The old block has been freed.
abbrev pub freed : Option ℕ → Option Copy → Option Heap → Option Reallocated
freed ptr copied none = none
freed ptr copied (some h) = some (record { heap = h; ptr = ptr; copied = copied })

-- The larger block has been asked for.
abbrev pub move_block : ℕ → ℕ → Heap × Option ℕ → Option Reallocated
move_block p old_size (h, none) = some (record { heap = h; ptr = none; copied = none })
move_block p old_size (h, some q) =
    freed (some q) (some (record { dst = q; src = p; len = old_size })) (kfree h (some p))

-- As for kfree, the result is `none` for a pointer of no block.
unfoldable pub krealloc : Heap → Option ℕ → ℕ → Option Reallocated
krealloc h none size = from_kmalloc (kmalloc h size)
krealloc h (some p) size =
    if not (has_block h.blocks p)
    then none
    else if size == 0
    then freed none none (kfree h (some p))
    else if leb size (size_of h.blocks p)
    then some (record { heap = h; ptr = some p; copied = none })
    else move_block p (size_of h.blocks p) (kmalloc h size)

-- `(raw + sizeof(void*) + align - 1) & ~(align - 1)`, for an `align` that is a power of 2 and an
-- address that does not wrap.
abbrev pub align_up : ℕ → ℕ → ℕ
align_up raw align = (raw + 4 + align - 1) / align * align

-- The pointer that is returned, and the address where the one of the block is stored.
abbrev pub aligned_in : ℕ → Heap × Option ℕ → Heap × Option (ℕ × ℕ)
aligned_in align (h, none) = (h, none)
aligned_in align (h, some raw) = (h, some (align_up raw align, align_up raw align - 4))

abbrev pub unaligned : Heap × Option ℕ → Heap × Option (ℕ × ℕ)
unaligned (h, none) = (h, none)
unaligned (h, some p) = (h, some (p, p))

-- kmalloc_aligned; up to 8 nothing is stored.
unfoldable pub kmalloc_aligned : Heap → ℕ → ℕ → Heap × Option (ℕ × ℕ)
kmalloc_aligned h size align =
    if leb align 8
    then unaligned (kmalloc h size)
    else aligned_in align (kmalloc h ((size + align + 4) % 2 ^ 32))

-- What a call promises that moves a block of a size to a larger one at `q`.
pub record IsMoved (h : Heap) (p old q size : ℕ) (r : Reallocated) : Type 0 where
  pub tiled : IsTiled r.heap
  pub pointer : r.ptr ≡ some q
  pub copied : r.copied ≡ some (record { dst = q; src = p; len = old })
  pub new_in_use : in_use r.heap.blocks (q - header) (align8 size) ≡ true
  pub new_was_free : in_use h.blocks (q - header) 0 ≡ false
  pub old_free : in_use r.heap.blocks (p - header) 0 ≡ false

has_block-in_use :
    (bs : List Block) (p n : ℕ)
    → header ≤ p
    → in_use bs (p - header) n ≡ true
    → has_block bs p ≡ true
has_block-in_use [] p n above on = cc
has_block-in_use (b ∷ bs) p n above on = ground (arith, has_block-in_use bs p n above)

-- The size of a block in use.
size_of-in_use :
    (bs : List Block) (a z p n m : ℕ)
    → Tiles a bs z
    → header ≤ p
    → in_use bs (p - header) n ≡ true
    → in_use bs (p - header) m ≡ leb m (size_of bs p)
size_of-in_use [] a z p n m t above on = cc
size_of-in_use (b ∷ bs) a z p n m (at, t) above on = elim (Bool-cases (b.addr + header == p)) [
  | inl here ↦ rw here (
      ground (
        arith,
        in_use-below bs (a + header + b.size) z (p - header) n t,
        in_use-below bs (a + header + b.size) z (p - header) m t,
      ))
  | inr later ↦ rw later (ground (arith, size_of-in_use bs (a + header + b.size) z p n m t above))
]

-- An address that is in use differs from one that is not.
other_block :
    (bs : List Block) (p q : ℕ)
    → in_use bs (p - header) 0 ≡ true
    → in_use bs (q - header) 0 ≡ false
    → (q - header + header == p) ≡ false
other_block bs p q on off = elim (Bool-cases (q - header + header == p)) [
  | inl e ↦
      let same : q - header ≡ p - header = ground arith in
      let clash : false ≡ true = sym off ∙ ap (λ x. in_use bs x 0) same ∙ on in
      absurd (ground arith)
  | inr e ↦ e
]

move_block-IsMoved :
    (h g : Heap) (p old q size : ℕ)
    → header ≤ p
    → IsTiled h
    → h.heap_end + size + 0x1200 < 2 ^ 32
    → in_use h.blocks (p - header) 0 ≡ true
    → kmalloc h size ≡ (g, some q)
    → (r : Reallocated) × (move_block p old (g, some q) ≡ some r) × IsMoved h p old q size r
move_block-IsMoved h g p old q size above t small on e =
    let (tiled, now, before, keeps) = kmalloc-some h g size q (p - header) 0 t small e in
    let still : in_use g.blocks (p - header) 0 ≡ true = ground (arith, keeps, on) in
    let has = has_block-in_use g.blocks p 0 above still in
    let (k, gone, after, uses) = kfree-in_use g p (q - header) (align8 size) tiled has in
    let (k', gone', after', unused) = kfree-in_use g p (p - header) 0 tiled has in
    let same : k' ≡ k = some_eq k' k (sym gone' ∙ gone) in
    let copy : Copy = record { dst = q; src = p; len = old } in
    (
      record { heap = k; ptr = some q; copied = some copy },
      ap (freed (some q) (some copy)) gone,
      record {
        tiled = after;
        pointer = refl;
        copied = refl;
        new_in_use = uses ∙ ap₂ (λ a b. a && not b) now (other_block h.blocks p q on before);
        new_was_free = before;
        old_free =
            subst (λ u. in_use u.blocks (p - header) 0 ≡ false) same
              (unused ∙ ended _ _ (ground arith));
      },
    )
  where
    some_eq : (a b : Heap) → some a ≡ some b → a ≡ b
    some_eq a b e = ground arith

    ended : (a b : Bool) → b ≡ true → (a && not b) ≡ false
    ended a b e = ground arith

-- When krealloc is asked for more than the size of a block in use, and kmalloc gives memory: the new
-- block, which was not in use, is in use with the size asked for, all bytes of the old block are copied
-- to it, the old block is in use no more, and the heap stays filled.  The end of a grown heap stays
-- within 32 bits.
pub krealloc-IsMoved :
    (h g : Heap) (p old q size : ℕ)
    → header ≤ p
    → IsTiled h
    → h.heap_end + size + 0x1200 < 2 ^ 32
    → in_use h.blocks (p - header) old ≡ true
    → in_use h.blocks (p - header) (old + 1) ≡ false
    → old < size
    → kmalloc h size ≡ (g, some q)
    → (r : Reallocated) × (krealloc h (some p) size ≡ some r) × IsMoved h p old q size r
unfolding krealloc
krealloc-IsMoved h g p old q size above t small on exact more e =
    let at = λ (m : ℕ). size_of-in_use h.blocks h.heap_start h.heap_end p old m t.0 above on in
    let whole : size_of h.blocks p ≡ old = ground (arith, at old, at (old + 1)) in
    let any : in_use h.blocks (p - header) 0 ≡ true = ground (arith, at 0) in
    let has = has_block-in_use h.blocks p old above on in
    let larger : leb size (size_of h.blocks p) ≡ false = ground arith in
    let some_bytes : (size == 0) ≡ false = ground arith in
    let (r, moved, v) = move_block-IsMoved h g p old q size above t small any e in
    (r, rw (has, some_bytes, larger, whole, e) moved, v)
