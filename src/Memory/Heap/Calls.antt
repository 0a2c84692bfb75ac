-- ===== src/Memory/Heap/Calls.antt =====
-- kernel/memory/kheap.c: what `kmalloc` and `kfree` do to the heap as a whole.
use char_os.Base.{
  ℕ, ◌+◌, ◌-◌, ◌%◌, ◌/◌, ◌^◌, ◌≤◌, ◌<◌, ◌≡◌, min, Bool, true, false, not, ◌&&◌, ◌||◌, Option, none,
  some, List, [], ◌∷◌, ◌==◌, ltb, leb, arith, refl, ap, subst, inl, inr, Bool-cases,
}
use char_os.Memory.Heap.{
  Block, Heap, header, identity_limit, to_alloc, grow, kheap_expand, alloc_in, align8, split_block,
  behind, taken, or_grown, kmalloc, kfree, less, has_block, free_in,
}
use char_os.Memory.Heap.Tiling.{
  Tiles, in_use, Searched, alloc_in-Searched, Tiles-append, in_use-append, free_in-Tiles,
  free_in-in_use,
}

-- The blocks fill the heap, which ends within 32 bits.
abbrev pub IsTiled : Heap → Type 0
IsTiled h = Tiles h.heap_start h.blocks h.heap_end × (h.heap_end < 2 ^ 32)

grow-IsTiled :
    (h : Heap) (bytes : ℕ)
    → IsTiled h
    → header ≤ bytes
    → h.heap_end + bytes < 2 ^ 32
    → IsTiled (grow h bytes)
grow-IsTiled h bytes (t, low) big room = (
  subst (Tiles h.heap_start (grow h bytes).blocks) (omega arith)
      (Tiles-append h.blocks h.heap_start h.heap_end (less bytes header) t),
  omega arith,
)

-- A heap after growing: still filled, and with all that is in use.
record Grown (h g : Heap) : Type 0 where
  tiled : IsTiled g
  keeps : (x n : ℕ) → in_use h.blocks x n ≡ true → in_use g.blocks x n ≡ true

grow-Grown :
    (h : Heap) (bytes : ℕ)
    → IsTiled h
    → header ≤ bytes
    → h.heap_end + bytes < 2 ^ 32
    → Grown h (grow h bytes)
grow-Grown h bytes t big room = record {
  tiled = grow-IsTiled h bytes t big room;
  keeps = λ x n e.
      in_use-append h.blocks
        (record { addr = h.heap_end; size = less bytes header; free = true } ∷ []) x n e;
}

kheap_expand-Grown :
    (h : Heap) (needed : ℕ)
    → IsTiled h
    → h.heap_end + needed + 0x1100 < 2 ^ 32
    → Grown h (kheap_expand h needed)
unfolding kheap_expand
kheap_expand-Grown h needed t small =
    let bytes = to_alloc needed in
    let big : header ≤ bytes = omega arith in
    let room : h.heap_end + bytes < 2 ^ 32 = omega arith in
    elim (Bool-cases (ltb h.heap_max ((h.heap_end + bytes) % 2 ^ 32))) [
      | inr inside ↦ rw inside (grow-Grown h bytes t big room)
      | inl beyond ↦ elim (Bool-cases (ltb h.frames ((bytes + 0xFFF) / 0x1000))) [
        | inl none_left ↦ rw (beyond, none_left) (record { tiled = t; keeps = λ x n e. e })
        | inr enough ↦
            let w =
              grow-Grown
                (record h {
                  frames = h.frames - (bytes + 0xFFF) / 0x1000;
                  heap_max = min ((h.heap_end + bytes) % 2 ^ 32) identity_limit;
                })
                bytes t big room in
            rw (beyond, enough) (record { tiled = w.tiled; keeps = w.keeps })
      ]
    ]

-- The heap stays filled, all that is in use stays so, and the memory that is given is behind the header
-- of a block that was not in use and is now, of the size rounded up to 8.
record IsAllocation (h : Heap) (size : ℕ) (r : Heap × Option ℕ) : Type 0 where
  tiled : IsTiled r.0
  keeps : (x n : ℕ) → in_use h.blocks x n ≡ true → in_use r.0.blocks x n ≡ true
  gives :
      (p : ℕ)
      → r.1 ≡ some p
      → (in_use r.0.blocks (p - header) (align8 size) ≡ true)
        × (in_use h.blocks (p - header) 0 ≡ false)

-- What a search in a grown heap comes to for the heap before.
taken-IsAllocation :
    (h g : Heap) (size : ℕ) (found : Option (List Block × ℕ))
    → Grown h g
    → Searched g.heap_start g.heap_end (align8 size) g.blocks found
    → IsAllocation h size (taken g found)
taken-IsAllocation h g size none w v = record {
  tiled = w.tiled;
  keeps = w.keeps;
  gives = λ p e. cc;
}
taken-IsAllocation h g size (some (bs, q)) w v = record {
  tiled = (v.tiles, w.tiled.1);
  keeps = λ x n e. v.keeps x n (w.keeps x n e);
  gives = λ p e.
      subst
        (λ k.
          (in_use bs (k - header) (align8 size) ≡ true) × (in_use h.blocks (k - header) 0 ≡ false))
        (cc e) (v.gets, ground (arith, v.fresh, w.keeps (q - header) 0));
}

or_grown-IsAllocation :
    (h : Heap) (size : ℕ) (found : Option (List Block × ℕ))
    → IsTiled h
    → h.heap_end + align8 size + 0x1100 < 2 ^ 32
    → align8 size + 36 < 2 ^ 32
    → Searched h.heap_start h.heap_end (align8 size) h.blocks found
    → IsAllocation h size (or_grown h (align8 size) found)
or_grown-IsAllocation h size none t room small v =
    let g = kheap_expand h (align8 size) in
    let w = kheap_expand-Grown h (align8 size) t room in
    taken-IsAllocation h g size (alloc_in (align8 size) g.blocks) w
      (alloc_in-Searched (align8 size) g.blocks g.heap_start g.heap_end w.tiled.0 small w.tiled.1)
or_grown-IsAllocation h size (some r) t room small v =
    taken-IsAllocation h h size (some r) (record { tiled = t; keeps = λ x n e. e }) v

kmalloc-IsAllocation :
    (h : Heap) (size : ℕ)
    → IsTiled h
    → h.heap_end + size + 0x1200 < 2 ^ 32
    → IsAllocation h size (kmalloc h size)
unfolding kmalloc
kmalloc-IsAllocation h size t small = elim (Bool-cases (size == 0)) [
  | inl nothing ↦ rw nothing (record { tiled = t; keeps = λ x n e. e; gives = λ p e. cc })
  | inr something ↦ rw something (
      or_grown-IsAllocation h size (alloc_in (align8 size) h.blocks) t (omega arith) (omega arith)
        (alloc_in-Searched (align8 size) h.blocks h.heap_start h.heap_end t.0 (omega arith) t.1))
]

pub kmalloc-some :
    (h g : Heap) (size p x n : ℕ)
    → IsTiled h
    → h.heap_end + size + 0x1200 < 2 ^ 32
    → kmalloc h size ≡ (g, some p)
    → IsTiled g
      × (in_use g.blocks (p - header) (align8 size) ≡ true)
      × (in_use h.blocks (p - header) 0 ≡ false)
      × (in_use g.blocks x n ≡ (in_use g.blocks x n || in_use h.blocks x n))
kmalloc-some h g size p x n t small e =
    let v : IsAllocation h size (g, some p) =
      subst (IsAllocation h size) e (kmalloc-IsAllocation h size t small) in
    let (now, before) = v.gives p refl in (v.tiled, now, before, ground (arith, v.keeps x n))

-- Whether a free block has room.
abbrev pub has_room : List Block → ℕ → Bool
has_room [] size = false
has_room (b ∷ bs) size = b.free && leb size b.size || has_room bs size

alloc_in-room :
    (size : ℕ) (bs : List Block)
    → has_room bs size ≡ true
    → (r : List Block × ℕ) × (alloc_in size bs ≡ some r)
unfolding alloc_in
alloc_in-room size [] room = cc
alloc_in-room size (b ∷ bs) room = elim (Bool-cases (b.free && leb size b.size)) [
  | inl fits ↦ ((split_block b size bs, b.addr + header), rw fits refl)
  | inr not_this ↦
      let (r, found) = alloc_in-room size bs (ground arith) in
      ((b ∷ r.0, r.1), rw not_this (ap (behind b) found))
]

-- While a free block has room for the size rounded up to 8, a call of `kmalloc` for more than 0 bytes
-- gives memory, without growing the heap.
pub kmalloc-room :
    (h : Heap) (size : ℕ)
    → 0 < size
    → has_room h.blocks (align8 size) ≡ true
    → (p : ℕ) × ((kmalloc h size).1 ≡ some p) × ((kmalloc h size).0.heap_end ≡ h.heap_end)
unfolding kmalloc
kmalloc-room h size some_bytes room =
    let ((bs, p), found) = alloc_in-room (align8 size) h.blocks room in
    (p, rw (found, kmalloc) (ground arith), rw (found, kmalloc) (ground arith))

-- Freeing the memory of a block of the list keeps the heap filled and takes exactly this block out of
-- use.
pub kfree-in_use :
    (h : Heap) (p x n : ℕ)
    → IsTiled h
    → has_block h.blocks p ≡ true
    → (g : Heap) × (kfree h (some p) ≡ some g)
      × IsTiled g
      × (in_use g.blocks x n ≡ (in_use h.blocks x n && not (x + header == p)))
unfolding kfree
kfree-in_use h p x n (t, low) has = (
  record h { blocks = free_in h.blocks p },
  rw has refl,
  (free_in-Tiles h.blocks h.heap_start h.heap_end p t low, low),
  free_in-in_use h.blocks h.heap_start h.heap_end p x n t,
)
