-- ===== src/Memory/Heap/Tiling.antt =====
-- kernel/memory/kheap.c: the blocks lie one behind the other, and fill the heap.
use char_os.Base.{
  ℕ, ◌+◌, ◌-◌, ◌%◌, ◌^◌, ◌≤◌, ◌<◌, ◌≡◌, Bool, true, false, not, ◌&&◌, ◌||◌, Option, none, some,
  List, [], ◌∷◌, ◌++◌, ◌==◌, leb, arith, refl, sym, subst, inl, inr, Bool-cases,
}
use char_os.Memory.Heap.{
  Block, header, split_block, behind, alloc_in, merge_next, is_first, free_in,
}

-- The blocks fill the addresses from `a` to `z`.
abbrev pub Tiles : ℕ → List Block → ℕ → Type 0
Tiles a [] z = a ≡ z
Tiles a (b ∷ bs) z = (b.addr ≡ a) × Tiles (a + header + b.size) bs z

-- A block in use at an address, of at least a size.
abbrev pub in_use : List Block → ℕ → ℕ → Bool
in_use [] a n = false
in_use (b ∷ bs) a n = not b.free && (b.addr == a) && leb n b.size || in_use bs a n

Tiles-le : (bs : List Block) (a z : ℕ) → Tiles a bs z → a ≤ z
Tiles-le [] a z t = omega arith
Tiles-le (b ∷ bs) a z (at, t) = omega (arith, Tiles-le bs (a + header + b.size) z t)

pub in_use-below : (bs : List Block) (a z x n : ℕ) → Tiles a bs z → x < a → in_use bs x n ≡ false
in_use-below [] a z x n t h = refl
in_use-below (b ∷ bs) a z x n (at, t) h =
    ground (arith, in_use-below bs (a + header + b.size) z x n t)

-- What an allocation made of a list of blocks: they fill the same addresses, the new one is in use and
-- was not, and those in use still are.
pub record Allocated (a z size : ℕ) (bs : List Block) (r : List Block × ℕ) : Type 0 where
  pub tiles : Tiles a r.0 z
  pub place : a + header ≤ r.1
  pub gets : in_use r.0 (r.1 - header) size ≡ true
  pub fresh : in_use bs (r.1 - header) 0 ≡ false
  pub keeps : (x n : ℕ) → in_use bs x n ≡ true → in_use r.0 x n ≡ true

split_block-Allocated :
    (b : Block) (size : ℕ) (bs : List Block) (a z : ℕ)
    → Tiles a (b ∷ bs) z
    → size + 36 < 2 ^ 32
    → z < 2 ^ 32
    → (b.free && leb size b.size) ≡ true
    → Allocated a z size (b ∷ bs) (split_block b size bs, b.addr + header)
split_block-Allocated b size bs a z (at, t) small low fits =
    let inside = Tiles-le bs (a + header + b.size) z t in
    elim (Bool-cases (leb ((size + header + 16) % 2 ^ 32) b.size)) [
      | inl large ↦ rw large (record {
        tiles = (at, (omega arith, subst (λ k. Tiles k bs z) (ground arith) t));
        place = omega arith;
        gets = ground arith;
        fresh = ground (arith, below);
        keeps = λ x n h. ground arith;
      })
      | inr whole ↦ rw whole (record {
        tiles = (at, t);
        place = omega arith;
        gets = ground arith;
        fresh = ground (arith, below);
        keeps = λ x n h. ground arith;
      })
    ]
  where
    below : in_use bs (b.addr + header - header) 0 ≡ false
    below = in_use-below bs (a + header + b.size) z (b.addr + header - header) 0 t (omega arith)

behind-Allocated :
    (b : Block) (size : ℕ) (bs : List Block) (a z : ℕ) (r : List Block × ℕ)
    → b.addr ≡ a
    → Allocated (a + header + b.size) z size bs r
    → Allocated a z size (b ∷ bs) (b ∷ r.0, r.1)
behind-Allocated b size bs a z r at v = record {
  tiles = (at, v.tiles);
  place = omega (arith, v.place);
  gets = ground (arith, v.gets);
  fresh = ground (arith, v.fresh, v.place);
  keeps = λ x n h. ground (arith, v.keeps x n);
}

-- What a search for a block of a size comes to.
abbrev pub Searched : ℕ → ℕ → ℕ → List Block → Option (List Block × ℕ) → Type 0
Searched a z size bs none = Unit
Searched a z size bs (some r) = Allocated a z size bs r

behind-Searched :
    (b : Block) (size : ℕ) (bs : List Block) (a z : ℕ) (found : Option (List Block × ℕ))
    → b.addr ≡ a
    → Searched (a + header + b.size) z size bs found
    → Searched a z size (b ∷ bs) (behind b found)
behind-Searched b size bs a z none at v = tt
behind-Searched b size bs a z (some r) at v = behind-Allocated b size bs a z r at v

pub alloc_in-Searched :
    (size : ℕ) (bs : List Block) (a z : ℕ)
    → Tiles a bs z
    → size + 36 < 2 ^ 32
    → z < 2 ^ 32
    → Searched a z size bs (alloc_in size bs)
unfolding alloc_in
alloc_in-Searched size [] a z t small low = tt
alloc_in-Searched size (b ∷ bs) a z (at, t) small low =
    elim (Bool-cases (b.free && leb size b.size)) [
      | inl fits ↦ rw fits (split_block-Allocated b size bs a z (at, t) small low fits)
      | inr not_this ↦ rw not_this (
          behind-Searched b size bs a z (alloc_in size bs) at
            (alloc_in-Searched size bs (a + header + b.size) z t small low))
    ]

-- A block at the end of the heap.
pub Tiles-append :
    (bs : List Block) (a z size : ℕ)
    → Tiles a bs z
    → Tiles a (bs ++ (record { addr = z; size = size; free = true } ∷ [])) (z + header + size)
Tiles-append [] a z size t = (sym t, omega arith)
Tiles-append (b ∷ bs) a z size (at, t) = (at, Tiles-append bs (a + header + b.size) z size t)

pub in_use-append :
    (bs cs : List Block) (x n : ℕ) → in_use bs x n ≡ true → in_use (bs ++ cs) x n ≡ true
in_use-append [] cs x n h = cc
in_use-append (b ∷ bs) cs x n h = ground (arith, in_use-append bs cs x n)

merge_next-Tiles :
    (b : Block) (bs : List Block) (a z : ℕ)
    → Tiles a (b ∷ bs) z
    → z < 2 ^ 32
    → Tiles a (merge_next b bs) z
merge_next-Tiles b [] a z t low = t
merge_next-Tiles b (c ∷ bs) a z (at, (next, t)) low =
    let inside = Tiles-le bs _ z t in
    elim (Bool-cases c.free) [
      | inl free ↦ rw free (at, subst (λ k. Tiles k bs z) (omega arith) t)
      | inr used ↦ rw used (at, (next, t))
    ]

-- Freeing a block, with its neighbours or not, leaves no gap and no overlap.
pub free_in-Tiles :
    (bs : List Block) (a z p : ℕ) → Tiles a bs z → z < 2 ^ 32 → Tiles a (free_in bs p) z
unfolding free_in
free_in-Tiles [] a z p t low = t
free_in-Tiles (b ∷ bs) a z p (at, t) low = elim (Bool-cases (b.addr + header == p)) [
  | inl this ↦ rw this (merge_next-Tiles (record b { free = true }) bs a z (at, t) low)
  | inr later ↦
      let rest = free_in-Tiles bs (a + header + b.size) z p t low in
      elim (Bool-cases (is_first bs p && b.free)) [
        | inl joins ↦ rw (later, joins) (merge_next-Tiles b (free_in bs p) a z (at, rest) low)
        | inr apart ↦ rw (later, apart) (at, rest)
      ]
]

merge_next-in_use :
    (b : Block) (bs : List Block) (x n : ℕ)
    → b.free ≡ true
    → in_use (merge_next b bs) x n ≡ in_use bs x n
merge_next-in_use b [] x n free = ground arith
merge_next-in_use b (c ∷ bs) x n free = elim (Bool-cases c.free) [
  | inl next ↦ ground arith
  | inr used ↦ ground arith
]

-- Freeing takes the block at the pointer out of use and no other.
pub free_in-in_use :
    (bs : List Block) (a z p x n : ℕ)
    → Tiles a bs z
    → in_use (free_in bs p) x n ≡ (in_use bs x n && not (x + header == p))
unfolding free_in
free_in-in_use [] a z p x n t = refl
free_in-in_use (b ∷ bs) a z p x n (at, t) = elim (Bool-cases (b.addr + header == p)) [
  | inl this ↦ rw this (
      ground (
        arith,
        merge_next-in_use (record b { free = true }) bs x n refl,
        in_use-below bs (a + header + b.size) z x n t,
      ))
  | inr later ↦
      let rest = free_in-in_use bs (a + header + b.size) z p x n t in
      elim (Bool-cases (is_first bs p && b.free)) [
        | inl joins ↦
            rw (later, joins) (ground (arith, merge_next-in_use b (free_in bs p) x n, rest))
        | inr apart ↦ rw (later, apart) (ground (arith, rest))
      ]
]
