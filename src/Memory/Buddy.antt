-- ===== src/Memory/Buddy.antt =====
-- kernel/arch/x86_64/buddy64.c: blocks of 2 ^ order frames, with a bitmap of the free blocks for each
-- order in words of 64 bits. A negative order is refused by the source and is none here.
mod Tests
use char_os.Base.{
  ℕ, zero, suc, ◌+◌, ◌-◌, ◌*◌, ◌/◌, ◌%◌, ◌^◌, Bool, true, false, not, ◌&&◌, ◌||◌, Option, none,
  some, List, [], ◌∷◌, ◌==◌, ltb, leb, if◌then◌else◌, update, scan, bit_and, bit_or, bit_xor,
}
use char_os.Base.Bits.{bit_not}

abbrev pub max_order : ℕ
max_order = 9

abbrev pub frame_size : ℕ
frame_size = 4096

-- `bcount`: the blocks of an order in 2 GiB.
abbrev pub bcount : ℕ → ℕ
bcount o = 2 ^ 19 / 2 ^ o

pub record Buddy : Type 0 where
  pub free_map : ℕ → ℕ → ℕ
  pub base : ℕ
  pub orders : ℕ
  pub ready : Bool

abbrev pub set_word : Buddy → ℕ → ℕ → ℕ → Buddy
set_word s o w v = record s { free_map = update s.free_map o (update (s.free_map o) w v) }

unfoldable pub bset : Buddy → ℕ → ℕ → Buddy
bset s o b = set_word s o (b / 64) (bit_or (s.free_map o (b / 64)) (2 ^ (b % 64)))

unfoldable pub bclear : Buddy → ℕ → ℕ → Buddy
unfolding bit_not
bclear s o b = set_word s o (b / 64) (bit_and (s.free_map o (b / 64)) (bit_not 64 (2 ^ (b % 64))))

unfoldable pub bget : Buddy → ℕ → ℕ → Bool
bget s o b = s.free_map o (b / 64) / 2 ^ (b % 64) % 2 == 1

-- `none` is a negative result.
unfoldable pub buddy_init : Buddy → ℕ → ℕ → Buddy × Option ℕ
unfolding bset
buddy_init s base_frame order =
    if ltb max_order order || not (base_frame % 2 ^ order == 0) then (s, none) else (
      bset
          (record {
            free_map = λ o w. if leb o max_order && ltb w 8192 then 0 else s.free_map o w;
            base = base_frame;
            orders = order;
            ready = true;
          })
          order 0,
      some 0,
    )

-- The rounds of `while (o > order)`, `k` of them: the state and the left block at the end.
pub halve : Buddy → ℕ → ℕ → ℕ → Buddy × ℕ
unfolding bset
halve s o b zero = (s, b)
halve s o b (suc k) = halve (bset s (o - 1) (b * 2 + 1)) (o - 1) (b * 2) k

-- The address of block `b` of an order.
abbrev pub block_address : Buddy → ℕ → ℕ → ℕ
block_address s order b = (s.base / frame_size + b * 2 ^ order) * frame_size % 2 ^ 64

-- What is done with a free block `b` of order `o`.
abbrev pub hand_out : Buddy → ℕ → ℕ → ℕ → Buddy × ℕ
hand_out s order o b =
    let (t, left) = halve (bclear s o b) o b (o - order) in (t, block_address s order left)

-- The orders from `o` on, `n` of them.
pub alloc_from : Buddy → ℕ → ℕ → ℕ → Buddy × ℕ
unfolding bget bclear halve
alloc_from s order o zero = (s, 0)
alloc_from s order o (suc n) =
    let later = alloc_from s order (o + 1) n in
    elim (scan (λ b. bget s o b) 0 (bcount o)) [ some b ↦ hand_out s order o b | none ↦ later ]

-- 0 where there is no block.
unfoldable pub buddy_alloc : Buddy → ℕ → Buddy × ℕ
unfolding alloc_from
buddy_alloc s order =
    if not s.ready || ltb s.orders order
    then (s, 0)
    else alloc_from s order order (s.orders + 1 - order)

-- The rounds of the loop of `buddy64_free` that joins a block with its buddy, `n` of them at most.
pub join : Buddy → ℕ → ℕ → ℕ → Buddy
unfolding bset bclear bget
join s o b zero = bset s o b
join s o b (suc n) =
    let buddy = bit_xor b 1 in
    let joined = join (bclear s o buddy) (o + 1) (b / 2) n in
    if leb (bcount o) buddy || not (bget s o buddy) then bset s o b else joined

unfoldable pub buddy_free : Buddy → ℕ → ℕ → Buddy
unfolding join
buddy_free s frame order =
    let b = (frame / frame_size + 2 ^ 64 - s.base / frame_size) % 2 ^ 64 / 2 ^ order in
    if not s.ready || ltb s.orders order || ltb frame s.base || leb (bcount order) b
    then s
    else join s order b (s.orders - order)

-- `n` blocks from `b` on.
pub count_from : Buddy → ℕ → ℕ → ℕ → ℕ
unfolding bget
count_from s order b zero = 0
count_from s order b (suc n) = (if bget s order b then 1 else 0) + count_from s order (b + 1) n

unfoldable pub free_count : Buddy → ℕ → ℕ
unfolding count_from
free_count s order =
    if not s.ready || ltb s.orders order then 0 else count_from s order 0 (bcount order)
