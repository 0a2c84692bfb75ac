-- ===== src/Memory/Slab.antt =====
-- kernel/arch/x86_64/slab64.c: objects of nine sizes, cut out of frames. A slab lies at the start of
-- its frame; its free objects are the list of their addresses that the links in them make, and the
-- slabs of a class are the list that their `next` pointers make. The frames that
-- pmm64_alloc_frame will give are a list; a frame is taken for its address, and pmm64_free_frame
-- puts one back. Freeing stores a link in the object: where it would lie in the header of the slab, or
-- in an object that is free already, the store overwrites what the lists stand for; that is not
-- described, and the result is `none`.
pub mod Count
mod Tests
use char_os.Base.{
  ℕ, zero, suc, ◌+◌, ◌-◌, ◌*◌, ◌/◌, ◌%◌, ◌^◌, Bool, true, false, not, ◌&&◌, ◌||◌, Option, none,
  some, List, [], ◌∷◌, ◌++◌, ◌==◌, ltb, leb, if◌then◌else◌, update, length,
}

abbrev pub classes : ℕ
classes = 9

abbrev pub frame_size : ℕ
frame_size = 4096

-- `sizeof(struct slab64)`
abbrev pub slab_header : ℕ
slab_header = 48

-- `slab64_sizes`, the powers of two from 8 to 2048.
abbrev pub class_size : ℕ → ℕ
class_size cls = if ltb cls classes then 8 * 2 ^ cls else 0

-- The first class from `i` on that is large enough.
pub cls_from : ℕ → ℕ → ℕ → Option ℕ
cls_from size i zero = none
cls_from size i (suc n) =
    let later = cls_from size (i + 1) n in
    if leb size (class_size i) && ltb 0 size then some i else later

unfoldable pub cls_for : ℕ → Option ℕ
unfolding cls_from
cls_for size = cls_from size 0 classes

-- `struct slab64`, whose `magic` is always right, at its address.
pub record Slab : Type 0 where
  pub base : ℕ
  pub free : ℕ
  pub total : ℕ
  pub objects : List ℕ

pub record Slabs : Type 0 where
  pub caches : ℕ → List Slab
  pub frames : List ℕ

-- `n` objects of a size, from an address on.
pub objects_from : ℕ → ℕ → ℕ → List ℕ
objects_from addr objsz zero = []
objects_from addr objsz (suc n) = addr ∷ objects_from (addr + objsz) objsz n

abbrev pub new_slab : ℕ → ℕ → Slab
new_slab frame objsz =
    let n = (frame_size - slab_header) / objsz in
    record {
      base = frame;
      free = n;
      total = n;
      objects = objects_from (frame + slab_header) objsz n;
    }

-- What is taken of a slab with the objects, or else of the slabs behind it.
abbrev pub take_first : Slab → List Slab → List ℕ → Option (List Slab × ℕ) → Option (List Slab × ℕ)
take_first s ss (obj ∷ rest) later = some (record s { objects = rest; free = s.free - 1 } ∷ ss, obj)
take_first s ss [] none = none
take_first s ss [] (some (ts, obj)) = some (s ∷ ts, obj)

-- The first slab of a list that has an object, which is taken from it.
pub take_object : List Slab → Option (List Slab × ℕ)
take_object [] = none
take_object (s ∷ ss) = take_first s ss s.objects (take_object ss)

abbrev pub with_cache : Slabs → ℕ → List Slab → Slabs
with_cache m cls ss = record m { caches = update m.caches cls ss }

abbrev pub handed : Slabs → ℕ → Option (List Slab × ℕ) → Slabs × Option ℕ
handed m cls none = (m, none)
handed m cls (some (ss, obj)) = (with_cache m cls ss, some obj)

-- `slab64_new` and the object that is taken from the new slab.
abbrev pub alloc_new : Slabs → ℕ → List ℕ → Slabs × Option ℕ
alloc_new m cls [] = (m, none)
alloc_new m cls (frame ∷ frames) =
    handed (record m { frames = frames }) cls
      (take_object (new_slab frame (class_size cls) ∷ m.caches cls))

abbrev pub or_new : Slabs → ℕ → Option (List Slab × ℕ) → Slabs × Option ℕ
or_new m cls none = alloc_new m cls m.frames
or_new m cls (some r) = handed m cls (some r)

abbrev pub alloc_in : Slabs → Option ℕ → Slabs × Option ℕ
alloc_in m none = (m, none)
alloc_in m (some cls) = or_new m cls (take_object (m.caches cls))

-- `none` is the null pointer.
unfoldable pub slab_alloc : Slabs → ℕ → Slabs × Option ℕ
unfolding take_object cls_for objects_from
slab_alloc m size = alloc_in m (cls_for size)

-- The test of `slab64_free`; the difference wraps for an address inside the header.
abbrev pub belongs : Slab → ℕ → ℕ → Bool
belongs s addr objsz =
    ltb s.base addr
    && ltb addr (s.base + frame_size)
    && ((addr - s.base + 2 ^ 64 - slab_header) % 2 ^ 64 % objsz == 0)

abbrev pub is_listed : ℕ → List ℕ → Bool
is_listed addr [] = false
is_listed addr (obj ∷ rest) = addr == obj || is_listed addr rest

-- Whether the slab that takes the object back can hold its link: the object lies behind the header and
-- is not free already. No slab takes an address that belongs to none.
pub takes_link : List Slab → ℕ → ℕ → Bool
takes_link [] addr objsz = true
takes_link (s ∷ ss) addr objsz =
    let later = takes_link ss addr objsz in
    if belongs s addr objsz
    then leb (s.base + slab_header) addr && not (is_listed addr s.objects)
    else later

pub give_back : List Slab → ℕ → ℕ → List Slab
give_back [] addr objsz = []
give_back (s ∷ ss) addr objsz =
    let later = give_back ss addr objsz in
    if belongs s addr objsz
    then record s { objects = addr ∷ s.objects; free = s.free + 1 } ∷ ss
    else s ∷ later

abbrev pub free_in : Slabs → ℕ → Option ℕ → Option Slabs
free_in m addr none = some m
free_in m addr (some cls) =
    if takes_link (m.caches cls) addr (class_size cls)
    then some (with_cache m cls (give_back (m.caches cls) addr (class_size cls)))
    else none

-- A pointer of 0 is null.
unfoldable pub slab_free : Slabs → ℕ → ℕ → Option Slabs
unfolding takes_link give_back cls_for
slab_free m addr size = if addr == 0 then some m else free_in m addr (cls_for size)

-- The slabs of a class that stay, given that an empty one was kept before or not, and the frames of
-- those that go.
pub shrink_list : Bool → List Slab → List Slab × List ℕ
shrink_list spare [] = ([], [])
shrink_list spare (s ∷ ss) =
    let empty = s.free == s.total in
    let (kept, gone) = shrink_list (spare || empty) ss in
    if empty && spare then (kept, s.base ∷ gone) else (s ∷ kept, gone)

abbrev pub give_frames : Slabs → List ℕ → Slabs
give_frames m gone = record m { frames = gone ++ m.frames }

pub shrink_from : Slabs → ℕ → ℕ → Slabs × ℕ
unfolding shrink_list
shrink_from m cls zero = (m, 0)
shrink_from m cls (suc n) =
    let (kept, gone) = shrink_list false (m.caches cls) in
    let (t, freed) = shrink_from (give_frames (with_cache m cls kept) gone) (cls + 1) n in
    (t, freed + length gone)

unfoldable pub shrink : Slabs → Slabs × ℕ
unfolding shrink_from
shrink m = shrink_from m 0 classes
