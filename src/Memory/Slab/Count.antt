-- ===== src/Memory/Slab/Count.antt =====
-- kernel/arch/x86_64/slab64.c: the counter of a slab is the number of its free objects.
use char_os.Base.{
  ℕ, zero, suc, ◌+◌, ◌≡◌, Bool, true, false, ◌&&◌, ◌||◌, Option, none, some, List, [], ◌∷◌, ◌==◌,
  length, arith, refl, ap, sym, inl, inr, Bool-cases,
}
use char_os.Memory.Slab.{
  Slab, Slabs, classes, class_size, cls_for, objects_from, new_slab, take_first, take_object,
  with_cache, handed, alloc_new, or_new, alloc_in, slab_alloc, belongs, takes_link, give_back,
  free_in, slab_free, shrink_list, give_frames, shrink_from, shrink,
}

-- Every counter in a list of slabs is right.
abbrev pub AllCounted : List Slab → Type 0
AllCounted [] = Unit
AllCounted (s ∷ ss) = (s.free ≡ length s.objects) × AllCounted ss

pub record IsCounted (m : Slabs) : Type 0 where
  pub counted : (cls : ℕ) → AllCounted (m.caches cls)

length-objects_from : (addr objsz n : ℕ) → length (objects_from addr objsz n) ≡ n
unfolding objects_from
length-objects_from addr objsz zero = refl
length-objects_from addr objsz (suc n) = ap suc (length-objects_from (addr + objsz) objsz n)

abbrev FoundCounted : Option (List Slab × ℕ) → Type 0
FoundCounted none = Unit
FoundCounted (some r) = AllCounted r.0

take_first-FoundCounted :
    (s : Slab) (ss : List Slab) (objects : List ℕ) (later : Option (List Slab × ℕ))
    → s.free ≡ length objects
    → s.free ≡ length s.objects
    → AllCounted ss
    → FoundCounted later
    → FoundCounted (take_first s ss objects later)
take_first-FoundCounted s ss (obj ∷ rest) later e c cs l = (omega arith, cs)
take_first-FoundCounted s ss [] none e c cs l = tt
take_first-FoundCounted s ss [] (some (ts, obj)) e c cs l = (c, l)

take_object-FoundCounted : (ss : List Slab) → AllCounted ss → FoundCounted (take_object ss)
unfolding take_object
take_object-FoundCounted [] c = tt
take_object-FoundCounted (s ∷ ss) (c, cs) =
    take_first-FoundCounted s ss s.objects (take_object ss) c c cs (take_object-FoundCounted ss cs)

with_cache-IsCounted :
    (m : Slabs) (cls : ℕ) (ss : List Slab)
    → IsCounted m
    → AllCounted ss
    → IsCounted (with_cache m cls ss)
with_cache-IsCounted m cls ss v c = record {
  counted = λ k. elim (Bool-cases (k == cls)) [ inl e ↦ rw e c | inr ne ↦ rw ne (v.counted k) ];
}

handed-IsCounted :
    (m : Slabs) (cls : ℕ) (found : Option (List Slab × ℕ))
    → IsCounted m
    → FoundCounted found
    → IsCounted (handed m cls found).0
handed-IsCounted m cls none v c = v
handed-IsCounted m cls (some (ss, obj)) v c = with_cache-IsCounted m cls ss v c

alloc_new-IsCounted :
    (m : Slabs) (cls : ℕ) (frames : List ℕ) → IsCounted m → IsCounted (alloc_new m cls frames).0
alloc_new-IsCounted m cls [] v = v
alloc_new-IsCounted m cls (frame ∷ frames) v =
    handed-IsCounted (record m { frames = frames }) cls
      (take_object (new_slab frame (class_size cls) ∷ m.caches cls))
      (record { counted = v.counted })
      (take_object-FoundCounted (new_slab frame (class_size cls) ∷ m.caches cls)
        (sym (length-objects_from _ (class_size cls) _), v.counted cls))

slab_alloc-IsCounted : (m : Slabs) (size : ℕ) → IsCounted m → IsCounted (slab_alloc m size).0
unfolding slab_alloc
slab_alloc-IsCounted m size v = in_class (cls_for size)
  where
    found : (cls : ℕ) (r : Option (List Slab × ℕ)) → FoundCounted r → IsCounted (or_new m cls r).0
    found cls none c = alloc_new-IsCounted m cls m.frames v
    found cls (some r) c = handed-IsCounted m cls (some r) v c

    in_class : (cls : Option ℕ) → IsCounted (alloc_in m cls).0
    in_class none = v
    in_class (some cls) =
        found cls (take_object (m.caches cls))
          (take_object-FoundCounted (m.caches cls) (v.counted cls))

give_back-AllCounted :
    (ss : List Slab) (addr objsz : ℕ) → AllCounted ss → AllCounted (give_back ss addr objsz)
unfolding give_back
give_back-AllCounted [] addr objsz c = tt
give_back-AllCounted (s ∷ ss) addr objsz (c, cs) = elim (Bool-cases (belongs s addr objsz)) [
  | inl here ↦ rw here (omega arith, cs)
  | inr later ↦ rw later (c, give_back-AllCounted ss addr objsz cs)
]

-- Whether a call of `slab_free` stores its link where no other use of the memory is.
abbrev pub can_free : Slabs → ℕ → Option ℕ → Bool
can_free m addr none = true
can_free m addr (some cls) = takes_link (m.caches cls) addr (class_size cls)

slab_free-IsCounted :
    (m : Slabs) (addr size : ℕ)
    → IsCounted m
    → can_free m addr (cls_for size) ≡ true
    → (f : Slabs) × (slab_free m addr size ≡ some f) × IsCounted f
unfolding slab_free
slab_free-IsCounted m addr size v can = elim (Bool-cases (addr == 0)) [
  | inl null ↦ rw null (m, refl, v)
  | inr fine ↦ rw fine (in_class (cls_for size) can)
]
  where
    in_class :
        (cls : Option ℕ)
        → can_free m addr cls ≡ true
        → (f : Slabs) × (free_in m addr cls ≡ some f) × IsCounted f
    in_class none can = (m, refl, v)
    in_class (some cls) can =
        let back = give_back (m.caches cls) addr (class_size cls) in
        (
          with_cache m cls back,
          rw can refl,
          with_cache-IsCounted m cls back v
              (give_back-AllCounted (m.caches cls) addr (class_size cls) (v.counted cls)),
        )

shrink_list-AllCounted :
    (spare : Bool) (ss : List Slab) → AllCounted ss → AllCounted (shrink_list spare ss).0
unfolding shrink_list
shrink_list-AllCounted spare [] c = tt
shrink_list-AllCounted spare (s ∷ ss) (c, cs) =
    let rest = shrink_list-AllCounted (spare || (s.free == s.total)) ss cs in
    elim (Bool-cases ((s.free == s.total) && spare)) [
      | inl gone ↦ rw gone rest
      | inr kept ↦ rw kept (c, rest)
    ]

shrink_from-IsCounted :
    (n : ℕ) (m : Slabs) (cls : ℕ) → IsCounted m → IsCounted (shrink_from m cls n).0
unfolding shrink_from
shrink_from-IsCounted zero m cls v = v
shrink_from-IsCounted (suc n) m cls v =
    let r = shrink_list false (m.caches cls) in
    let w =
      with_cache-IsCounted m cls r.0 v
        (shrink_list-AllCounted false (m.caches cls) (v.counted cls)) in
    shrink_from-IsCounted n (give_frames (with_cache m cls r.0) r.1) (cls + 1)
      (record { counted = w.counted })

-- Taking an object, giving one back and shrinking keep the counter of every slab the number of its
-- free objects; taking and shrinking whether they succeed or not. Giving back succeeds, for an address
-- that, if it belongs to a slab, lies behind the header and is not free already.
pub slabs-IsCounted :
    (m : Slabs) (size addr : ℕ)
    → IsCounted m
    → can_free m addr (cls_for size) ≡ true
    → IsCounted (slab_alloc m size).0
      × ((f : Slabs) × (slab_free m addr size ≡ some f) × IsCounted f)
      × IsCounted (shrink m).0
unfolding shrink
slabs-IsCounted m size addr v can = (
  slab_alloc-IsCounted m size v,
  slab_free-IsCounted m addr size v can,
  shrink_from-IsCounted classes m 0 v,
)
