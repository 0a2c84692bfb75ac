-- ===== src/Memory/Slab/Tests.antt =====
-- Runs of the slabs, and the theorem about them at a concrete state.
use char_os.Base.{◌≡◌, ◌==◌, if◌then◌else◌, none, some, [], ◌∷◌, refl, arith}
use char_os.Memory.Slab.{Slab, Slabs, cls_for, takes_link, slab_alloc, slab_free, shrink}
use char_os.Memory.Slab.Count.{IsCounted, slabs-IsCounted}

abbrev empty : Slabs
empty = record { caches = λ cls. []; frames = 0x3000 ∷ 0x4000 ∷ [] }

-- The first object of 2048 bytes lies behind the header of its slab.
first_object : (slab_alloc empty 2000).1 ≡ some 0x3030
unfolding slab_alloc
first_object = refl

refuses_large : (slab_alloc empty 4000).1 ≡ none
unfolding slab_alloc
refuses_large = refl

-- A slab of one object of 2048 bytes that is taken, and one where it is free.
abbrev used_up : Slab
used_up = record { base = 0x3000; free = 0; total = 1; objects = [] }

abbrev full : Slab
full = record { base = 0x3000; free = 1; total = 1; objects = 0x3030 ∷ [] }

abbrev one_taken : Slabs
one_taken = record { caches = λ cls. if cls == 8 then used_up ∷ [] else []; frames = 0x4000 ∷ [] }

one_taken-IsCounted : IsCounted one_taken
one_taken-IsCounted = record { counted = λ cls. ground arith }

-- The object that was taken cannot be given back twice.
freed_twice : slab_free (record empty { caches = λ cls. full ∷ [] }) 0x3030 2000 ≡ none
unfolding slab_free
freed_twice = refl

slabs-IsCounted_example :
    IsCounted (slab_alloc one_taken 2000).0
    × ((f : Slabs) × (slab_free one_taken 0x3030 2000 ≡ some f) × IsCounted f)
    × IsCounted (shrink one_taken).0
slabs-IsCounted_example =
    slabs-IsCounted one_taken 2000 0x3030 one_taken-IsCounted (unfold cls_for takes_link in refl)
