-- ===== src/Memory/Buddy/Tests.antt =====
-- Runs of the buddy allocator.
use char_os.Base.{◌≡◌, true, false, refl, scan}
use char_os.Memory.Buddy.{Buddy, bget, buddy_init, buddy_alloc, buddy_free}

abbrev blank : Buddy
blank = record { free_map = λ o w. 0; base = 0; orders = 0; ready = false }

-- Sixteen frames from the address 0x10000 on.
abbrev arena : Buddy
arena = (buddy_init blank 0x10000 4).0

takes_the_first : (buddy_alloc arena 2).1 ≡ 0x10000
unfolding buddy_alloc buddy_init bget scan
takes_the_first = refl

joins_again : bget (buddy_free (buddy_alloc arena 4).0 0x10000 4) 4 0 ≡ true
unfolding buddy_alloc buddy_init buddy_free bget scan
joins_again = refl
