-- ===== src/Memory/Pmm/Tests.antt =====
-- Runs of the frame allocator, and the theorems about it at concrete states.
use char_os.Base.{
  ℕ, ◌*◌, ◌≡◌, ◌⊎◌, true, not, ◌&&◌, refl, arith, ◌==◌, update, some, List, [], ◌∷◌, scan,
}
use char_os.Memory.Pmm.Bitmap.{bitmap_test, bitmap_set}
use char_os.Memory.Pmm.Count.{IsCounted}
use char_os.Memory.Pmm.Frames.{Takes, Refuses, alloc_frame_cases}
use char_os.Memory.Pmm.Init.{MmapEntry, blank, free_memory, init}
use char_os.Memory.Pmm.Init.Boot.{offered, is_kernel, init-free, init-IsCounted, null_slack}
use char_os.Memory.Pmm.Sharing.{allocs, frees, shares, drops, reserves, run, run-IsCounted}
use char_os.Memory.Pmm.{Pmm, max_frames, page_size, alloc_frame, free_frame, inc_ref, get_ref}

-- All frames taken but 322 and 323.
abbrev nearly_full : Pmm
nearly_full = record {
  bitmap = update (λ i. 0xFF) 40 0xF3;
  refcount = update (update (λ f. 1) 322 0) 323 0;
  free_frames = 2;
  total_frames = max_frames;
  ready = true;
}

-- Two allocations take both frames; a shared frame goes back with its last user.
alloc_twice : (alloc_frame nearly_full).0 ≡ 322 * page_size
unfolding alloc_frame scan bitmap_test
alloc_twice = refl

share_and_free :
    let s = inc_ref (alloc_frame nearly_full).1 (322 * page_size) in
    get_ref (free_frame s (322 * page_size)) (322 * page_size) ≡ some 1
unfolding alloc_frame scan bitmap_test inc_ref free_frame get_ref bitmap_set
share_and_free = refl

alloc_frame_cases_example :
    ((f : ℕ) × Takes nearly_full f (alloc_frame nearly_full))
    ⊎ Refuses nearly_full (alloc_frame nearly_full)
alloc_frame_cases_example = alloc_frame_cases nearly_full refl

-- The map of a PC with 256 MiB.
abbrev pc_map : List MmapEntry
pc_map =
    record { base_addr = 0; length = 0x9FC00; kind = 1 }
    ∷ record { base_addr = 0x9FC00; length = 0x400; kind = 2 }
    ∷ record { base_addr = 0x100000; length = 0xFEE0000; kind = 1 }
    ∷ []

init-free_example :
    not (
      bitmap_test
        (init (some (record { has_mmap = true; mem_upper = 0; mmap = pc_map })) 0x400000).bitmap
        4096)
    ≡ (offered pc_map 4096 && not (4096 == 0) && not (is_kernel 0x400000 4096))
init-free_example =
    init-free 0 0x400000 4096 pc_map (omega arith) (omega arith) (omega arith) (omega arith)

abbrev shared_frame : Pmm
shared_frame = record nearly_full { refcount = update (λ f. 1) 400 3 }

abbrev pc_counted : ℕ
pc_counted =
    null_slack (free_memory blank (some (record { has_mmap = true; mem_upper = 0; mmap = pc_map })))

run-IsCounted_example : IsCounted pc_counted (
    run
      (init (some (record { has_mmap = true; mem_upper = 0; mmap = pc_map })) 0x400000)
      (allocs ∷ shares 0x800000 ∷ frees 0x800000 ∷ reserves 0x900000 0x3000 ∷ drops 0x800000 ∷ []))
run-IsCounted_example =
    run-IsCounted pc_counted
      (init (some (record { has_mmap = true; mem_upper = 0; mmap = pc_map })) 0x400000)
      (allocs ∷ shares 0x800000 ∷ frees 0x800000 ∷ reserves 0x900000 0x3000 ∷ drops 0x800000 ∷ [])
      (init-IsCounted (some (record { has_mmap = true; mem_upper = 0; mmap = pc_map })) 0x400000)
