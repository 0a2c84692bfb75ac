-- ===== src/Memory/Pmm/Sharing.antt =====
-- kernel/memory/pmm.c: shared frames, and any sequence of calls after `pmm_init`.
use char_os.Base.{ℕ, zero, suc, ◌+◌, ◌*◌, ◌<◌, ◌≡◌, true, false, arith, subst, List, [], ◌∷◌}
use char_os.Memory.Pmm.Bitmap.{bitmap_test, bitmap_test-clear}
use char_os.Memory.Pmm.Count.{IsCounted}
use char_os.Memory.Pmm.Frames.{
  alloc_frame-IsCounted, free_frame-IsCounted, inc_ref-IsCounted, dec_ref-IsCounted,
}
use char_os.Memory.Pmm.Region.{reserve_region-IsCounted}
use char_os.Memory.Pmm.{
  Pmm, max_frames, page_size, alloc_frame, free_frame, inc_ref, dec_ref, reserve_region,
}

-- `free_frame` on one address, `k` times.
pub free_times : ℕ → Pmm → ℕ → Pmm
free_times zero s phys = s
free_times (suc k) s phys = free_times k (free_frame s phys) phys

-- Frame `f` is taken, by `n` users.
pub record Shared (s : Pmm) (f n : ℕ) : Type 0 where
  pub managed : (0 < f) × (f < max_frames)
  pub taken : bitmap_test s.bitmap f ≡ true
  pub users : s.refcount f ≡ n

free_frame-Shared :
    (s : Pmm) (f n : ℕ) → Shared s f (suc (suc n)) → Shared (free_frame s (f * page_size)) f (suc n)
unfolding free_frame
free_frame-Shared s f n v = record {
  managed = v.managed;
  taken = ground (arith, v.taken, v.managed, v.users);
  users = ground (arith, v.taken, v.managed, v.users);
}

free_frame_last :
    (s : Pmm) (f : ℕ)
    → Shared s f 1
    → let t = free_frame s (f * page_size) in (bitmap_test t.bitmap f ≡ false) × (t.refcount f ≡ 0)
unfolding free_frame
free_frame_last s f v = ground (arith, v.taken, v.managed, v.users, bitmap_test-clear s.bitmap f f)

-- A frame with `k + n` users, `n > 0`, is still taken, by `n` users, after `k` calls of
-- `free_frame`.
pub free_times-Shared :
    (k n : ℕ) (s : Pmm) (f : ℕ)
    → Shared s f (k + suc n)
    → Shared (free_times k s (f * page_size)) f (suc n)
unfolding free_times
free_times-Shared zero n s f v = record {
  managed = v.managed;
  taken = v.taken;
  users = omega (arith, v.users);
}
free_times-Shared (suc k) n s f v = free_times-Shared k n (free_frame s (f * page_size)) f (
    subst (Shared (free_frame s (f * page_size)) f) (omega arith)
      (free_frame-Shared s f (k + n) step))
  where
    step : Shared s f (suc (suc (k + n)))
    step = record { managed = v.managed; taken = v.taken; users = omega (arith, v.users) }

-- Exactly as many calls as there are users give the frame back.
pub free_times_all :
    (n : ℕ) (s : Pmm) (f : ℕ)
    → Shared s f (suc n)
    → let t = free_times n s (f * page_size) in
      (bitmap_test t.bitmap f ≡ true)
      × (bitmap_test (free_frame t (f * page_size)).bitmap f ≡ false)
      × ((free_frame t (f * page_size)).refcount f ≡ 0)
free_times_all n s f v =
    let w =
      free_times-Shared n 0 s f
        (record { managed = v.managed; taken = v.taken; users = omega (arith, v.users) }) in
    let (gone, unused) = free_frame_last (free_times n s (f * page_size)) f w in
    (w.taken, gone, unused)

-- The calls that the rest of the kernel makes.
pub data Call : Type 0 where
  allocs : Call
  frees shares drops : ℕ → Call
  reserves : ℕ → ℕ → Call

pub step : Pmm → Call → Pmm
step s allocs = (alloc_frame s).1
step s (frees phys) = free_frame s phys
step s (shares phys) = inc_ref s phys
step s (drops phys) = dec_ref s phys
step s (reserves base length) = reserve_region s base length

pub run : Pmm → List Call → Pmm
run s [] = s
run s (c ∷ cs) = run (step s c) cs

step-IsCounted : (d : ℕ) (s : Pmm) (c : Call) → IsCounted d s → IsCounted d (step s c)
unfolding step
step-IsCounted d s allocs v = alloc_frame-IsCounted d s v
step-IsCounted d s (frees phys) v = free_frame-IsCounted d s phys v
step-IsCounted d s (shares phys) v = inc_ref-IsCounted d s phys v
step-IsCounted d s (drops phys) v = dec_ref-IsCounted d s phys v
step-IsCounted d s (reserves base length) v = reserve_region-IsCounted d s base length v

-- No sequence of calls moves the counter away from the number of free frames, leaves a user on a
-- free frame or overflows a count.
pub run-IsCounted : (d : ℕ) (s : Pmm) (cs : List Call) → IsCounted d s → IsCounted d (run s cs)
unfolding run
run-IsCounted d s [] v = v
run-IsCounted d s (c ∷ cs) v = run-IsCounted d (step s c) cs (step-IsCounted d s c v)
