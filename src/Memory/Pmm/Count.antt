-- ===== src/Memory/Pmm/Count.antt =====
-- kernel/memory/pmm.c: the number of free frames against the counter `pmm_free_frames`.
use char_os.Base.{true, false, ◌^◌, ℕ, zero, suc, ◌+◌, ◌≤◌, ◌<◌, ◌≡◌, if◌then◌else◌, arith, refl}
use char_os.Memory.Pmm.Bitmap.{
  Bytes, bitmap_test, bitmap_set, bitmap_clear, bitmap_test-set, bitmap_test-clear,
}
use char_os.Memory.Pmm.{Pmm, max_frames}

-- How many of the frames below `n` are free.
pub free_below : ℕ → Bytes → ℕ
free_below zero b = 0
free_below (suc n) b = (if bitmap_test b n then 0 else 1) + free_below n b

pub free_below-le : (n : ℕ) (b : Bytes) → free_below n b ≤ n
unfolding free_below
free_below-le zero b = omega arith
free_below-le (suc n) b = ground (arith, free_below-le n b)

-- A bit outside the range does not count.
free_below-set_above :
    (n f : ℕ) (b : Bytes) → n ≤ f → free_below n (bitmap_set b f) ≡ free_below n b
unfolding free_below
free_below-set_above zero f b h = refl
free_below-set_above (suc n) f b h =
    ground (arith, bitmap_test-set b f n, free_below-set_above n f b)

free_below-clear_above :
    (n f : ℕ) (b : Bytes) → n ≤ f → free_below n (bitmap_clear b f) ≡ free_below n b
unfolding free_below
free_below-clear_above zero f b h = refl
free_below-clear_above (suc n) f b h =
    ground (arith, bitmap_test-clear b f n, free_below-clear_above n f b)

-- Taking a free frame lowers the number by one, taking a taken one leaves it.
pub free_below-set :
    (n f : ℕ) (b : Bytes)
    → f < n
    → free_below n (bitmap_set b f) + (if bitmap_test b f then 0 else 1) ≡ free_below n b
unfolding free_below
free_below-set zero f b h = absurd (omega arith)
free_below-set (suc n) f b h =
    ground (arith, bitmap_test-set b f n, free_below-set n f b, free_below-set_above n f b)

pub free_below-clear :
    (n f : ℕ) (b : Bytes)
    → f < n
    → free_below n (bitmap_clear b f) ≡ free_below n b + (if bitmap_test b f then 1 else 0)
unfolding free_below
free_below-clear zero f b h = absurd (omega arith)
free_below-clear (suc n) f b h =
    ground (arith, bitmap_test-clear b f n, free_below-clear n f b, free_below-clear_above n f b)

-- The counter is `d` above the number of free frames: 0 when it is right.
pub record IsExact (d : ℕ) (s : Pmm) : Type 0 where
  pub slack : d ≤ 1
  pub exact : s.free_frames ≡ free_below max_frames s.bitmap + d
  pub byte_fits : (i : ℕ) → s.bitmap i < 2 ^ 8

-- Besides, a free frame has no user, and a count fits its `uint16_t`.
pub record IsCounted (d : ℕ) (s : Pmm) : Type 0 where
  pub slack : d ≤ 1
  pub exact : s.free_frames ≡ free_below max_frames s.bitmap + d
  pub unused : (f : ℕ) → bitmap_test s.bitmap f ≡ false → s.refcount f ≡ 0
  pub ref_fits : (f : ℕ) → s.refcount f < 2 ^ 16
  pub byte_fits : (i : ℕ) → s.bitmap i < 2 ^ 8

-- Where every bit is set, no frame is free.
pub free_below_full : (n : ℕ) (b : Bytes) → ((f : ℕ) → bitmap_test b f ≡ true) → free_below n b ≡ 0
unfolding free_below
free_below_full zero b h = refl
free_below_full (suc n) b h = ground (arith, h n, free_below_full n b h)
