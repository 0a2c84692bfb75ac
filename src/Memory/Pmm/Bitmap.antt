-- ===== src/Memory/Pmm/Bitmap.antt =====
-- kernel/memory/pmm.c: the packed frame bitmap, one bit for each frame, eight to a byte.
use char_os.Base.{
  true, refl, ℕ, ◌/◌, ◌%◌, ◌^◌, ◌<◌, ◌≡◌, Bool, not, ◌&&◌, ◌||◌, bit_and, bit_or, arith, update,
  ◌==◌,
}
use char_os.Base.Bits.{
  bit, bit_not, bit-bit_and, bit-bit_or, bit-bit_not, bit-pow, bit_and_pow, bit_or-lt, bit_and-le,
  pow-lt, pow-pos, bit-zero,
}

-- `pmm_bitmap`; a byte is a number below 256.
abbrev pub Bytes : Type 0
Bytes = ℕ → ℕ

unfoldable pub bitmap_set : Bytes → ℕ → Bytes
bitmap_set b frame = update b (frame / 8) (bit_or (b (frame / 8)) (2 ^ (frame % 8)))

-- `~` is that of `int`.
unfoldable pub bitmap_clear : Bytes → ℕ → Bytes
bitmap_clear b frame = update b (frame / 8) (bit_and (b (frame / 8)) (bit_not 32 (2 ^ (frame % 8))))

unfoldable pub bitmap_test : Bytes → ℕ → Bool
bitmap_test b frame = not (bit_and (b (frame / 8)) (2 ^ (frame % 8)) == 0)

bitmap_test-bit : (b : Bytes) (f : ℕ) → bitmap_test b f ≡ bit (b (f / 8)) (f % 8)
unfolding bitmap_test
bitmap_test-bit b f = ground (arith, bit_and_pow (b (f / 8)) (f % 8), pow-pos (f % 8))

-- Setting a frame's bit marks that frame and no other.
pub bitmap_test-set :
    (b : Bytes) (f g : ℕ) → bitmap_test (bitmap_set b f) g ≡ ((g == f) || bitmap_test b g)
unfolding bitmap_set
bitmap_test-set b f g = ground (
  arith,
  bitmap_test-bit b g,
  bitmap_test-bit (bitmap_set b f) g,
  bit-bit_or (b (f / 8)) (2 ^ (f % 8)) (g % 8),
  bit-pow (f % 8) (g % 8),
)

-- Clearing a frame's bit frees that frame and no other.
pub bitmap_test-clear :
    (b : Bytes) (f g : ℕ) → bitmap_test (bitmap_clear b f) g ≡ (not (g == f) && bitmap_test b g)
unfolding bitmap_clear
bitmap_test-clear b f g = ground (
  arith,
  bitmap_test-bit b g,
  bitmap_test-bit (bitmap_clear b f) g,
  bit-bit_and (b (f / 8)) (bit_not 32 (2 ^ (f % 8))) (g % 8),
  bit-bit_not 32 (2 ^ (f % 8)) (g % 8) (pow-lt (f % 8) 32 (omega arith)),
  bit-pow (f % 8) (g % 8),
)

-- The bytes stay bytes, so no store into `uint8_t` loses a bit.
pub bitmap_set-byte :
    (b : Bytes) (f : ℕ) → ((i : ℕ) → b i < 2 ^ 8) → (i : ℕ) → bitmap_set b f i < 2 ^ 8
unfolding bitmap_set
bitmap_set-byte b f h i =
    ground (
      arith,
      h i,
      bit_or-lt 8 (b (f / 8)) (2 ^ (f % 8)) (h (f / 8)) (pow-lt (f % 8) 8 (omega arith)),
    )

pub bitmap_clear-byte :
    (b : Bytes) (f : ℕ) → ((i : ℕ) → b i < 2 ^ 8) → (i : ℕ) → bitmap_clear b f i < 2 ^ 8
unfolding bitmap_clear
bitmap_clear-byte b f h i =
    ground (arith, h i, h (f / 8), bit_and-le (b (f / 8)) (bit_not 32 (2 ^ (f % 8))))

-- `memset(pmm_bitmap, 0xFF, ...)` takes every frame.
pub bitmap_test-all : (f : ℕ) → bitmap_test (λ i. 0xFF) f ≡ true
bitmap_test-all f = ground (
  arith,
  bitmap_test-bit (λ i. 0xFF) f,
  bit-bit_not 8 0 (f % 8) (omega arith),
  bit-zero (f % 8),
  all_ones,
)
  where
    all_ones : bit_not 8 0 ≡ 0xFF
    all_ones = unfold bit_not in refl
