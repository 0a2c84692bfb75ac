-- ===== src/Text/Iconv/Forms.antt =====
-- kernel/arch/x86_64/iconv64.c: the masks and fields of the encodings in arithmetic.
use char_os.Base.{ℕ, ◌+◌, ◌*◌, ◌%◌, ◌≡◌, ap, ◌∙◌, ◌<◌, arith, bit_and, bit_or}
use char_os.Base.Masks.{and_ones, and_high, or_shl, bit_or_comm, or_zero}

pub and_07 : (y : ℕ) → bit_and y 0x07 ≡ y % 8
and_07 y = and_ones 3 y ∙ omega arith

pub and_0f : (y : ℕ) → bit_and y 0x0F ≡ y % 16
and_0f y = and_ones 4 y ∙ omega arith

pub and_1f : (y : ℕ) → bit_and y 0x1F ≡ y % 32
and_1f y = and_ones 5 y ∙ omega arith

pub and_3f : (y : ℕ) → bit_and y 0x3F ≡ y % 64
and_3f y = and_ones 6 y ∙ omega arith

pub and_ff : (y : ℕ) → bit_and y 0xFF ≡ y % 256
and_ff y = and_ones 8 y ∙ omega arith

pub and_3ff : (y : ℕ) → bit_and y 0x3FF ≡ y % 1024
and_3ff y = and_ones 10 y ∙ omega arith

pub or_80 : (y : ℕ) → y < 64 → bit_or 0x80 y ≡ 128 + y
or_80 y h = or_shl 6 2 y (omega arith)

pub or_c0 : (y : ℕ) → y < 32 → bit_or 0xC0 y ≡ 192 + y
or_c0 y h = or_shl 5 6 y (omega arith)

pub or_e0 : (y : ℕ) → y < 16 → bit_or 0xE0 y ≡ 224 + y
or_e0 y h = or_shl 4 14 y (omega arith)

pub or_f0 : (y : ℕ) → y < 8 → bit_or 0xF0 y ≡ 240 + y
or_f0 y h = or_shl 3 30 y (omega arith)

pub and_c0_continuation : (y : ℕ) → y < 64 → bit_and (128 + y) 0xC0 ≡ 0x80
and_c0_continuation y h = and_high 6 (128 + y) 2 3 (omega arith)

pub and_e0_two : (y : ℕ) → y < 32 → bit_and (192 + y) 0xE0 ≡ 0xC0
and_e0_two y h = and_high 5 (192 + y) 6 7 (omega arith)

pub and_e0_more : (y : ℕ) → y < 32 → bit_and (224 + y) 0xE0 ≡ 0xE0
and_e0_more y h = and_high 5 (224 + y) 7 7 (omega arith)

pub and_f0_three : (y : ℕ) → y < 16 → bit_and (224 + y) 0xF0 ≡ 0xE0
and_f0_three y h = and_high 4 (224 + y) 14 15 (omega arith)

pub and_f0_four : (y : ℕ) → y < 8 → bit_and (240 + y) 0xF0 ≡ 0xF0
and_f0_four y h = and_high 4 (240 + y) 15 15 (omega arith)

pub and_f8_four : (y : ℕ) → y < 8 → bit_and (240 + y) 0xF8 ≡ 0xF0
and_f8_four y h = and_high 3 (240 + y) 30 31 (omega arith)

-- `(h << 6) | l`, and the wider shifts.
pub or_6 : (h l : ℕ) → l < 64 → bit_or (h * 64) l ≡ h * 64 + l
or_6 h l below = ap (λ t. bit_or t l) (omega arith) ∙ or_shl 6 h l (omega arith) ∙ omega arith

pub or_12 : (h l : ℕ) → l < 4096 → bit_or (h * 4096) l ≡ h * 4096 + l
or_12 h l below = ap (λ t. bit_or t l) (omega arith) ∙ or_shl 12 h l (omega arith) ∙ omega arith

pub or_18 : (h l : ℕ) → l < 262144 → bit_or (h * 262144) l ≡ h * 262144 + l
or_18 h l below = ap (λ t. bit_or t l) (omega arith) ∙ or_shl 18 h l (omega arith) ∙ omega arith

-- `l | (h << 8)`, and the wider shifts.
pub or_8_left : (l h : ℕ) → l < 256 → bit_or l (h * 256) ≡ l + h * 256
or_8_left l h below =
    bit_or_comm l (h * 256)
    ∙ ap (λ t. bit_or t l) (omega arith)
    ∙ or_shl 8 h l (omega arith)
    ∙ omega arith

pub or_16_left : (l h : ℕ) → l < 65536 → bit_or l (h * 65536) ≡ l + h * 65536
or_16_left l h below =
    bit_or_comm l (h * 65536)
    ∙ ap (λ t. bit_or t l) (omega arith)
    ∙ or_shl 16 h l (omega arith)
    ∙ omega arith

pub or_24_left : (l h : ℕ) → l < 16777216 → bit_or l (h * 16777216) ≡ l + h * 16777216
or_24_left l h below =
    bit_or_comm l (h * 16777216)
    ∙ ap (λ t. bit_or t l) (omega arith)
    ∙ or_shl 24 h l (omega arith)
    ∙ omega arith

pub or_none : (x : ℕ) → bit_or 0 x ≡ x
or_none x = bit_or_comm 0 x ∙ or_zero x
