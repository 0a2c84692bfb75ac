-- ===== src/Text/Iconv/Utf8.antt =====
-- kernel/arch/x86_64/iconv64.c: decoding one point of UTF-8, against the bytes encoding it writes.
use char_os.Base.{
  ℕ, ◌+◌, ◌*◌, ◌/◌, ◌%◌, ◌≡◌, ap, ap₂, subst, ◌∙◌, ◌≤◌, ◌<◌, ◌⊎◌, inl, inr, arith, List, [], ◌∷◌,
  ◌++◌, bit_and, bit_or, length,
}
use char_os.Text.Iconv.{decoded, written, decode_utf8, encode_utf8, fitting}
use char_os.Text.Iconv.Forms

-- A payload under the mark of a continuation byte.
payload : (y : ℕ) → bit_and (128 + y % 64) 0x3F ≡ y % 64
payload y = Forms.and_3f (128 + y % 64) ∙ omega arith

join2_value :
    (h l : ℕ)
    → h < 32
    → bit_or (bit_and (192 + h) 0x1F * 64) (bit_and (128 + l % 64) 0x3F) ≡ h * 64 + l % 64
join2_value h l hh =
    ap₂ (λ x y. bit_or (x * 64) y) (Forms.and_1f (192 + h) ∙ omega arith) (payload l)
    ∙ Forms.or_6 h (l % 64) (omega arith)

decode_two :
    (h l : ℕ) (rest : List ℕ)
    → 2 ≤ h
    → h < 32
    → decode_utf8 ((192 + h) ∷ (128 + l % 64) ∷ rest) ≡ decoded 2 (h * 64 + l % 64)
decode_two h l rest lo hi = ground (
  arith,
  Forms.and_e0_two h hi,
  Forms.and_c0_continuation (l % 64) (omega arith),
  join2_value h l hi,
)

join3_value :
    (h m l : ℕ)
    → h < 16
    → bit_or
        (bit_or (bit_and (224 + h) 0x0F * 4096) (bit_and (128 + m % 64) 0x3F * 64))
        (bit_and (128 + l % 64) 0x3F)
      ≡ h * 4096 + m % 64 * 64 + l % 64
join3_value h m l hh =
    ap₂ bit_or
      (ap₂ (λ x y. bit_or (x * 4096) (y * 64)) (Forms.and_0f (224 + h) ∙ omega arith) (payload m)
        ∙ Forms.or_12 h (m % 64 * 64) (omega arith)
        ∙ omega arith)
      (payload l)
    ∙ Forms.or_6 (h * 64 + m % 64) (l % 64) (omega arith)
    ∙ omega arith

decode_three :
    (h m l : ℕ) (rest : List ℕ)
    → h < 16
    → 0x800 ≤ h * 4096 + m % 64 * 64 + l % 64
    → decode_utf8 ((224 + h) ∷ (128 + m % 64) ∷ (128 + l % 64) ∷ rest)
      ≡ decoded 3 (h * 4096 + m % 64 * 64 + l % 64)
decode_three h m l rest hi lo = ground (
  arith,
  Forms.and_e0_more h (omega arith),
  Forms.and_f0_three h hi,
  Forms.and_c0_continuation (m % 64) (omega arith),
  Forms.and_c0_continuation (l % 64) (omega arith),
  join3_value h m l hi,
)

join4_value :
    (h n m l : ℕ)
    → h < 8
    → bit_or
        (bit_or
          (bit_or (bit_and (240 + h) 0x07 * 262144) (bit_and (128 + n % 64) 0x3F * 4096))
          (bit_and (128 + m % 64) 0x3F * 64))
        (bit_and (128 + l % 64) 0x3F)
      ≡ h * 262144 + n % 64 * 4096 + m % 64 * 64 + l % 64
join4_value h n m l hh =
    ap₂ bit_or
      (ap₂ bit_or
          (ap₂ (λ x y. bit_or (x * 262144) (y * 4096)) (Forms.and_07 (240 + h) ∙ omega arith)
              (payload n)
            ∙ Forms.or_18 h (n % 64 * 4096) (omega arith)
            ∙ omega arith)
          (ap (λ y. y * 64) (payload m))
        ∙ Forms.or_12 (h * 64 + n % 64) (m % 64 * 64) (omega arith)
        ∙ omega arith)
      (payload l)
    ∙ Forms.or_6 (h * 4096 + n % 64 * 64 + m % 64) (l % 64) (omega arith)
    ∙ omega arith

decode_four :
    (h n m l : ℕ) (rest : List ℕ)
    → h < 8
    → 0x10000 ≤ h * 262144 + n % 64 * 4096 + m % 64 * 64 + l % 64
    → h * 262144 + n % 64 * 4096 + m % 64 * 64 + l % 64 ≤ 0x10FFFF
    → decode_utf8 ((240 + h) ∷ (128 + n % 64) ∷ (128 + m % 64) ∷ (128 + l % 64) ∷ rest)
      ≡ decoded 4 (h * 262144 + n % 64 * 4096 + m % 64 * 64 + l % 64)
decode_four h n m l rest hh lo hi = ground (
  arith,
  Forms.and_e0_more (16 + h) (omega arith),
  Forms.and_f0_four h hh,
  Forms.and_f8_four h hh,
  join4_value h n m l hh,
)

marked : (y : ℕ) → bit_or 0x80 (bit_and y 0x3F) ≡ 128 + y % 64
marked y = ap (bit_or 0x80) (Forms.and_3f y) ∙ Forms.or_80 (y % 64) (omega arith)

two_case :
    (cp : ℕ) (rest : List ℕ)
    → 0x80 ≤ cp
    → cp < 0x800
    → decode_utf8 (bit_or 0xC0 (cp / 64) ∷ bit_or 0x80 (bit_and cp 0x3F) ∷ rest) ≡ decoded 2 cp
two_case cp rest lo hi =
    ap₂ (λ x y. decode_utf8 (x ∷ y ∷ rest)) (Forms.or_c0 (cp / 64) (omega arith)) (marked cp)
    ∙ decode_two (cp / 64) cp rest (omega arith) (omega arith)
    ∙ ap (decoded 2) (omega arith)

three_case :
    (cp : ℕ) (rest : List ℕ)
    → 0x800 ≤ cp
    → cp < 0x10000
    → decode_utf8 (
        bit_or 0xE0 (cp / 4096)
        ∷ bit_or 0x80 (bit_and (cp / 64) 0x3F)
        ∷ bit_or 0x80 (bit_and cp 0x3F)
        ∷ rest)
      ≡ decoded 3 cp
three_case cp rest lo hi =
    ap₂ (λ x y. decode_utf8 (x ∷ y ∷ bit_or 0x80 (bit_and cp 0x3F) ∷ rest))
      (Forms.or_e0 (cp / 4096) (omega arith)) (marked (cp / 64))
    ∙ ap (λ y. decode_utf8 ((224 + cp / 4096) ∷ (128 + cp / 64 % 64) ∷ y ∷ rest)) (marked cp)
    ∙ decode_three (cp / 4096) (cp / 64) cp rest (omega arith) (omega arith)
    ∙ ap (decoded 3) (omega arith)

four_case :
    (cp : ℕ) (rest : List ℕ)
    → 0x10000 ≤ cp
    → cp ≤ 0x10FFFF
    → decode_utf8 (
        bit_or 0xF0 (cp / 262144) % 256
        ∷ bit_or 0x80 (bit_and (cp / 4096) 0x3F)
        ∷ bit_or 0x80 (bit_and (cp / 64) 0x3F)
        ∷ bit_or 0x80 (bit_and cp 0x3F)
        ∷ rest)
      ≡ decoded 4 cp
four_case cp rest lo hi =
    ap₂
      (λ x y.
        decode_utf8
          (x ∷ y ∷ bit_or 0x80 (bit_and (cp / 64) 0x3F) ∷ bit_or 0x80 (bit_and cp 0x3F) ∷ rest))
      {x = bit_or 0xF0 (cp / 262144) % 256} {y = 240 + cp / 262144}
      (omega (arith, Forms.or_f0 (cp / 262144) (omega arith))) (marked (cp / 4096))
    ∙ ap₂ (λ x y. decode_utf8 ((240 + cp / 262144) ∷ (128 + cp / 4096 % 64) ∷ x ∷ y ∷ rest))
        (marked (cp / 64)) (marked cp)
    ∙ decode_four (cp / 262144) (cp / 4096) (cp / 64) cp rest (omega arith) (omega arith)
        (omega arith)
    ∙ ap (decoded 4) (omega arith)

pub fitted :
    (P : List ℕ → Type 0) (left : ℕ) (bytes bs : List ℕ)
    → fitting left bytes ≡ written bs
    → P bytes
    → P bs
fitted P left bytes bs e p = subst P same p
  where
    same : bytes ≡ bs
    same = ground arith

pub lt_cases : (a b : ℕ) → (a < b) ⊎ (b ≤ a)
lt_cases a b = ground arith

pub utf8_decoded :
    (cp left : ℕ) (bs rest : List ℕ)
    → encode_utf8 cp left ≡ written bs
    → cp ≤ 0x10FFFF
    → decode_utf8 (bs ++ rest) ≡ decoded (length bs) cp
utf8_decoded cp left bs rest e below = elim (lt_cases cp 0x80) [
  | inl a ↦ fitted Good left (cp ∷ []) bs (ground arith) (ground arith)
  | inr a ↦ elim (lt_cases cp 0x800) [
    | inl b ↦
        fitted Good left (bit_or 0xC0 (cp / 64) ∷ bit_or 0x80 (bit_and cp 0x3F) ∷ []) bs
          (ground arith) (two_case cp rest a b)
    | inr b ↦ elim (lt_cases cp 0x10000) [
      | inl c ↦
          fitted Good left
            (bit_or 0xE0 (cp / 4096)
              ∷ bit_or 0x80 (bit_and (cp / 64) 0x3F)
              ∷ bit_or 0x80 (bit_and cp 0x3F)
              ∷ [])
            bs (ground arith) (three_case cp rest b c)
      | inr c ↦
          fitted Good left
            (bit_or 0xF0 (cp / 262144) % 256
              ∷ bit_or 0x80 (bit_and (cp / 4096) 0x3F)
              ∷ bit_or 0x80 (bit_and (cp / 64) 0x3F)
              ∷ bit_or 0x80 (bit_and cp 0x3F)
              ∷ [])
            bs (ground arith) (four_case cp rest c below)
    ]
  ]
]
  where
    Good : List ℕ → Type 0
    Good k = decode_utf8 (k ++ rest) ≡ decoded (length k) cp
