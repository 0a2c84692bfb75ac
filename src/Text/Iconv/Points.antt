-- ===== src/Text/Iconv/Points.antt =====
-- kernel/arch/x86_64/iconv64.c: decoding one point, against the bytes encoding it writes.
use char_os.Base.{
  ℕ, ◌+◌, ◌-◌, ◌*◌, ◌/◌, ◌%◌, ◌≡◌, ap, ap₂, subst, ◌∙◌, ◌≤◌, ◌<◌, ◌⊎◌, inl, inr, arith, List, [],
  ◌∷◌, ◌++◌, bit_and, bit_or, length,
}
use char_os.Text.Iconv.{
  decoded, written, decode, encode, encode_utf16, encode_utf32, decode_utf16, decode_utf32, bytes16,
  latin1,
}
use char_os.Text.Iconv.Forms
use char_os.Text.Iconv.Utf8.{lt_cases, fitted, utf8_decoded}

-- A 16-bit unit from its two bytes.
unit_value : (u : ℕ) → bit_or (bit_and u 0xFF) (u / 256 * 256) ≡ u
unit_value u =
    ap (λ l. bit_or l (u / 256 * 256)) (Forms.and_ff u)
    ∙ Forms.or_8_left (u % 256) (u / 256) (omega arith)
    ∙ omega arith

utf16_one :
    (cp : ℕ) (rest : List ℕ)
    → (cp < 0xD800) ⊎ (0xDFFF < cp)
    → decode_utf16 (bytes16 cp ++ rest) ≡ decoded 2 cp
utf16_one cp rest plain = ground (arith, unit_value cp)

utf16_two :
    (hi lo : ℕ) (rest : List ℕ)
    → hi < 1024
    → lo < 1024
    → decode_utf16
        (bit_and (hi + 0xD800) 0xFF ∷ (hi + 0xD800) / 256 ∷ (bytes16 (lo + 0xDC00) ++ rest))
      ≡ decoded 4 (0x10000 + hi * 1024 + lo)
utf16_two hi lo rest hh hl = ground (arith, unit_value (hi + 0xD800), unit_value (lo + 0xDC00))

utf16_high :
    (cp : ℕ) (rest : List ℕ)
    → 0x10000 ≤ cp
    → cp ≤ 0x10FFFF
    → decode_utf16 (
        bit_and ((cp - 0x10000) / 1024 + 0xD800) 0xFF
        ∷ ((cp - 0x10000) / 1024 + 0xD800) / 256 % 256
        ∷ (bytes16 (bit_and (cp - 0x10000) 0x3FF + 0xDC00) ++ rest))
      ≡ decoded 4 cp
utf16_high cp rest lo hi =
    ap₂
      (λ x y.
        decode_utf16
          (bit_and ((cp - 0x10000) / 1024 + 0xD800) 0xFF ∷ x ∷ (bytes16 (y + 0xDC00) ++ rest)))
      {x = ((cp - 0x10000) / 1024 + 0xD800) / 256 % 256}
      {y = ((cp - 0x10000) / 1024 + 0xD800) / 256} (omega arith) (Forms.and_3ff (cp - 0x10000))
    ∙ utf16_two ((cp - 0x10000) / 1024) ((cp - 0x10000) % 1024) rest (omega arith) (omega arith)
    ∙ ap (decoded 4) (omega arith)

utf16_one_form :
    (cp left : ℕ) (bs : List ℕ) → cp < 0x10000 → encode_utf16 cp left ≡ written bs → bytes16 cp ≡ bs
utf16_one_form cp left bs h e = ground arith

utf16_plain :
    (cp left : ℕ) (bs : List ℕ)
    → cp < 0x10000
    → encode_utf16 cp left ≡ written bs
    → (cp < 0xD800) ⊎ (0xDFFF < cp)
utf16_plain cp left bs h e = ground arith

utf16_decoded :
    (cp left : ℕ) (bs rest : List ℕ)
    → encode_utf16 cp left ≡ written bs
    → cp ≤ 0x10FFFF
    → decode_utf16 (bs ++ rest) ≡ decoded (length bs) cp
utf16_decoded cp left bs rest e below = elim (lt_cases cp 0x10000) [
  | inl a ↦
      subst Good (utf16_one_form cp left bs a e) (utf16_one cp rest (utf16_plain cp left bs a e))
  | inr a ↦
      fitted Good left
        (bit_and ((cp - 0x10000) / 1024 + 0xD800) 0xFF
          ∷ ((cp - 0x10000) / 1024 + 0xD800) / 256 % 256
          ∷ bytes16 (bit_and (cp - 0x10000) 0x3FF + 0xDC00))
        bs (ground arith) (utf16_high cp rest a below)
]
  where
    Good : List ℕ → Type 0
    Good k = decode_utf16 (k ++ rest) ≡ decoded (length k) cp

utf32_value :
    (cp : ℕ)
    → cp < 4294967296
    → bit_or
        (bit_or
          (bit_or (bit_or 0 (bit_and cp 0xFF)) (bit_and (cp / 256) 0xFF * 256))
          (bit_and (cp / 65536) 0xFF * 65536))
        (bit_and (cp / 16777216) 0xFF * 16777216)
      ≡ cp
utf32_value cp h =
    ap₂
      (λ x y.
        bit_or (bit_or (bit_or (bit_or 0 x) (y * 256)) (bit_and (cp / 65536) 0xFF * 65536))
          (bit_and (cp / 16777216) 0xFF * 16777216))
      (Forms.and_ff cp) (Forms.and_ff (cp / 256))
    ∙ ap₂
        (λ x y.
          bit_or (bit_or (bit_or (bit_or 0 (cp % 256)) (cp / 256 % 256 * 256)) (x * 65536))
            (y * 16777216))
        (Forms.and_ff (cp / 65536)) (Forms.and_ff (cp / 16777216))
    ∙ ap
        (λ x.
          bit_or (bit_or (bit_or x (cp / 256 % 256 * 256)) (cp / 65536 % 256 * 65536))
            (cp / 16777216 % 256 * 16777216))
        (Forms.or_none (cp % 256))
    ∙ ap (λ x. bit_or (bit_or x (cp / 65536 % 256 * 65536)) (cp / 16777216 % 256 * 16777216))
        (Forms.or_8_left (cp % 256) (cp / 256 % 256) (omega arith))
    ∙ ap (λ x. bit_or x (cp / 16777216 % 256 * 16777216))
        (Forms.or_16_left (cp % 256 + cp / 256 % 256 * 256) (cp / 65536 % 256) (omega arith))
    ∙ Forms.or_24_left (cp % 256 + cp / 256 % 256 * 256 + cp / 65536 % 256 * 65536)
        (cp / 16777216 % 256) (omega arith)
    ∙ omega arith

utf32_decoded :
    (cp left : ℕ) (bs rest : List ℕ)
    → encode_utf32 cp left ≡ written bs
    → cp ≤ 0x10FFFF
    → decode_utf32 (bs ++ rest) ≡ decoded (length bs) cp
utf32_decoded cp left bs rest e below =
    fitted (λ k. decode_utf32 (k ++ rest) ≡ decoded (length k) cp) left
      (bit_and cp 0xFF
        ∷ bit_and (cp / 256) 0xFF
        ∷ bit_and (cp / 65536) 0xFF
        ∷ bit_and (cp / 16777216) 0xFF
        ∷ [])
      bs e (ground (arith, utf32_value cp (omega arith)))

latin1_decoded :
    (cp left : ℕ) (bs rest : List ℕ)
    → encode latin1 cp left ≡ written bs
    → decode latin1 (bs ++ rest) ≡ decoded (length bs) cp
unfolding encode decode
latin1_decoded cp left bs rest e =
    subst (λ k. decode latin1 (k ++ rest) ≡ decoded (length k) cp) {x = cp ∷ []} (ground arith)
      (ground arith)

-- What encoding a point writes, decoding in the same encoding reads back as that point, using up
-- just the bytes written, whatever follows them.
pub encode-decode :
    (e cp left : ℕ) (bs rest : List ℕ)
    → cp ≤ 0x10FFFF
    → encode e cp left ≡ written bs
    → decode e (bs ++ rest) ≡ decoded (length bs) cp
unfolding encode decode
encode-decode e cp left bs rest below wrote = ground (
  arith,
  latin1_decoded cp left bs rest,
  utf8_decoded cp left bs rest,
  utf16_decoded cp left bs rest,
  utf32_decoded cp left bs rest,
)
