-- ===== src/Text/Iconv.antt =====
-- kernel/arch/x86_64/iconv64.c: conversion between UTF-8, UTF-16, UTF-32 and Latin-1.  A pointer
-- with the number of bytes left is the list of these bytes; a C string is the list of its
-- characters before the end mark.
use char_os.Base.{
  ℕ, zero, suc, ◌+◌, ◌-◌, ◌*◌, ◌/◌, ◌%◌, Bool, true, false, not, ◌&&◌, ◌||◌, Option, none, some,
  List, [], ◌∷◌, ◌++◌, bit_and, bit_or, ◌==◌, ltb, leb, if◌then◌else◌, length, drop, update,
}
pub mod Forms
pub mod Utf8
pub mod Points
pub mod Stream
pub mod Convert
pub mod Bounds
pub mod Handles
mod Tests

abbrev pub iconv_max : ℕ
iconv_max = 8

abbrev pub utf8 : ℕ
utf8 = 0

abbrev pub utf16 : ℕ
utf16 = 1

abbrev pub utf32 : ℕ
utf32 = 2

abbrev pub latin1 : ℕ
latin1 = 3

-- `p[i]`; past the end of a string stands its end mark.
abbrev pub at : List ℕ → ℕ → ℕ
at [] i = 0
at (x ∷ xs) zero = x
at (x ∷ xs) (suc i) = at xs i

-- What decoding one point gives: too few bytes (0), an illegal sequence (-1), or the number of
-- bytes used and the point.
pub data Decoded : Type 0 where
  incomplete : Decoded
  illegal : Decoded
  decoded : ℕ → ℕ → Decoded

abbrev pub continues : ℕ → Bool
continues b = bit_and b 0xC0 == 0x80

-- `if (*cp < least) return -1; return used;`
abbrev pub at_least : ℕ → ℕ → ℕ → Decoded
at_least least used cp = if ltb cp least then illegal else decoded used cp

abbrev pub join2 : List ℕ → ℕ
join2 p = bit_or (bit_and (at p 0) 0x1F * 64) (bit_and (at p 1) 0x3F)

abbrev pub join3 : List ℕ → ℕ
join3 p =
    bit_or (bit_or (bit_and (at p 0) 0x0F * 4096) (bit_and (at p 1) 0x3F * 64))
      (bit_and (at p 2) 0x3F)

abbrev pub join4 : List ℕ → ℕ
join4 p =
    bit_or
      (bit_or (bit_or (bit_and (at p 0) 0x07 * 262144) (bit_and (at p 1) 0x3F * 4096))
        (bit_and (at p 2) 0x3F * 64))
      (bit_and (at p 3) 0x3F)

abbrev pub decode_utf8 : List ℕ → Decoded
decode_utf8 p =
    if length p == 0
    then incomplete
    else if ltb (at p 0) 0x80
    then decoded 1 (at p 0)
    else if bit_and (at p 0) 0xE0 == 0xC0
    then (if ltb (length p) 2 || not (continues (at p 1))
        then illegal
        else at_least 0x80 2 (join2 p))
    else if bit_and (at p 0) 0xF0 == 0xE0
    then (if ltb (length p) 3 || not (continues (at p 1)) || not (continues (at p 2))
        then illegal
        else at_least 0x800 3 (join3 p))
    else if bit_and (at p 0) 0xF8 == 0xF0
    then (if ltb (length p) 4
        then illegal
        else if ltb (join4 p) 0x10000 || ltb 0x10FFFF (join4 p)
        then illegal
        else decoded 4 (join4 p))
    else illegal

-- `p[i] | (p[i + 1] << 8)`.
abbrev pub unit16 : List ℕ → ℕ → ℕ
unit16 p i = bit_or (at p i) (at p (i + 1) * 256)

abbrev pub decode_utf16 : List ℕ → Decoded
decode_utf16 p =
    if ltb (length p) 2
    then incomplete
    else if ltb (unit16 p 0) 0xD800 || ltb 0xDFFF (unit16 p 0)
    then decoded 2 (unit16 p 0)
    else if ltb (length p) 4
    then illegal
    else if ltb 0xDBFF (unit16 p 0) || ltb (unit16 p 2) 0xDC00 || ltb 0xDFFF (unit16 p 2)
    then illegal
    else decoded 4 (0x10000 + (unit16 p 0 - 0xD800) * 1024 + (unit16 p 2 - 0xDC00))

abbrev pub join32 : List ℕ → ℕ
join32 p =
    bit_or (bit_or (bit_or (bit_or 0 (at p 0)) (at p 1 * 256)) (at p 2 * 65536)) (at p 3 * 16777216)

abbrev pub decode_utf32 : List ℕ → Decoded
decode_utf32 p =
    if ltb (length p) 4
    then incomplete
    else if ltb 0x10FFFF (join32 p)
    then illegal
    else decoded 4 (join32 p)

unfoldable pub decode : ℕ → List ℕ → Decoded
decode from p =
    if from == latin1
    then (if length p == 0 then incomplete else decoded 1 (at p 0))
    else if from == utf8
    then decode_utf8 p
    else if from == utf16
    then decode_utf16 p
    else if from == utf32
    then decode_utf32 p
    else illegal

-- What encoding one point gives: no room (-1), a point the encoding has no form for (-2), or the
-- bytes written.
pub data Encoded : Type 0 where
  no_space : Encoded
  unmapped : Encoded
  written : List ℕ → Encoded

-- `if (left < n) return -1;` before the bytes are written.
abbrev pub fitting : ℕ → List ℕ → Encoded
fitting left bytes = if ltb left (length bytes) then no_space else written bytes

abbrev pub encode_utf8 : ℕ → ℕ → Encoded
encode_utf8 cp left =
    if ltb cp 0x80
    then fitting left (cp ∷ [])
    else if ltb cp 0x800
    then fitting left (bit_or 0xC0 (cp / 64) ∷ bit_or 0x80 (bit_and cp 0x3F) ∷ [])
    else if ltb cp 0x10000
    then fitting left (
        bit_or 0xE0 (cp / 4096)
        ∷ bit_or 0x80 (bit_and (cp / 64) 0x3F)
        ∷ bit_or 0x80 (bit_and cp 0x3F)
        ∷ [])
    else fitting left (
        bit_or 0xF0 (cp / 262144) % 256
        ∷ bit_or 0x80 (bit_and (cp / 4096) 0x3F)
        ∷ bit_or 0x80 (bit_and (cp / 64) 0x3F)
        ∷ bit_or 0x80 (bit_and cp 0x3F)
        ∷ [])

-- A 16-bit unit, low byte first.
abbrev pub bytes16 : ℕ → List ℕ
bytes16 u = bit_and u 0xFF ∷ u / 256 ∷ []

abbrev pub encode_utf16 : ℕ → ℕ → Encoded
encode_utf16 cp left =
    if ltb cp 0x10000
    then (if ltb left 2
        then no_space
        else if leb 0xD800 cp && leb cp 0xDFFF
        then unmapped
        else written (bytes16 cp))
    else fitting left (
        bit_and ((cp - 0x10000) / 1024 + 0xD800) 0xFF
        ∷ ((cp - 0x10000) / 1024 + 0xD800) / 256 % 256
        ∷ bytes16 (bit_and (cp - 0x10000) 0x3FF + 0xDC00))

abbrev pub encode_utf32 : ℕ → ℕ → Encoded
encode_utf32 cp left = fitting left (
    bit_and cp 0xFF
    ∷ bit_and (cp / 256) 0xFF
    ∷ bit_and (cp / 65536) 0xFF
    ∷ bit_and (cp / 16777216) 0xFF
    ∷ [])

unfoldable pub encode : ℕ → ℕ → ℕ → Encoded
encode to cp left =
    if to == latin1
    then (if left == 0 then no_space else if ltb 0xFF cp then unmapped else written (cp ∷ []))
    else if to == utf8
    then encode_utf8 cp left
    else if to == utf16
    then encode_utf16 cp left
    else if to == utf32
    then encode_utf32 cp left
    else no_space
