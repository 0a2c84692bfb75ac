-- ===== src/Text/Iconv/Tests.antt =====
-- kernel/arch/x86_64/iconv64.c: concrete runs.
use char_os.Base.{ℕ, ◌≡◌, refl, true, none, some, [], ◌∷◌, arith}
use char_os.Text.Iconv.{utf8, decode, encode, decoded}
use char_os.Text.Iconv.Handles.{Cd, enc_id}
use char_os.Text.Iconv.Stream.{complete, convert}
use char_os.Text.Iconv.Points.{encode-decode}
use char_os.Text.Iconv.Convert.{convert-bytes_of, bytes_of}
use char_os.Text.Iconv.Bounds.{convert-Within, Within}

-- UTF-8 to UTF-16 under handle 0.
abbrev one_open : ℕ → Cd
one_open i = record { used = true; to = 1; from = 0 }

encode-decode_example : decode 0 (0xF0 ∷ 0x9F ∷ 0x98 ∷ 0x80 ∷ 0x41 ∷ []) ≡ decoded 4 0x1F600
encode-decode_example =
    encode-decode 0 0x1F600 4 (0xF0 ∷ 0x9F ∷ 0x98 ∷ 0x80 ∷ []) (0x41 ∷ []) (omega arith)
      (unfold encode in refl)

convert-bytes_of_example :
    convert one_open (some 0) (0x41 ∷ 0xC3 ∷ 0xA9 ∷ []) 10
    ≡ some (record { code = complete; rest = []; output = 0x41 ∷ 0 ∷ 0xE9 ∷ 0 ∷ []; room = 6 })
convert-bytes_of_example =
    convert-bytes_of one_open 0 (0x41 ∷ 0xE9 ∷ []) 10 (0x41 ∷ 0xC3 ∷ 0xA9 ∷ [])
      (0x41 ∷ 0 ∷ 0xE9 ∷ 0 ∷ []) (omega arith) refl refl (unfold bytes_of encode in refl)
      (unfold bytes_of encode in refl) (omega arith)

convert-Within_example :
    Within (0x41 ∷ 0xC3 ∷ []) 3 (convert one_open (some 0) (0x41 ∷ 0xC3 ∷ []) 3)
convert-Within_example = convert-Within one_open (some 0) (0x41 ∷ 0xC3 ∷ []) 3

-- A sequence of four bytes is taken with bytes that are no continuation bytes.
loose_four_bytes : decode utf8 (0xF0 ∷ 0x1F ∷ 0x18 ∷ 0x00 ∷ []) ≡ decoded 4 0x1F600
unfolding decode
loose_four_bytes = refl

surrogate_from_utf8 : decode utf8 (0xED ∷ 0xA0 ∷ 0x80 ∷ []) ≡ decoded 3 0xD800
unfolding decode
surrogate_from_utf8 = refl

-- "ISO-8859-1" is not known, "ISO-8859" is.
iso_name : enc_id (b'I' ∷ b'S' ∷ b'O' ∷ b'-' ∷ b'8' ∷ b'8' ∷ b'5' ∷ b'9' ∷ b'-' ∷ b'1' ∷ []) ≡ none
unfolding enc_id
iso_name = refl
