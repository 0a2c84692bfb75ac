-- ===== src/Net/Frame/Sums.antt =====
-- kernel/net/tcp.c: the ones' complement checksums.
use char_os.Base.{
  ℕ, ◌+◌, ◌*◌, ◌/◌, ◌%◌, ◌≡◌, ap, ◌∙◌, ◌≤◌, ◌<◌, arith, Bool, true, List, [], ◌∷◌, bit_or, ◌&&◌,
  ltb, length, take,
}
use char_os.Base.Bits.{bit_not}
use char_os.Net.Frame.{fold_sum, sum_words, Segment, ip_header, tcp_segment}
use char_os.Base.Masks.{shl, or_shl}

once : ℕ → ℕ
once x = x % 65536 + x / 65536

once_value : (x : ℕ) → (once x % 65535 ≡ x % 65535) × (1 ≤ x → 1 ≤ once x)
unfolding once
once_value x = (omega arith, λ h. omega arith)

-- Folding keeps a sum up to multiples of 65535, ends within 16 bits and is 0 for 0 only.
pub fold_sum_value :
    (x : ℕ)
    → x < 4294967296
    → (fold_sum x < 65536) × (fold_sum x % 65535 ≡ x % 65535) × (1 ≤ x → 1 ≤ fold_sum x)
unfolding fold_sum
fold_sum_value x h = (ground arith, ground arith, λ p. ground arith)

-- A sum that its own checksum is added to folds to the word of ones.
pub checksum_closes :
    (x c : ℕ)
    → 1 ≤ x
    → x < 4294901760
    → c ≡ bit_not 16 (fold_sum x)
    → bit_not 16 (fold_sum (x + c)) ≡ 0
unfolding bit_not
checksum_closes x c lo hi e =
    let before : c ≤ 65535 = omega (arith, e) in
    let after = fold_sum_value (x + c) (omega arith) in
    omega (arith, e, fold_sum_value x (omega arith), after, after.2 (omega arith))

-- The two bytes of a word, joined again.
pub word_of : (v : ℕ) → v < 65536 → bit_or (v / 256 % 256 * 256) (v % 256) ≡ v
word_of v h =
    ap (λ t. bit_or t (v % 256)) {x = v / 256 % 256 * 256} {y = shl 8 (v / 256)} (omega arith)
    ∙ or_shl 8 (v / 256) (v % 256) (omega arith)
    ∙ omega arith

-- The checksum field adds its value to the sum of a header.
pub sum_words-ip_header :
    (s : Segment) (c : ℕ)
    → c < 65536
    → sum_words (take 20 (ip_header s c)) ≡ sum_words (take 20 (ip_header s 0)) + c
unfolding sum_words
sum_words-ip_header s c h = omega (arith, word_of c h)

pub sum_words-tcp_segment :
    (s : Segment) (c : ℕ)
    → c < 65536
    → sum_words (tcp_segment s c) ≡ sum_words (tcp_segment s 0) + c
unfolding sum_words
sum_words-tcp_segment s c h = omega (arith, word_of c h)

-- A sum of bytes is bounded by their number.
unfoldable pub are_bytes : List ℕ → Bool
are_bytes [] = true
are_bytes (x ∷ xs) = ltb x 256 && are_bytes xs

word_bound : (a b : ℕ) → a < 256 → b < 256 → bit_or (a * 256) b < 65536
word_bound a b h k = omega (
  arith,
  ap (λ t. bit_or t b) {x = a * 256} {y = shl 8 a} (omega arith),
  or_shl 8 a b (omega arith),
)

pub sum_words_bound : (p : List ℕ) → are_bytes p ≡ true → sum_words p ≤ length p * 65535
unfolding sum_words are_bytes
sum_words_bound [] h = omega arith
sum_words_bound (a ∷ []) h = ground arith
sum_words_bound (a ∷ b ∷ p) h =
    ground (arith, word_bound a b (ground arith) (ground arith), sum_words_bound p (ground arith))
