-- ===== src/Net/Frame/Parse.antt =====
-- kernel/net/tcp.c: parsing the frames that frame_build builds.
use char_os.Base.{
  ℕ, ◌+◌, ◌-◌, ◌*◌, ◌/◌, ◌%◌, ◌≡◌, refl, ap, ap₂, subst, ◌∙◌, ◌≤◌, ◌<◌, arith, Bool, true, false,
  not, ◌||◌, none, some, List, [], ◌∷◌, ◌++◌, bit_or, ◌==◌, ltb, if◌then◌else◌, length, take, drop,
  take_all,
}
use char_os.Base.Bits.{bit_not}
use char_os.Base.Masks.{shl, or_shl}
use char_os.Net.Frame.{
  frame_build, frame_parse, parse_ip, parse_segment, fields, ip_cksum, tcp_cksum, pseudo_sum,
  fold_sum, sum_words, Segment, ip_header, tcp_segment, address_bytes, get16, get32, put16, put32,
  remote_mac, local_mac,
}
use char_os.Net.Frame.Sums.{
  checksum_closes, word_of, sum_words-ip_header, sum_words-tcp_segment, are_bytes, sum_words_bound,
}

-- The ranges of the fields: bytes, 16-bit and 32-bit words.
pub record IsSegment (s : Segment) : Type 0 where
  pub src_fits : are_bytes (address_bytes s.src_ip) ≡ true
  pub dst_fits : are_bytes (address_bytes s.dst_ip) ≡ true
  pub sport_fits : s.sport < 65536
  pub dport_fits : s.dport < 65536
  pub seq_fits : s.seq < 4294967296
  pub ack_fits : s.ack < 4294967296
  pub flags_fits : s.flags < 256
  pub wnd_fits : s.wnd < 65536
  pub payload_fits : are_bytes s.payload ≡ true
  pub length_fits : length s.payload ≤ 65495

cksum_below : (x : ℕ) → bit_not 16 (fold_sum x) < 65536
unfolding bit_not
cksum_below x = omega arith

ip_sum_low : (s : Segment) → 6 ≤ sum_words (take 20 (ip_header s 0))
unfolding sum_words
ip_sum_low s = omega arith

ip_sum_high : (s : Segment) → IsSegment s → sum_words (take 20 (ip_header s 0)) ≤ 20 * 65535
unfolding are_bytes
ip_sum_high s h = sum_words_bound (take 20 (ip_header s 0)) (ground (arith, h.src_fits, h.dst_fits))

-- A built IPv4 header passes its check.
ip_cksum_closes :
    (s : Segment) → IsSegment s → ip_cksum (ip_header s (ip_cksum (ip_header s 0))) ≡ 0
unfolding ip_cksum
ip_cksum_closes s h =
    ap (λ x. bit_not 16 (fold_sum x)) (sum_words-ip_header s _ (cksum_below _))
    ∙ checksum_closes (sum_words (take 20 (ip_header s 0))) _ (omega (arith, ip_sum_low s))
        (omega (arith, ip_sum_high s h)) refl

are_bytes-append :
    (p q : List ℕ) → are_bytes p ≡ true → are_bytes q ≡ true → are_bytes (p ++ q) ≡ true
unfolding are_bytes
are_bytes-append [] q h k = k
are_bytes-append (x ∷ p) q h k = ground (arith, are_bytes-append p q (ground arith) k)

put16-are_bytes : (v : ℕ) → are_bytes (put16 v) ≡ true
unfolding are_bytes
put16-are_bytes v = ground arith

put32-are_bytes : (v : ℕ) → are_bytes (put32 v) ≡ true
unfolding are_bytes
put32-are_bytes v = ground arith

tcp_bytes : (s : Segment) → IsSegment s → are_bytes (tcp_segment s 0) ≡ true
tcp_bytes s h = are_bytes-append (put16 s.sport) _ (put16-are_bytes s.sport) (
    are_bytes-append (put16 s.dport) _ (put16-are_bytes s.dport) (
      are_bytes-append (put32 s.seq) _ (put32-are_bytes s.seq) (
        are_bytes-append (put32 s.ack) _ (put32-are_bytes s.ack) (
          are_bytes-append (0x50 ∷ s.flags ∷ put16 s.wnd) _
            (unfold are_bytes in ground (arith, h.flags_fits))
            (are_bytes-append (put16 0) _ (put16-are_bytes 0)
              (are_bytes-append (put16 0) _ (put16-are_bytes 0) h.payload_fits))))))

tcp_sum_high :
    (s : Segment)
    → IsSegment s
    → pseudo_sum s.src_ip s.dst_ip (length (tcp_segment s 0)) + sum_words (tcp_segment s 0)
      < 4294901760
tcp_sum_high s h = omega (
  arith,
  h.length_fits,
  sum_words_bound (address_bytes s.src_ip) h.src_fits,
  sum_words_bound (address_bytes s.dst_ip) h.dst_fits,
  sum_words_bound (tcp_segment s 0) (tcp_bytes s h),
)

-- A built segment passes its check.
tcp_cksum_closes :
    (s : Segment)
    → IsSegment s
    → tcp_cksum s.src_ip s.dst_ip (tcp_segment s (tcp_cksum s.src_ip s.dst_ip (tcp_segment s 0)))
      ≡ 0
unfolding tcp_cksum
tcp_cksum_closes s h =
    ap (λ x. bit_not 16 (fold_sum x))
      (ap (λ x. pseudo_sum s.src_ip s.dst_ip (length (tcp_segment s 0)) + x)
          (sum_words-tcp_segment s _ (cksum_below _))
        ∙ omega arith)
    ∙ checksum_closes
        (pseudo_sum s.src_ip s.dst_ip (length (tcp_segment s 0)) + sum_words (tcp_segment s 0)) _
        (omega arith) (tcp_sum_high s h) refl

get16-put16 : (v : ℕ) (p : List ℕ) → v < 65536 → get16 (put16 v ++ p) ≡ v
get16-put16 v p h = word_of v h

get32-put32 : (v : ℕ) (p : List ℕ) → v < 4294967296 → get32 (put32 v ++ p) ≡ v
get32-put32 v p h =
    ap (λ t. bit_or (bit_or t (v / 256 % 256 * 256)) (v % 256))
      (ap (λ t. bit_or t (v / 65536 % 256 * 65536)) {x = v / 16777216 % 256 * 16777216}
          {y = shl 24 (v / 16777216)} (omega arith)
        ∙ or_shl 24 (v / 16777216) (v / 65536 % 256 * 65536) (omega arith))
    ∙ ap (λ t. bit_or t (v % 256))
        (ap (λ t. bit_or t (v / 256 % 256 * 256)) {y = shl 16 (v / 65536)} (omega arith)
          ∙ or_shl 16 (v / 65536) (v / 256 % 256 * 256) (omega arith))
    ∙ ap (λ t. bit_or t (v % 256)) {y = shl 8 (v / 256)} (omega arith)
    ∙ or_shl 8 (v / 256) (v % 256) (omega arith)
    ∙ omega arith

-- The fields of a built frame.
fields_built :
    (s : Segment) (i t : ℕ)
    → IsSegment s
    → fields (ip_header s i ++ tcp_segment s t) (tcp_segment s t) (20 + length s.payload) ≡ s
fields_built s i t h =
    ap₂
      (λ x y. record {
        src_ip = s.src_ip;
        dst_ip = s.dst_ip;
        sport = x;
        dport = y;
        seq = get32 (drop 4 (tcp_segment s t));
        ack = get32 (drop 8 (tcp_segment s t));
        flags = s.flags;
        wnd = get16 (drop 14 (tcp_segment s t));
        payload = take (20 + length s.payload - 20) s.payload;
      })
      (get16-put16 s.sport (drop 2 (tcp_segment s t)) h.sport_fits)
      (get16-put16 s.dport (drop 4 (tcp_segment s t)) h.dport_fits)
    ∙ ap₂
        (λ x y. record s {
          seq = x;
          ack = y;
          wnd = get16 (drop 14 (tcp_segment s t));
          payload = take (20 + length s.payload - 20) s.payload;
        })
        (get32-put32 s.seq (drop 8 (tcp_segment s t)) h.seq_fits)
        (get32-put32 s.ack (drop 12 (tcp_segment s t)) h.ack_fits)
    ∙ ap₂ (λ x y. record s { wnd = x; payload = y })
        (get16-put16 s.wnd (drop 16 (tcp_segment s t)) h.wnd_fits)
        (take_all (20 + length s.payload - 20) s.payload (omega arith))

if_false : {A : Type 0} (b : Bool) (x y : A) → b ≡ false → (if b then x else y) ≡ y
if_false true x y h = absurd (ground arith)
if_false false x y h = refl

whole_segment :
    (s : Segment) (t : ℕ) → take (40 + length s.payload - 20) (tcp_segment s t) ≡ tcp_segment s t
whole_segment s t = take_all (40 + length s.payload - 20) (tcp_segment s t) (omega arith)

parse_segment_built :
    (s : Segment) (i t : ℕ) (len : ℕ)
    → IsSegment s
    → len ≡ 54 + length s.payload
    → tcp_cksum s.src_ip s.dst_ip (tcp_segment s t) ≡ 0
    → parse_segment len (ip_header s i ++ tcp_segment s t) (tcp_segment s t) (40 + length s.payload)
      ≡ some s
parse_segment_built s i t len h e c =
    if_false (ltb (40 + length s.payload) 40 || ltb len (14 + (40 + length s.payload))) none _
      (ground arith)
    ∙ if_false
        (not
          (tcp_cksum s.src_ip s.dst_ip (take (40 + length s.payload - 20) (tcp_segment s t)) == 0))
        none _ (ap (λ x. not (x == 0)) (ap (tcp_cksum s.src_ip s.dst_ip) (whole_segment s t) ∙ c))
    ∙ ap some (
        ap (fields (ip_header s i ++ tcp_segment s t) (tcp_segment s t))
          {x = 40 + length s.payload - 20} {y = 20 + length s.payload} (omega arith)
        ∙ fields_built s i t h)

ip_cksum_prefix :
    (s : Segment) (i : ℕ) (p : List ℕ) → ip_cksum (ip_header s i ++ p) ≡ ip_cksum (ip_header s i)
unfolding ip_cksum
ip_cksum_prefix s i p = refl

parse_ip_built :
    (s : Segment) (i t : ℕ) (len : ℕ)
    → IsSegment s
    → len ≡ 54 + length s.payload
    → ip_cksum (ip_header s i) ≡ 0
    → tcp_cksum s.src_ip s.dst_ip (tcp_segment s t) ≡ 0
    → parse_ip len (ip_header s i ++ tcp_segment s t) ≡ some s
parse_ip_built s i t len h e c d =
    if_false (not (ip_cksum (ip_header s i ++ tcp_segment s t) == 0)) none _
      (ap (λ x. not (x == 0)) (ip_cksum_prefix s i (tcp_segment s t) ∙ c))
    ∙ ap (parse_segment len (ip_header s i ++ tcp_segment s t) (tcp_segment s t))
        (word_of (40 + length s.payload) (omega (arith, h.length_fits)))
    ∙ parse_segment_built s i t len h e d

abbrev frame_of : Segment → ℕ → ℕ → List ℕ
frame_of s i t = remote_mac ++ local_mac ++ put16 0x0800 ++ ip_header s i ++ tcp_segment s t

frame_parse_of :
    (s : Segment) (i t : ℕ)
    → IsSegment s
    → ip_cksum (ip_header s i) ≡ 0
    → tcp_cksum s.src_ip s.dst_ip (tcp_segment s t) ≡ 0
    → frame_parse (frame_of s i t) ≡ some s
unfolding frame_parse
frame_parse_of s i t h c d =
    if_false (ltb (length (frame_of s i t)) 54) none _ (ground arith)
    ∙ parse_ip_built s i t (length (frame_of s i t)) h (omega arith) c d

-- A frame that is built from fields in their ranges and fits in the buffer passes every check of
-- the parser, the two checksums included, and gives the same fields and the same data.
pub frame_build-parse :
    (max : ℕ) (s : Segment) (f : List ℕ)
    → IsSegment s
    → frame_build max s ≡ some f
    → frame_parse f ≡ some s
unfolding frame_build
frame_build-parse max s f h e =
    subst (λ g. frame_parse g ≡ some s)
      {x = frame_of s (ip_cksum (ip_header s 0)) (tcp_cksum s.src_ip s.dst_ip (tcp_segment s 0))}
      (built max (length s.payload) _ f e)
      (frame_parse_of s _ _ h (ip_cksum_closes s h) (tcp_cksum_closes s h))
  where
    built :
        (max n : ℕ) (g f : List ℕ) → (if ltb max (54 + n) then none else some g) ≡ some f → g ≡ f
    built max n g f e = ground arith
