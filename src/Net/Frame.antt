-- ===== src/Net/Frame.antt =====
-- kernel/net/tcp.c: building and parsing an Ethernet frame with an IPv4 header and a TCP segment.
-- A buffer with its length is the list of its bytes.  `x & 0xFF` is written `x % 256`, `x << 8` is
-- `x * 256` and `x >> 8` is `x / 256`.
use char_os.Base.{
  ℕ, zero, suc, ◌+◌, ◌-◌, ◌*◌, ◌/◌, ◌%◌, ◌^◌, Bool, true, false, not, ◌&&◌, ◌||◌, Option, none,
  some, List, [], ◌∷◌, ◌++◌, bit_or, ◌==◌, ltb, leb, if◌then◌else◌, length, take, drop,
}
use char_os.Base.Bits.{bit_not}
pub mod Sums
pub mod Parse

abbrev pub eth_len : ℕ
eth_len = 14

abbrev pub ip_len : ℕ
ip_len = 20

abbrev pub hdr_len : ℕ
hdr_len = 20

-- The four bytes of an address.
pub record Address : Type 0 where
  pub first : ℕ
  pub second : ℕ
  pub third : ℕ
  pub fourth : ℕ

abbrev pub address_bytes : Address → List ℕ
address_bytes a = a.first ∷ a.second ∷ a.third ∷ a.fourth ∷ []

abbrev pub local_ip : Address
local_ip = record { first = 10; second = 0; third = 2; fourth = 15 }

abbrev pub local_mac : List ℕ
local_mac = 0x52 ∷ 0x54 ∷ 0x00 ∷ 0x12 ∷ 0x34 ∷ 0x56 ∷ []

abbrev pub remote_mac : List ℕ
remote_mac = 0x52 ∷ 0x54 ∷ 0x00 ∷ 0x12 ∷ 0x34 ∷ 0x57 ∷ []

-- The bytes that put16 and put32 store.
abbrev pub put16 : ℕ → List ℕ
put16 v = v / 256 % 256 ∷ v % 256 ∷ []

abbrev pub put32 : ℕ → List ℕ
put32 v = v / 16777216 % 256 ∷ v / 65536 % 256 ∷ v / 256 % 256 ∷ v % 256 ∷ []

-- `p[i]`.
abbrev pub byte : List ℕ → ℕ → ℕ
byte [] i = 0
byte (x ∷ xs) zero = x
byte (x ∷ xs) (suc i) = byte xs i

abbrev pub get16 : List ℕ → ℕ
get16 p = bit_or (byte p 0 * 256) (byte p 1)

abbrev pub get32 : List ℕ → ℕ
get32 p =
    bit_or (bit_or (bit_or (byte p 0 * 16777216) (byte p 1 * 65536)) (byte p 2 * 256)) (byte p 3)

-- The 16-bit words of a buffer, the last byte of an odd one padded, added up.
unfoldable pub sum_words : List ℕ → ℕ
sum_words [] = 0
sum_words (a ∷ []) = a * 256
sum_words (a ∷ b ∷ p) = bit_or (a * 256) b + sum_words p

-- `while (sum >> 16) sum = (sum & 0xFFFF) + (sum >> 16);` on fuel; a 32-bit sum takes two turns.
abbrev pub fold_from : ℕ → ℕ → ℕ
fold_from zero sum = sum
fold_from (suc n) sum =
    let next = fold_from n (sum % 65536 + sum / 65536) in if sum / 65536 == 0 then sum else next

-- A 32-bit sum folded to 16 bits.
unfoldable pub fold_sum : ℕ → ℕ
fold_sum sum = fold_from 3 (sum % 4294967296)

unfoldable pub ip_cksum : List ℕ → ℕ
ip_cksum h = bit_not 16 (fold_sum (sum_words (take 20 h)))

-- The sum over the pseudo header: both addresses, the protocol and the length.
abbrev pub pseudo_sum : Address → Address → ℕ → ℕ
pseudo_sum src dst len =
    sum_words (address_bytes src) + sum_words (address_bytes dst) + 6 + len % 65536

unfoldable pub tcp_cksum : Address → Address → List ℕ → ℕ
tcp_cksum src dst seg = bit_not 16 (fold_sum (pseudo_sum src dst (length seg) + sum_words seg))

-- What a frame carries.
pub record Segment : Type 0 where
  pub src_ip : Address
  pub dst_ip : Address
  pub sport : ℕ
  pub dport : ℕ
  pub seq : ℕ
  pub ack : ℕ
  pub flags : ℕ
  pub wnd : ℕ
  pub payload : List ℕ

-- The IPv4 header with a value in its checksum field.
abbrev pub ip_header : Segment → ℕ → List ℕ
ip_header s sum =
    (0x45 ∷ 0 ∷ put16 (ip_len + hdr_len + length s.payload))
    ++ put16 0x1234
    ++ put16 0x4000
    ++ (64 ∷ 6 ∷ put16 sum)
    ++ address_bytes s.src_ip
    ++ address_bytes s.dst_ip

-- The TCP header with a value in its checksum field, and the data.
abbrev pub tcp_segment : Segment → ℕ → List ℕ
tcp_segment s sum =
    put16 s.sport
    ++ put16 s.dport
    ++ put32 s.seq
    ++ put32 s.ack
    ++ (0x50 ∷ s.flags ∷ put16 s.wnd)
    ++ put16 sum
    ++ put16 0
    ++ s.payload

-- frame_build: the frame, or none when it does not fit in `max` bytes.
unfoldable pub frame_build : ℕ → Segment → Option (List ℕ)
frame_build max s =
    if ltb max (eth_len + ip_len + hdr_len + length s.payload)
    then none
    else some (
        remote_mac
        ++ local_mac
        ++ put16 0x0800
        ++ ip_header s (ip_cksum (ip_header s 0))
        ++ tcp_segment s (tcp_cksum s.src_ip s.dst_ip (tcp_segment s 0)))

-- Four bytes from `p`.
abbrev pub address_at : List ℕ → Address
address_at p = record { first = byte p 0; second = byte p 1; third = byte p 2; fourth = byte p 3 }

-- The fields, once the checks are passed; `ip` and `th` are the two headers, `tlen` the length of
-- the segment.
abbrev pub fields : List ℕ → List ℕ → ℕ → Segment
fields ip th tlen = record {
  src_ip = address_at (drop 12 ip);
  dst_ip = address_at (drop 16 ip);
  sport = get16 th;
  dport = get16 (drop 2 th);
  seq = get32 (drop 4 th);
  ack = get32 (drop 8 th);
  flags = byte th 13;
  wnd = get16 (drop 14 th);
  payload = take (tlen - hdr_len) (drop hdr_len th);
}

-- The checks from the total length on.
abbrev pub parse_segment : ℕ → List ℕ → List ℕ → ℕ → Option Segment
parse_segment len ip th iplen =
    if ltb iplen (ip_len + hdr_len) || ltb len (eth_len + iplen)
    then none
    else if not (byte th 12 / 16 == 5)
    then none
    else if not (
        tcp_cksum (address_at (drop 12 ip)) (address_at (drop 16 ip)) (take (iplen - ip_len) th)
        == 0)
    then none
    else some (fields ip th (iplen - ip_len))

abbrev pub parse_ip : ℕ → List ℕ → Option Segment
parse_ip len ip =
    if not (byte ip 0 / 16 == 4) || not (byte ip 0 % 16 == 5)
    then none
    else if not (byte ip 9 == 6)
    then none
    else if not (ip_cksum ip == 0)
    then none
    else parse_segment len ip (drop ip_len ip) (get16 (drop 2 ip))

-- frame_parse: the fields, or none for a frame that fails a check.
unfoldable pub frame_parse : List ℕ → Option Segment
frame_parse f =
    if ltb (length f) (eth_len + ip_len + hdr_len)
    then none
    else if not (byte f 12 == 0x08) || not (byte f 13 == 0x00)
    then none
    else parse_ip (length f) (drop eth_len f)
