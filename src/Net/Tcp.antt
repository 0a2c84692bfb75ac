-- ===== src/Net/Tcp.antt =====
-- kernel/net/tcp.c: the connections.  The clock is read once per call and given as `now`; the
-- frames handed to the network card are collected in `sent`, the newest last.  A pointer to data
-- with its length is a list, the null pointer the empty one; the first `rlen` bytes of the receive
-- buffer and the first `rex_len` bytes of the retransmission slot are lists too.
use char_os.Base.{
  ℕ, zero, suc, ◌+◌, ◌-◌, ◌*◌, ◌/◌, ◌%◌, Bool, true, false, not, ◌&&◌, ◌||◌, Option, none, some,
  List, [], ◌∷◌, ◌++◌, bit_and, bit_or, ◌==◌, ltb, leb, if◌then◌else◌, length, take, drop, update,
  get_elem?,
}
use char_os.Net.Frame.{Address, local_ip, Segment, frame_build, frame_parse}
pub mod Input
pub mod Timer
pub mod Send
pub mod Ack
pub mod Moves
pub mod Machine
pub mod Resend
pub mod Counter
pub mod Patience
pub mod Stream
pub mod Delivery
pub mod Inject
mod Tests

abbrev pub max_pcb : ℕ
max_pcb = 4

abbrev pub rbuf_size : ℕ
rbuf_size = 1024

abbrev pub txlog_size : ℕ
txlog_size = 16

abbrev pub max_retx : ℕ
max_retx = 5

abbrev pub mss : ℕ
mss = 512

abbrev pub fin_flag : ℕ
fin_flag = 0x01

abbrev pub syn_flag : ℕ
syn_flag = 0x02

abbrev pub rst_flag : ℕ
rst_flag = 0x04

abbrev pub psh_flag : ℕ
psh_flag = 0x08

abbrev pub ack_flag : ℕ
ack_flag = 0x10

-- Arithmetic of sequence numbers and ticks, in 32 bits.
abbrev pub word32 : ℕ → ℕ
word32 x = x % 4294967296

-- TCP_STATE_*
pub data State : Type 0 where
  closed : State
  syn_sent : State
  established : State
  close_wait : State

-- struct tcp_pcb
pub record Pcb : Type 0 where
  pub used : Bool
  pub state : State
  pub lip : Address
  pub rip : Address
  pub lport : ℕ
  pub rport : ℕ
  pub snd_nxt : ℕ
  pub snd_una : ℕ
  pub rcv_nxt : ℕ
  pub rcv_wnd : ℕ
  pub peer_wnd : ℕ
  pub rex_buf : List ℕ
  pub rex_seq : ℕ
  pub rex_flags : ℕ
  pub rex_deadline : ℕ
  pub rex_count : ℕ
  pub rex_active : Bool
  pub dupacks : ℕ
  pub rbuf : List ℕ

-- struct txe
pub record Txe : Type 0 where
  pub seq : ℕ
  pub ack : ℕ
  pub flags : ℕ
  pub bytes : List ℕ

-- The static variables; `txlog` holds the first `tx_n` entries.
pub record Tcp : Type 0 where
  pub pcbs : ℕ → Pcb
  pub txlog : List Txe
  pub tcp_on : Bool
  pub next_port : ℕ
  pub rto : ℕ
  pub sent : List (List ℕ)

abbrev pub no_address : Address
no_address = record { first = 0; second = 0; third = 0; fourth = 0 }

-- All fields zero.
abbrev pub blank_pcb : Pcb
blank_pcb = record {
  used = false;
  state = closed;
  lip = no_address;
  rip = no_address;
  lport = 0;
  rport = 0;
  snd_nxt = 0;
  snd_una = 0;
  rcv_nxt = 0;
  rcv_wnd = 0;
  peer_wnd = 0;
  rex_buf = [];
  rex_seq = 0;
  rex_flags = 0;
  rex_deadline = 0;
  rex_count = 0;
  rex_active = false;
  dupacks = 0;
  rbuf = [];
}

unfoldable pub tcp_init : Tcp → Tcp
tcp_init t = record t { pcbs = λ _. blank_pcb; txlog = []; tcp_on = true }

-- Whether one of the bits `mask` is set.
abbrev pub has : ℕ → ℕ → Bool
has flags mask = not (bit_and flags mask == 0)

abbrev pub set_pcb : Tcp → ℕ → Pcb → Tcp
set_pcb t i p = record t { pcbs = update t.pcbs i p }

-- pcb_get
abbrev pub pcb_get : Tcp → ℕ → Option Pcb
pcb_get t id = if leb max_pcb id || not (t.pcbs id).used then none else some (t.pcbs id)

unfoldable pub tx_log : List Txe → Txe → List Txe
tx_log log e =
    if leb txlog_size (length log) then log else log ++ (record e { bytes = take 64 e.bytes } ∷ [])

-- `(flags & TCP_ACK) ? p->rcv_nxt : 0`.
abbrev pub ack_field : Pcb → ℕ → ℕ
ack_field p flags = if has flags ack_flag then p.rcv_nxt else 0

-- The segment that tcp_send_seg_at builds.
abbrev pub outgoing : Pcb → ℕ → ℕ → List ℕ → Segment
outgoing p seq flags bytes = record {
  src_ip = p.lip;
  dst_ip = p.rip;
  sport = p.lport;
  dport = p.rport;
  seq = seq;
  ack = ack_field p flags;
  flags = flags;
  wnd = p.rcv_wnd;
  payload = bytes;
}

-- The retransmission slot is set up for a segment that takes up sequence numbers.
abbrev pub armed : Pcb → ℕ → ℕ → ℕ → List ℕ → Pcb
armed p deadline seq flags bytes =
    if ltb 0 (length bytes) || has flags (syn_flag + fin_flag)
    then record p {
      rex_buf = take mss bytes;
      rex_seq = seq;
      rex_flags = flags;
      rex_deadline = deadline;
      rex_count = 0;
      rex_active = true;
      dupacks = 0;
    }
    else p

-- The segment has been built, or does not fit.
abbrev pub transmit : ℕ → Tcp → ℕ → ℕ → ℕ → List ℕ → Option (List ℕ) → Tcp
transmit now t i seq flags bytes none = t
transmit now t i seq flags bytes (some frame) =
    let p = t.pcbs i in
    record t {
      txlog =
          tx_log t.txlog
            (record { seq = seq; ack = ack_field p flags; flags = flags; bytes = bytes });
      sent = t.sent ++ (frame ∷ []);
      pcbs = update t.pcbs i (armed p (word32 (now + t.rto)) seq flags bytes);
    }

-- tcp_send_seg_at; every call arms.
unfoldable pub send_seg_at : ℕ → Tcp → ℕ → ℕ → ℕ → List ℕ → Tcp
send_seg_at now t i seq flags bytes =
    transmit now t i seq flags bytes (frame_build (54 + mss) (outgoing (t.pcbs i) seq flags bytes))

unfoldable pub send_seg : ℕ → Tcp → ℕ → ℕ → List ℕ → Tcp
send_seg now t i flags bytes = send_seg_at now t i (t.pcbs i).snd_nxt flags bytes

-- tcp_resend
unfoldable pub resend : ℕ → Tcp → ℕ → Tcp
resend now t i =
    let p = t.pcbs i in
    let u = send_seg_at now t i p.rex_seq p.rex_flags p.rex_buf in
    let q = u.pcbs i in
    set_pcb u i (record q {
      rex_deadline = word32 (now + t.rto);
      rex_count = (q.rex_count + 1) % 256;
      dupacks = 0;
    })

-- The first entry that is not used among the `n` from `i`.
abbrev pub free_pcb : (ℕ → Pcb) → ℕ → ℕ → Option ℕ
free_pcb pcbs i zero = none
free_pcb pcbs i (suc n) = if (pcbs i).used then free_pcb pcbs (suc i) n else some i

abbrev pub address_of : ℕ → Address
address_of ip = record {
  first = ip / 16777216 % 256;
  second = ip / 65536 % 256;
  third = ip / 256 % 256;
  fourth = ip % 256;
}

-- A connection before its SYN.
abbrev pub opening : ℕ → ℕ → ℕ → ℕ → ℕ → Pcb
opening now id port remote_ip remote_port = record blank_pcb {
  used = true;
  state = syn_sent;
  lip = local_ip;
  rip = address_of remote_ip;
  lport = port;
  rport = remote_port;
  snd_nxt = word32 (now + id * 0x10000 + 1000);
  snd_una = word32 (now + id * 0x10000 + 1000);
  rcv_wnd = 1024;
  peer_wnd = 65535;
}

abbrev pub port_after : ℕ → ℕ
port_after port = if ltb ((port + 1) % 65536) 40000 then 40000 else (port + 1) % 65536

abbrev pub connect_at : ℕ → Tcp → ℕ → ℕ → Option ℕ → Option ℕ × Tcp
connect_at now t remote_ip remote_port none = (none, t)
connect_at now t remote_ip remote_port (some id) =
    let p = opening now id t.next_port remote_ip remote_port in
    let u =
      send_seg now (record (set_pcb t id p) { next_port = port_after t.next_port }) id syn_flag
        [] in
    (some id, set_pcb u id (record (u.pcbs id) { snd_nxt = word32 (p.snd_nxt + 1) }))

-- tcp_connect: the handle, or none for -1.
unfoldable pub tcp_connect : ℕ → Tcp → ℕ → ℕ → Option ℕ × Tcp
tcp_connect now t remote_ip remote_port =
    let u = if t.tcp_on then t else tcp_init t in
    connect_at now u remote_ip remote_port (free_pcb u.pcbs 0 max_pcb)

-- The bytes of one segment: no more than a segment holds and than the peer's window takes.
abbrev pub chunk : Pcb → List ℕ → List ℕ
chunk p bytes = take p.peer_wnd (take mss bytes)

abbrev pub send_chunk : ℕ → Tcp → ℕ → List ℕ → Option ℕ × Tcp
send_chunk now t id [] = (some 0, t)
send_chunk now t id (b ∷ bytes) =
    let u = send_seg now t id (ack_flag + psh_flag) (b ∷ bytes) in
    (
      some (length (b ∷ bytes)),
      set_pcb u id
          (record (u.pcbs id) { snd_nxt = word32 ((u.pcbs id).snd_nxt + length (b ∷ bytes)) }),
    )

abbrev pub is_established : State → Bool
is_established established = true
is_established closed = false
is_established syn_sent = false
is_established close_wait = false

-- tcp_send_data: the number of bytes sent, or none for -1.
unfoldable pub tcp_send_data : ℕ → Tcp → ℕ → List ℕ → Option ℕ × Tcp
tcp_send_data now t id bytes =
    if leb max_pcb id || not (t.pcbs id).used
    then (none, t)
    else if not (is_established (t.pcbs id).state) || length bytes == 0
    then (none, t)
    else send_chunk now t id (chunk (t.pcbs id) bytes)
