-- ===== src/Net/Tcp/Input.antt =====
-- kernel/net/tcp.c: a frame that arrives.
use char_os.Base.{
  ℕ, zero, suc, ◌+◌, ◌-◌, Bool, true, false, not, ◌&&◌, ◌||◌, Option, none, some, List, [], ◌++◌,
  bit_and, ◌==◌, ltb, leb, if◌then◌else◌, length, take,
}
use char_os.Net.Frame.{Address, local_ip, Segment, frame_build, frame_parse}
use char_os.Net.Tcp.{
  Pcb, State, closed, syn_sent, established, close_wait, Tcp, max_pcb, rbuf_size, mss, fin_flag,
  syn_flag, rst_flag, ack_flag, word32, has, set_pcb, send_seg, resend,
}

abbrev pub lookup_from : (ℕ → Pcb) → ℕ → ℕ → ℕ → ℕ → Option ℕ
lookup_from pcbs dport sport i zero = none
lookup_from pcbs dport sport i (suc n) =
    if (pcbs i).used && (pcbs i).lport == dport && (pcbs i).rport == sport
    then some i
    else lookup_from pcbs dport sport (suc i) n

-- pcb_lookup
unfoldable pub pcb_lookup : (ℕ → Pcb) → ℕ → ℕ → Option ℕ
pcb_lookup pcbs dport sport = lookup_from pcbs dport sport 0 max_pcb

abbrev pub same_address : Address → Address → Bool
same_address a b =
    a.first == b.first && a.second == b.second && a.third == b.third && a.fourth == b.fourth

-- The connection once its SYN is answered.
abbrev pub shaken : Pcb → Segment → Pcb
shaken p s = record p {
  rcv_nxt = word32 (s.seq + 1);
  snd_una = s.ack;
  state = established;
  rex_active = false;
  dupacks = 0;
}

-- The answer to a SYN: the handshake is complete, or the segment is refused.
abbrev pub handshake : ℕ → Tcp → ℕ → Segment → Bool × Tcp
handshake now t i s =
    let p = t.pcbs i in
    if bit_and s.flags (syn_flag + ack_flag) == syn_flag + ack_flag && s.ack == p.snd_nxt
    then (true, send_seg now (set_pcb t i (shaken p s)) i ack_flag [])
    else (false, t)

-- The bytes of a segment that is in order and in the window, as far as the buffer has room.
abbrev pub accepted : Pcb → Segment → Pcb
accepted p s =
    if s.seq == p.rcv_nxt && leb (length s.payload) p.rcv_wnd
    then (let taken : List ℕ = take (rbuf_size - length p.rbuf) s.payload in
        record p { rbuf = p.rbuf ++ taken; rcv_nxt = word32 (p.rcv_nxt + length taken) })
    else p

abbrev pub take_payload : ℕ → Tcp → ℕ → Segment → Tcp
take_payload now t i s =
    if ltb 0 (length s.payload)
    then send_seg now (set_pcb t i (accepted (t.pcbs i) s)) i ack_flag []
    else t

-- The connection once the peer has closed its side.
abbrev pub finished : Pcb → Pcb
finished p = record p { rcv_nxt = word32 (p.rcv_nxt + 1); state = close_wait }

abbrev pub take_fin : ℕ → Tcp → ℕ → Segment → Tcp
take_fin now t i s =
    let p = t.pcbs i in
    if has s.flags fin_flag && s.seq == p.rcv_nxt
    then send_seg now (set_pcb t i (finished p)) i ack_flag []
    else t

-- The third acknowledgement of the same data sends the segment again.
abbrev pub count_dup : ℕ → Tcp → ℕ → Tcp
count_dup now t i =
    let p = t.pcbs i in
    let u = set_pcb t i (record p { dupacks = p.dupacks + 1 }) in
    if leb 3 (p.dupacks + 1) then resend now u i else u

abbrev pub take_ack : ℕ → Tcp → ℕ → Segment → Tcp
take_ack now t i s =
    let p = t.pcbs i in
    if not (has s.flags ack_flag)
    then t
    else if ltb p.snd_una s.ack && leb s.ack p.snd_nxt
    then set_pcb t i (record p {
      snd_una = s.ack;
      dupacks = 0;
      rex_active = if s.ack == p.snd_nxt then false else p.rex_active;
    })
    else if s.ack == p.snd_una && p.rex_active && length s.payload == 0
    then count_dup now t i
    else t

-- Data, FIN and acknowledgement, in this order.
abbrev pub transfer : ℕ → Tcp → ℕ → Segment → Bool × Tcp
transfer now t i s = (true, take_ack now (take_fin now (take_payload now t i s) i s) i s)

abbrev pub by_state : ℕ → Tcp → ℕ → Segment → State → Bool × Tcp
by_state now t i s syn_sent = handshake now t i s
by_state now t i s established = transfer now t i s
by_state now t i s close_wait = transfer now t i s
by_state now t i s closed = (false, t)

abbrev pub aborted : Pcb → Segment → Pcb
aborted p s = record p { peer_wnd = s.wnd; state = closed; rex_active = false }

-- A segment for connection `i`.
unfoldable pub receive : ℕ → Tcp → ℕ → Segment → Bool × Tcp
receive now t i s =
    let p = t.pcbs i in
    let u = set_pcb t i (record p { peer_wnd = s.wnd }) in
    if has s.flags rst_flag then (true, set_pcb t i (aborted p s)) else by_state now u i s p.state

abbrev pub deliver : ℕ → Tcp → Segment → Option ℕ → Bool × Tcp
deliver now t s none = (false, t)
deliver now t s (some i) = receive now t i s

abbrev pub handle_segment : ℕ → Tcp → Option Segment → Bool × Tcp
handle_segment now t none = (false, t)
handle_segment now t (some s) =
    if same_address s.dst_ip local_ip
    then deliver now t s (pcb_lookup t.pcbs s.dport s.sport)
    else (false, t)

-- tcp_input: whether it returned 0.
unfoldable pub tcp_input : ℕ → Tcp → List ℕ → Bool × Tcp
tcp_input now t f = handle_segment now t (frame_parse f)

-- The segment that tcp_inject and tcp_craft make up for the peer of connection `p`.
abbrev pub incoming : Pcb → ℕ → ℕ → ℕ → List ℕ → Segment
incoming p flags seq ack bytes = record {
  src_ip = p.rip;
  dst_ip = p.lip;
  sport = p.rport;
  dport = p.lport;
  seq = seq;
  ack = ack;
  flags = flags;
  wnd = 1024;
  payload = bytes;
}

abbrev pub input_built : ℕ → Tcp → Option (List ℕ) → Bool × Tcp
input_built now t none = (false, t)
input_built now t (some f) = tcp_input now t f

-- tcp_inject
unfoldable pub tcp_inject : ℕ → Tcp → ℕ → ℕ → ℕ → ℕ → List ℕ → Bool × Tcp
tcp_inject now t id flags seq ack bytes =
    if leb max_pcb id || not (t.pcbs id).used
    then (false, t)
    else input_built now t (frame_build (54 + mss) (incoming (t.pcbs id) flags seq ack bytes))
