-- ===== src/Net/Tcp/Tests.antt =====
-- kernel/net/tcp.c: concrete runs of a connection.
use char_os.Base.{ℕ, ◌≡◌, refl, arith, true, some, List, [], ◌∷◌, copy, update}
use char_os.Base.Bits.{bit_not}
use char_os.Net.Frame.{
  Segment, local_ip, frame_build, frame_parse, ip_cksum, tcp_cksum, fold_sum, sum_words,
}
use char_os.Net.Frame.Sums.{are_bytes}
use char_os.Net.Frame.Parse.{IsSegment, frame_build-parse}
use char_os.Net.Tcp.{Pcb, established, Tcp, blank_pcb, tcp_init, address_of, send_seg, send_seg_at}
use char_os.Net.Tcp.Input.{receive, incoming, tcp_inject}
use char_os.Net.Tcp.Timer.{tcp_tick}
use char_os.Net.Tcp.Send.{core}
use char_os.Net.Tcp.Moves.{Follows, status}
use char_os.Net.Tcp.Machine.{connects, ticks, call, call-Follows}
use char_os.Net.Tcp.Patience.{calls, tick-status}
use char_os.Net.Tcp.Stream.{IsOfStream, IsReceiving}
use char_os.Net.Tcp.Delivery.{hears, happens, nothing, heard, happens-IsReceiving}
use char_os.Net.Tcp.Inject.{tcp_inject-receive}

-- The only connection, established; the peer's next byte has number 5001.
abbrev talking : Pcb
talking = record blank_pcb {
  used = true;
  state = established;
  lip = local_ip;
  rip = address_of 0x0A000202;
  lport = 40000;
  rport = 80;
  snd_nxt = 1001;
  snd_una = 1001;
  rcv_nxt = 5001;
  rcv_wnd = 1024;
  peer_wnd = 65535;
}

abbrev one_connection : Tcp
one_connection = record {
  pcbs = update (λ _. blank_pcb) 0 talking;
  txlog = [];
  tcp_on = true;
  next_port = 40001;
  rto = 30;
  sent = [];
}

-- "hi" with ACK and PSH.
abbrev hi : Segment
hi = incoming talking 0x18 5001 1001 (b'h' ∷ b'i' ∷ [])

hi-IsSegment : IsSegment hi
unfolding are_bytes
hi-IsSegment = record {
  src_fits = refl;
  dst_fits = refl;
  sport_fits = omega arith;
  dport_fits = omega arith;
  seq_fits = omega arith;
  ack_fits = omega arith;
  flags_fits = omega arith;
  wnd_fits = omega arith;
  payload_fits = refl;
  length_fits = omega arith;
}

abbrev hi_frame : List ℕ
hi_frame =
    82 ∷ 84 ∷ 0 ∷ 18 ∷ 52 ∷ 87 ∷ 82 ∷ 84 ∷ 0 ∷ 18 ∷ 52 ∷ 86 ∷ 8 ∷ 0 ∷ 69 ∷ 0 ∷ 0 ∷ 42 ∷ 18 ∷ 52 ∷ 64
    ∷ 0 ∷ 64 ∷ 6 ∷ 16 ∷ 138 ∷ 10 ∷ 0 ∷ 2 ∷ 2 ∷ 10 ∷ 0 ∷ 2 ∷ 15 ∷ 0 ∷ 80 ∷ 156 ∷ 64 ∷ 0 ∷ 0 ∷ 19
    ∷ 137 ∷ 0 ∷ 0 ∷ 3 ∷ 233 ∷ 80 ∷ 24 ∷ 4 ∷ 0 ∷ 119 ∷ 78 ∷ 0 ∷ 0 ∷ 104 ∷ 105 ∷ []

frame_build-parse_example : frame_parse hi_frame ≡ some hi
frame_build-parse_example =
    frame_build-parse 566 hi hi_frame hi-IsSegment
      (unfold frame_build ip_cksum tcp_cksum fold_sum sum_words bit_not in refl)

call-Follows_example : Follows (one_connection.pcbs 0) ((call one_connection (ticks 100)).pcbs 0)
call-Follows_example = call-Follows one_connection (ticks 100) 0 refl refl

-- In front of the connection stands one of the same local port to another port of the peer.
abbrev two_connections : Tcp
two_connections = record one_connection {
  pcbs = update (update (λ _. blank_pcb) 0 (record talking { rport = 81 })) 1 talking;
}

tcp_inject-receive_example :
    tcp_inject 100 two_connections 1 0x18 5001 1001 (b'h' ∷ b'i' ∷ [])
    ≡ receive 100 two_connections 1 hi
tcp_inject-receive_example =
    tcp_inject-receive 100 two_connections 1 0x18 5001 1001 (b'h' ∷ b'i' ∷ []) (omega arith) refl
      refl (λ j lt used l r. ground arith) hi-IsSegment (omega arith)

tick-status_example :
    status (
      (tcp_tick 5000
          (calls (tcp_init one_connection) (connects 10 0x0A000202 80 ∷ ticks 1000 ∷ []))).pcbs
        0)
    ≡ status
        ((calls (tcp_init one_connection) (connects 10 0x0A000202 80 ∷ ticks 1000 ∷ [])).pcbs 0)
tick-status_example =
    tick-status one_connection (connects 10 0x0A000202 80 ∷ ticks 1000 ∷ []) 5000 0

-- The peer's stream is "hi", and so on.
abbrev greeting : ℕ → ℕ
greeting = update (update (λ _. 0) 1 (b'i')) 0 (b'h')

hi-IsOfStream : IsOfStream greeting 5001 hi
hi-IsOfStream = record { no_fin = refl; bytes = λ _. unfold copy in refl }

happens-IsReceiving_example :
    IsReceiving greeting 5001
      (core ((happens one_connection 0 (hears 100 hi ∷ hears 101 hi ∷ [])).pcbs 0))
happens-IsReceiving_example =
    happens-IsReceiving greeting 5001 (omega arith) (hears 100 hi ∷ hears 101 hi ∷ [])
      one_connection 0 (heard hi-IsOfStream (heard hi-IsOfStream nothing))
      (record {
        begun = λ e. absurd (ground arith);
        prefix = unfold copy in refl;
        next = refl;
        bound = omega arith;
      })

-- A FIN that comes with data is not seen: the next number expected is past it by then.
fin_with_data :
    ((receive 100 one_connection 0 (record hi { flags = 0x19 })).1.pcbs 0).state ≡ established
unfolding receive send_seg send_seg_at
fin_with_data = unfold frame_build in refl
