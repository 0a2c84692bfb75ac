-- ===== src/Net/Tcp/Delivery.antt =====
-- kernel/net/tcp.c: the receive buffer over any calls and segments.
use char_os.Base.{
  ℕ, zero, suc, ◌+◌, ◌≡◌, refl, ap, sym, subst, ◌∙◌, ◌<◌, arith, Bool, true, false, not, ◌||◌,
  Option, none, List, [], ◌∷◌, ◌==◌, leb, if◌then◌else◌, length, Bool-cases, inl, inr,
}
use char_os.Net.Frame.{Segment}
use char_os.Net.Tcp.{
  Pcb, closed, Tcp, max_pcb, max_retx, rbuf_size, ack_flag, psh_flag, set_pcb, send_seg, resend,
  word32, tcp_send_data, send_chunk, chunk, is_established,
}
use char_os.Net.Tcp.Input.{receive}
use char_os.Net.Tcp.Timer.{tick_one, tick_from, tcp_tick, before_deadline}
use char_os.Net.Tcp.Send.{core, send_seg-core, resend-core, update_both}
use char_os.Net.Tcp.Stream.{
  IsOfStream, IsReceiving, receive-IsReceiving, masked, masked-IsReceiving, unmasked,
}

-- What can happen to a connection: a segment for it comes, the timer runs, a process sends on some
-- connection.
pub data Event : Type 0 where
  hears : ℕ → Segment → Event
  ticks : ℕ → Event
  sends : ℕ → ℕ → List ℕ → Event

unfoldable pub happen : Tcp → ℕ → Event → Tcp
happen t i (hears now s) = (receive now t i s).1
happen t i (ticks now) = tcp_tick now t
happen t i (sends now id bytes) = (tcp_send_data now t id bytes).1

unfoldable pub happens : Tcp → ℕ → List Event → Tcp
unfolding happen
happens t i [] = t
happens t i (e ∷ es) = happens (happen t i e) i es

module _ (stream : ℕ → ℕ) (first : ℕ) where
  -- Every segment that comes is one of the stream.
  pub data IsFromPeer : List Event → Type 0 where
    nothing : IsFromPeer []
    heard :
        {now : ℕ} {s : Segment} {es : List Event}
        → IsOfStream stream first s
        → IsFromPeer es
        → IsFromPeer (hears now s ∷ es)
    ticked : {now : ℕ} {es : List Event} → IsFromPeer es → IsFromPeer (ticks now ∷ es)
    sent :
        {now id : ℕ} {bytes : List ℕ} {es : List Event}
        → IsFromPeer es
        → IsFromPeer (sends now id bytes ∷ es)

  abbrev Receives : Tcp → ℕ → Type 0
  Receives t i = IsReceiving stream first (core (t.pcbs i))

  if-Receives :
      (b : Bool) (t u : Tcp) (i : ℕ) → Receives t i → Receives u i → Receives (if b then t else u) i
  if-Receives true t u i h k = h
  if-Receives false t u i h k = k

  given_up-Receives :
      (t : Tcp) (k i : ℕ)
      → Receives t i
      → Receives (set_pcb t k (record (t.pcbs k) { state = closed; rex_active = false })) i
  given_up-Receives t k i h = elim (Bool-cases (i == k)) [
    | inl e ↦
        let same_place : i ≡ k = ground arith in
        let there = subst (λ x. IsReceiving stream first (core (t.pcbs x))) same_place h in
        subst (λ b. IsReceiving stream first (core (if b then gone else t.pcbs i))) (sym e)
          (record {
            begun = λ c. absurd (ground arith);
            prefix = there.prefix;
            next = there.next;
            bound = there.bound;
          })
    | inr e ↦ subst (λ b. IsReceiving stream first (core (if b then gone else t.pcbs i))) (sym e) h
  ]
    where
      gone : Pcb
      gone = record (t.pcbs k) { state = closed; rex_active = false }

  tick_one-Receives : (now : ℕ) (t : Tcp) (k i : ℕ) → Receives t i → Receives (tick_one now t k) i
  unfolding tick_one
  tick_one-Receives now t k i h =
      let u = resend now t k in
      if-Receives (not (t.pcbs k).used || not (t.pcbs k).rex_active) t _ i h (
        if-Receives (before_deadline now (t.pcbs k).rex_deadline) t _ i h (
          if-Receives (leb max_retx (t.pcbs k).rex_count) _
            (set_pcb u k (record (u.pcbs k) { rex_deadline = word32 (now + t.rto) })) i
            (given_up-Receives t k i h)
            (subst (IsReceiving stream first)
              (sym (update_both core u.pcbs k _ refl i ∙ resend-core now t k i)) h)))

  tick_from-Receives :
      (n now : ℕ) (t : Tcp) (k i : ℕ) → Receives t i → Receives (tick_from now t k n) i
  tick_from-Receives zero now t k i h = h
  tick_from-Receives (suc n) now t k i h =
      tick_from-Receives n now (tick_one now t k) (suc k) i (tick_one-Receives now t k i h)

  send_chunk-Receives :
      (now : ℕ) (t : Tcp) (k : ℕ) (bytes : List ℕ) (i : ℕ)
      → Receives t i
      → Receives (send_chunk now t k bytes).1 i
  unfolding masked
  send_chunk-Receives now t k [] i h = h
  send_chunk-Receives now t k (b ∷ bytes) i h =
      let u = send_seg now t k (ack_flag + psh_flag) (b ∷ bytes) in
      unmasked stream first _ (
        subst (IsReceiving stream first)
          (sym (
            update_both (λ p. masked stream first (core p)) u.pcbs k _ refl i
            ∙ ap (masked stream first) (send_seg-core now t k (ack_flag + psh_flag) (b ∷ bytes) i)))
          (masked-IsReceiving stream first (core (t.pcbs i)) h))

  send-Receives :
      (now : ℕ) (t : Tcp) (k : ℕ) (bytes : List ℕ) (i : ℕ)
      → Receives t i
      → Receives (tcp_send_data now t k bytes).1 i
  unfolding tcp_send_data
  send-Receives now t k bytes i h = refused (leb max_pcb k || not (t.pcbs k).used) _ (
      refused (not (is_established (t.pcbs k).state) || length bytes == 0) _
        (send_chunk-Receives now t k (chunk (t.pcbs k) bytes) i h))
    where
      refused :
          (b : Bool) (x : Option ℕ × Tcp)
          → Receives x.1 i
          → Receives (if◌then◌else◌ {A = Option ℕ × Tcp} b (none, t) x).1 i
      refused true x k = h
      refused false x k = k

  -- Whatever segments of the peer's stream come, in whatever order, number and overlap, and
  -- whatever timer runs and sends lie between them, the receive buffer of the connection stays a
  -- first part of the stream, with the next byte expected after it.  Segments carry no FIN, and the
  -- numbers of the stream's first 1024 bytes do not pass 2 ^ 32.
  pub happens-IsReceiving :
      first + rbuf_size < 4294967296
      → (es : List Event) (t : Tcp) (i : ℕ) → IsFromPeer es
      → IsReceiving stream first (core (t.pcbs i))
      → IsReceiving stream first (core ((happens t i es).pcbs i))
  unfolding happens happen tcp_tick
  happens-IsReceiving small [] t i p h = h
  happens-IsReceiving small (hears now s ∷ es) t i (heard o p) h =
      happens-IsReceiving small es (happen t i (hears now s)) i p
        (receive-IsReceiving stream first small now t i s h o)
  happens-IsReceiving small (ticks now ∷ es) t i (ticked p) h =
      happens-IsReceiving small es (happen t i (ticks now)) i p (
        if-Receives t.tcp_on (tick_from now t 0 max_pcb) t i
          (tick_from-Receives max_pcb now t 0 i h) h)
  happens-IsReceiving small (sends now id bytes ∷ es) t i (sent p) h =
      happens-IsReceiving small es (happen t i (sends now id bytes)) i p
        (send-Receives now t id bytes i h)
