-- ===== src/Net/Tcp/Stream.antt =====
-- kernel/net/tcp.c: the receive buffer against the stream the peer sends.
use char_os.Base.{
  ℕ, zero, suc, ◌+◌, ◌-◌, ◌≡◌, ◌≢◌, refl, ap, ap₂, sym, subst, ◌∙◌, ◌≤◌, ◌<◌, arith, Bool, true,
  false, ◌&&◌, List, [], ◌∷◌, ◌++◌, ◌==◌, ltb, leb, if◌then◌else◌, length, length-append, take,
  Bool-cases, inl, inr, ==_self, copy,
}
use char_os.Net.Frame.{Segment}
use char_os.Net.Tcp.{
  Pcb, State, closed, syn_sent, established, close_wait, Tcp, rbuf_size, has, fin_flag, rst_flag,
  ack_flag, set_pcb, send_seg, word32,
}
use char_os.Net.Tcp.Input.{
  finished, accepted, take_payload, take_fin, take_ack, transfer, by_state, aborted, receive,
}
use char_os.Net.Tcp.Send.{Core, core, send_seg-core}
use char_os.Net.Tcp.Ack.{seen-take_ack}

-- Parts of an array put together, and a part of a part.
copy_join : {A : Type 0} (a : ℕ → A) (i n m : ℕ) → copy a i n ++ copy a (i + n) m ≡ copy a i (n + m)
unfolding copy
copy_join a i zero m = ap₂ (copy a) (omega arith) (omega arith)
copy_join a i (suc n) m =
    ap (λ l. a i ∷ l)
      (ap (λ k. copy a (i + 1) n ++ copy a k m) (omega arith) ∙ copy_join a (i + 1) n m)
    ∙ ap (copy a i) {x = suc (n + m)} (omega arith)

take-copy :
    {A : Type 0} (a : ℕ → A) (k i n : ℕ)
    → take k (copy a i n) ≡ copy a i (length (take k (copy a i n)))
unfolding copy
take-copy a zero i n = refl
take-copy a (suc k) i zero = refl
take-copy a (suc k) i (suc n) = ap (λ l. a i ∷ l) (take-copy a k (i + 1) n)

length-take_bound : (n : ℕ) (xs : List ℕ) → length (take n xs) ≤ n
length-take_bound zero xs = omega arith
length-take_bound (suc n) [] = omega arith
length-take_bound (suc n) (x ∷ xs) = omega (arith, length-take_bound n xs)

-- The peer sends the bytes `stream 0`, `stream 1`, and so on; `first` is the sequence number of
-- `stream 0`.
module _ (stream : ℕ → ℕ) (first : ℕ) where
  -- A segment without FIN that carries bytes of the stream from its sequence number on.
  pub record IsOfStream (s : Segment) : Type 0 where
    pub no_fin : has s.flags fin_flag ≡ false
    pub bytes : first ≤ s.seq → s.payload ≡ copy stream (s.seq - first) (length s.payload)

  -- The receive buffer holds a first part of the stream, and the next number expected is the one
  -- of the byte after it.
  pub record IsReceiving (c : Core) : Type 0 where
    pub begun : c.state ≢ syn_sent
    pub prefix : c.rbuf ≡ copy stream 0 (length c.rbuf)
    pub next : c.rcv_nxt ≡ first + length c.rbuf
    pub bound : length c.rbuf ≤ rbuf_size

  taken_part :
      (k i : ℕ) (l : List ℕ)
      → l ≡ copy stream i (length l)
      → take k l ≡ copy stream i (length (take k l))
  taken_part k i l e =
      ap (take k) e
      ∙ take-copy stream k i (length l)
      ∙ ap (λ x. copy stream i (length (take k x))) (sym e)

  appended :
      (k : ℕ) (r l : List ℕ)
      → r ≡ copy stream 0 (length r)
      → l ≡ copy stream (length r) (length l)
      → r ++ take k l ≡ copy stream 0 (length (r ++ take k l))
  appended k r l e f =
      ap₂ ◌++◌ e (taken_part k (length r) l f)
      ∙ ap (λ i. copy stream 0 (length r) ++ copy stream i (length (take k l))) {x = length r}
          {y = 0 + length r} (omega arith)
      ∙ copy_join stream 0 (length r) (length (take k l))
      ∙ ap (copy stream 0) (sym (length-append r (take k l)))

  -- In-order data is put behind what has been received.
  taken-IsReceiving :
      first + rbuf_size < 4294967296
      → (p : Pcb) (s : Segment) → IsReceiving (core p)
      → IsOfStream s
      → s.seq ≡ p.rcv_nxt
      → IsReceiving (
          core (record p {
            rbuf = p.rbuf ++ take (rbuf_size - length p.rbuf) s.payload;
            rcv_nxt = word32 (p.rcv_nxt + length (take (rbuf_size - length p.rbuf) s.payload));
          }))
  taken-IsReceiving small p s h o e =
      let room : length (take (rbuf_size - length p.rbuf) s.payload) ≤ rbuf_size - length p.rbuf =
        length-take_bound (rbuf_size - length p.rbuf) s.payload in
      let from : s.payload ≡ copy stream (length p.rbuf) (length s.payload) =
        o.bytes (omega (arith, e, h.next))
        ∙ ap (λ i. copy stream i (length s.payload)) (omega (arith, e, h.next)) in
      record {
        begun = h.begun;
        prefix = appended (rbuf_size - length p.rbuf) p.rbuf s.payload h.prefix from;
        next = omega (
          arith,
          small,
          room,
          h.next,
          h.bound,
          length-append p.rbuf (take (rbuf_size - length p.rbuf) s.payload),
        );
        bound = omega (
          arith,
          room,
          h.bound,
          length-append p.rbuf (take (rbuf_size - length p.rbuf) s.payload),
        );
      }

  accepted-IsReceiving :
      first + rbuf_size < 4294967296
      → (p : Pcb) (s : Segment) → IsReceiving (core p)
      → IsOfStream s
      → IsReceiving (core (accepted p s))
  accepted-IsReceiving small p s h o =
      elim (Bool-cases (s.seq == p.rcv_nxt && leb (length s.payload) p.rcv_wnd)) [
        | inl e ↦
            subst (λ b. IsReceiving (core (if b then more else p))) (sym e)
              (taken-IsReceiving small p s h o (ground arith))
        | inr e ↦ subst (λ b. IsReceiving (core (if b then more else p))) (sym e) h
      ]
    where
      more : Pcb
      more = record p {
        rbuf = p.rbuf ++ take (rbuf_size - length p.rbuf) s.payload;
        rcv_nxt = word32 (p.rcv_nxt + length (take (rbuf_size - length p.rbuf) s.payload));
      }

  pub stored : (t : Tcp) (i : ℕ) (p : Pcb) → core ((set_pcb t i p).pcbs i) ≡ core p
  stored t i p = ap (λ b. core (if b then p else t.pcbs i)) (==_self i)

  take_payload-IsReceiving :
      first + rbuf_size < 4294967296
      → (now : ℕ) (t : Tcp) (i : ℕ) (s : Segment) → IsReceiving (core (t.pcbs i))
      → IsOfStream s
      → IsReceiving (core ((take_payload now t i s).pcbs i))
  take_payload-IsReceiving small now t i s h o = chosen (ltb 0 (length s.payload)) _ (
      subst IsReceiving
        (sym (
          send_seg-core now (set_pcb t i (accepted (t.pcbs i) s)) i ack_flag [] i
          ∙ stored t i (accepted (t.pcbs i) s)))
        (accepted-IsReceiving small (t.pcbs i) s h o))
    where
      chosen :
          (b : Bool) (u : Tcp)
          → IsReceiving (core (u.pcbs i))
          → IsReceiving (core ((if b then u else t).pcbs i))
      chosen true u k = k
      chosen false u k = h

  take_fin_none :
      (now : ℕ) (t : Tcp) (i : ℕ) (s : Segment)
      → has s.flags fin_flag ≡ false
      → take_fin now t i s ≡ t
  take_fin_none now t i s e =
      ap
        (λ b.
          if b && s.seq == (t.pcbs i).rcv_nxt
          then send_seg now (set_pcb t i (finished (t.pcbs i))) i ack_flag []
          else t)
        e

  -- The numbers of what is sent have no part in it.
  unfoldable pub masked : Core → Core
  masked c = record c { snd_una = 0; snd_nxt = 0 }

  pub masked-IsReceiving : (c : Core) → IsReceiving c → IsReceiving (masked c)
  unfolding masked
  masked-IsReceiving c k = record {
    begun = k.begun;
    prefix = k.prefix;
    next = k.next;
    bound = k.bound;
  }

  pub unmasked : (c : Core) → IsReceiving (masked c) → IsReceiving c
  unfolding masked
  unmasked c k = record { begun = k.begun; prefix = k.prefix; next = k.next; bound = k.bound }

  transfer-IsReceiving :
      first + rbuf_size < 4294967296
      → (now : ℕ) (t : Tcp) (i : ℕ) (s : Segment) → IsReceiving (core (t.pcbs i))
      → IsOfStream s
      → IsReceiving (core ((transfer now t i s).1.pcbs i))
  unfolding masked
  transfer-IsReceiving small now t i s h o =
      let u = take_payload now t i s in
      subst (λ v. IsReceiving (core ((take_ack now v i s).pcbs i)))
        (sym (take_fin_none now u i s o.no_fin))
        (acknowledged u (take_payload-IsReceiving small now t i s h o))
    where
      acknowledged :
          (u : Tcp)
          → IsReceiving (core (u.pcbs i))
          → IsReceiving (core ((take_ack now u i s).pcbs i))
      acknowledged u k = unmasked (core ((take_ack now u i s).pcbs i)) (
          subst IsReceiving (sym (seen-take_ack masked (λ p a d r. refl) now u i s i))
            (masked-IsReceiving (core (u.pcbs i)) k))

  by_state-IsReceiving :
      first + rbuf_size < 4294967296
      → (now : ℕ) (t : Tcp) (i : ℕ) (s : Segment) (r : State) → r ≢ syn_sent
      → IsReceiving (core (t.pcbs i))
      → IsOfStream s
      → IsReceiving (core ((by_state now t i s r).1.pcbs i))
  by_state-IsReceiving small now t i s syn_sent ne h o = absurd (ne refl)
  by_state-IsReceiving small now t i s established ne h o = transfer-IsReceiving small now t i s h o
  by_state-IsReceiving small now t i s close_wait ne h o = transfer-IsReceiving small now t i s h o
  by_state-IsReceiving small now t i s closed ne h o = h

  pub receive-IsReceiving :
      first + rbuf_size < 4294967296
      → (now : ℕ) (t : Tcp) (i : ℕ) (s : Segment) → IsReceiving (core (t.pcbs i))
      → IsOfStream s
      → IsReceiving (core ((receive now t i s).1.pcbs i))
  unfolding receive
  receive-IsReceiving small now t i s h o =
      chosen (has s.flags rst_flag) (true, set_pcb t i (aborted (t.pcbs i) s)) _
        (subst IsReceiving (sym (stored t i (aborted (t.pcbs i) s))) (record {
          begun = λ e. absurd (ground arith);
          prefix = h.prefix;
          next = h.next;
          bound = h.bound;
        }))
        (by_state-IsReceiving small now (set_pcb t i windowed) i s (t.pcbs i).state h.begun
          (subst IsReceiving (sym (stored t i windowed))
            (record { begun = h.begun; prefix = h.prefix; next = h.next; bound = h.bound }))
          o)
    where
      windowed : Pcb
      windowed = record (t.pcbs i) { peer_wnd = s.wnd }

      chosen :
          (b : Bool) (x y : Bool × Tcp)
          → IsReceiving (core (x.1.pcbs i))
          → IsReceiving (core (y.1.pcbs i))
          → IsReceiving (core ((if◌then◌else◌ {A = Bool × Tcp} b x y).1.pcbs i))
      chosen true x y k l = k
      chosen false x y k l = l
