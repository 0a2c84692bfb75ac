-- ===== src/Net/Tcp/Inject.antt =====
-- kernel/net/tcp.c: a frame of the peer reaches its connection.
use char_os.Base.{
  ℕ, zero, suc, ◌+◌, ◌≡◌, ◌==◌, Bool-cases, inl, inr, ap, ◌∙◌, ◌≤◌, ◌<◌, arith, Bool, true, false,
  not, ◌||◌, none, some, List, ltb, leb, if◌then◌else◌, length,
}
use char_os.Net.Frame.{Segment, frame_build, local_ip}
use char_os.Net.Frame.Parse.{IsSegment, frame_build-parse}
use char_os.Net.Tcp.{Pcb, Tcp, max_pcb, mss}
use char_os.Net.Tcp.Input.{
  receive, deliver, handle_segment, same_address, lookup_from, pcb_lookup, tcp_input, incoming,
  input_built, tcp_inject,
}

built : (s : Segment) → length s.payload ≤ mss → (f : List ℕ) × (frame_build (54 + mss) s ≡ some f)
unfolding frame_build
built s h = (_, fits (length s.payload) _ h)
  where
    fits :
        (n : ℕ) (f : List ℕ) → n ≤ mss → (if ltb (54 + mss) (54 + n) then none else some f) ≡ some f
    fits n f h = ground arith

-- A frame that is built for an address of this machine is handled as the segment it was built from.
pub tcp_input-frame_build :
    (now : ℕ) (t : Tcp) (max : ℕ) (s : Segment) (f : List ℕ)
    → IsSegment s
    → s.dst_ip ≡ local_ip
    → frame_build max s ≡ some f
    → tcp_input now t f ≡ deliver now t s (pcb_lookup t.pcbs s.dport s.sport)
unfolding tcp_input
tcp_input-frame_build now t max s f h here e =
    ap (handle_segment now t) (frame_build-parse max s f h e)
    ∙ ap
        (λ a.
          if◌then◌else◌ {A = Bool × Tcp} (same_address a local_ip)
            (deliver now t s (pcb_lookup t.pcbs s.dport s.sport)) (false, t))
        here

-- The search finds the one connection in use that has both ports.
lookup_from-only :
    (n : ℕ) (pcbs : ℕ → Pcb) (id i : ℕ)
    → i ≤ id
    → id < i + n
    → (pcbs id).used ≡ true
    → ((j : ℕ)
        → j < i + n
        → (pcbs j).used ≡ true
        → (pcbs j).lport ≡ (pcbs id).lport
        → (pcbs j).rport ≡ (pcbs id).rport
        → j ≡ id)
    → lookup_from pcbs (pcbs id).lport (pcbs id).rport i n ≡ some id
lookup_from-only zero pcbs id i lo hi used only = absurd (omega arith)
lookup_from-only (suc n) pcbs id i lo hi used only = elim (Bool-cases (i == id)) [
  | inl here ↦ ground (arith, used)
  | inr later ↦
      let rest =
        lookup_from-only n pcbs id (suc i) (ground arith) (omega arith) used
          (λ j lt. only j (omega arith)) in
      ground (arith, only i, rest)
]

-- A segment made up for the peer of a connection goes through the frame, both checksums, the
-- parser and the search for the connection, and is received by that connection, if no other
-- connection in use has both its ports; a connection with one of them may be in front of it.
pub tcp_inject-receive :
    (now : ℕ) (t : Tcp) (id flags seq ack : ℕ) (bytes : List ℕ)
    → id < max_pcb
    → (t.pcbs id).used ≡ true
    → (t.pcbs id).lip ≡ local_ip
    → ((j : ℕ)
        → j < max_pcb
        → (t.pcbs j).used ≡ true
        → (t.pcbs j).lport ≡ (t.pcbs id).lport
        → (t.pcbs j).rport ≡ (t.pcbs id).rport
        → j ≡ id)
    → IsSegment (incoming (t.pcbs id) flags seq ack bytes)
    → length bytes ≤ mss
    → tcp_inject now t id flags seq ack bytes
      ≡ receive now t id (incoming (t.pcbs id) flags seq ack bytes)
unfolding tcp_inject pcb_lookup
tcp_inject-receive now t id flags seq ack bytes low used here only h short =
    let s = incoming (t.pcbs id) flags seq ack bytes in
    let found = lookup_from-only max_pcb t.pcbs id 0 (omega arith) (omega arith) used only in
    let (f, e) = built s short in
    ap
      (λ b.
        if◌then◌else◌ {A = Bool × Tcp} b (false, t) (input_built now t (frame_build (54 + mss) s)))
      (known low used)
    ∙ ap (input_built now t) e
    ∙ tcp_input-frame_build now t (54 + mss) s f h here e
    ∙ ap (deliver now t s) found
  where
    known : {u : Bool} → id < max_pcb → u ≡ true → (leb max_pcb id || not u) ≡ false
    known low used = ground arith
