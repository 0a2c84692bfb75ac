-- ===== src/Net/Tcp/Moves.antt =====
-- kernel/net/tcp.c: the state machine of a connection.
use char_os.Base.{
  ℕ, ◌+◌, ◌≡◌, refl, ap, sym, subst, ◌∙◌, ◌⊎◌, inl, inr, arith, Bool, true, false, ◌&&◌, List, [],
  bit_and, ◌==◌, ltb, leb, if◌then◌else◌, length, update, Bool-cases,
}
use char_os.Net.Frame.{Segment}
use char_os.Net.Tcp.{
  Pcb, State, closed, syn_sent, established, close_wait, Tcp, has, syn_flag, fin_flag, ack_flag,
  rst_flag, set_pcb, send_seg, resend,
}
use char_os.Net.Tcp.Input.{
  finished, aborted, shaken, handshake, accepted, take_payload, take_fin, take_ack, transfer,
  by_state, receive,
}
use char_os.Net.Tcp.Ack.{seen-take_ack}
use char_os.Net.Tcp.Send.{Core, send_seg-core, resend-core, update_both}

-- One move of the state machine.
pub data Moves : State → State → Type 0 where
  stays : (s : State) → Moves s s
  answered : Moves syn_sent established
  ended : Moves established close_wait
  drops : (s : State) → Moves s closed

-- What the state machine sees of a connection.
abbrev pub Status : Type 0
Status = Bool × State

abbrev pub status : Pcb → Status
status p = (p.used, p.state)

abbrev seen : Core → Status
seen c = (c.used, c.state)

-- A connection before and after a call.
abbrev pub FollowsStatus : Status → Status → Type 0
FollowsStatus s r = (r.0 ≡ s.0) × Moves s.1 r.1

abbrev pub Follows : Pcb → Pcb → Type 0
Follows p q = FollowsStatus (status p) (status q)

pub same : (s r : Status) → r ≡ s → FollowsStatus s r
same s r e = subst (FollowsStatus s) (sym e) (refl, stays s.1)

pub moved_then : (s r q : Status) → FollowsStatus s r → q ≡ r → FollowsStatus s q
moved_then s r q m e = subst (FollowsStatus s) (sym e) m

pub then_moved : (s r q : Status) → r ≡ s → FollowsStatus r q → FollowsStatus s q
then_moved s r q e m = subst (λ x. FollowsStatus x q) e m

pub update_moved :
    (a : ℕ → Pcb) (i : ℕ) (v : Pcb) → Follows (a i) v → (j : ℕ) → Follows (a j) (update a i v j)
update_moved a i v h j = elim (Bool-cases (j == i)) [
  | inl e ↦
      subst (λ b. Follows (a j) (if b then v else a j)) (sym e)
        (subst (λ k. Follows (a k) v) {x = i} {y = j} (ground arith) h)
  | inr e ↦
      subst (λ b. Follows (a j) (if b then v else a j)) (sym e)
        (same (status (a j)) (status (a j)) refl)
]

-- Choosing between two outcomes of a call.
pub if_moved :
    (b : Bool) (p : Pcb) (t u : Tcp) (j : ℕ)
    → Follows p (t.pcbs j)
    → Follows p (u.pcbs j)
    → Follows p ((if b then t else u).pcbs j)
if_moved true p t u j x y = x
if_moved false p t u j x y = y

pub if_status :
    (b : Bool) (s : Status) (t u : Tcp) (j : ℕ)
    → status (t.pcbs j) ≡ s
    → status (u.pcbs j) ≡ s
    → status ((if b then t else u).pcbs j) ≡ s
if_status true s t u j x y = x
if_status false s t u j x y = y

pub status-sent :
    (now : ℕ) (t : Tcp) (i flags : ℕ) (bytes : List ℕ) (j : ℕ)
    → status ((send_seg now t i flags bytes).pcbs j) ≡ status (t.pcbs j)
status-sent now t i flags bytes j = ap seen (send_seg-core now t i flags bytes j)

pub status-resent :
    (now : ℕ) (t : Tcp) (i j : ℕ) → status ((resend now t i).pcbs j) ≡ status (t.pcbs j)
status-resent now t i j = ap seen (resend-core now t i j)

status-accepted : (p : Pcb) (s : Segment) → status (accepted p s) ≡ status p
status-accepted p s = chosen (s.seq == p.rcv_nxt && leb (length s.payload) p.rcv_wnd) _ p refl
  where
    chosen : (b : Bool) (q p : Pcb) → status q ≡ status p → status (if b then q else p) ≡ status p
    chosen true q p e = e
    chosen false q p e = refl

-- The data of a segment and its acknowledgement leave the state alone.
status-take_payload :
    (now : ℕ) (t : Tcp) (i : ℕ) (s : Segment) (j : ℕ)
    → status ((take_payload now t i s).pcbs j) ≡ status (t.pcbs j)
status-take_payload now t i s j =
    if_status (ltb 0 (length s.payload)) _ _ t j
      (status-sent now _ i ack_flag [] j
        ∙ update_both status t.pcbs i _ (status-accepted (t.pcbs i) s) j)
      refl

status-take_ack :
    (now : ℕ) (t : Tcp) (i : ℕ) (s : Segment) (j : ℕ)
    → status ((take_ack now t i s).pcbs j) ≡ status (t.pcbs j)
status-take_ack now t i s j = seen-take_ack seen (λ p a d r. refl) now t i s j

-- A connection that has data to take.
abbrev Open : State → Type 0
Open s = (s ≡ established) ⊎ (s ≡ close_wait)

closing : (s : State) → Open s → Moves s close_wait
closing s (inl e) = subst (λ r. Moves r close_wait) (sym e) ended
closing s (inr e) = subst (λ r. Moves r close_wait) (sym e) (stays close_wait)

take_fin_moved :
    (now : ℕ) (t : Tcp) (i : ℕ) (s : Segment) (j : ℕ)
    → Open (t.pcbs i).state
    → Follows (t.pcbs j) ((take_fin now t i s).pcbs j)
take_fin_moved now t i s j ready =
    if_moved (has s.flags fin_flag && s.seq == (t.pcbs i).rcv_nxt) (t.pcbs j)
      (send_seg now (set_pcb t i (finished (t.pcbs i))) i ack_flag []) t j
      (moved_then _ _ _
        (update_moved t.pcbs i (finished (t.pcbs i)) (refl, closing (t.pcbs i).state ready) j)
        (status-sent now (set_pcb t i (finished (t.pcbs i))) i ack_flag [] j))
      (same _ _ refl)

transfer_moved :
    (now : ℕ) (t : Tcp) (i : ℕ) (s : Segment) (j : ℕ)
    → Open (t.pcbs i).state
    → Follows (t.pcbs j) ((transfer now t i s).1.pcbs j)
transfer_moved now t i s j ready =
    moved_then _ _ _
      (then_moved _ _ _ (status-take_payload now t i s j) (
        take_fin_moved now (take_payload now t i s) i s j
          (subst Open (sym (ap (λ (r : Status). r.1) (status-take_payload now t i s i))) ready)))
      (status-take_ack now _ i s j)

handshake_moved :
    (now : ℕ) (t : Tcp) (i : ℕ) (s : Segment) (j : ℕ)
    → (t.pcbs i).state ≡ syn_sent
    → Follows (t.pcbs j) ((handshake now t i s).1.pcbs j)
handshake_moved now t i s j e =
    choose
      (bit_and s.flags (syn_flag + ack_flag) == syn_flag + ack_flag && s.ack == (t.pcbs i).snd_nxt)
      _
      (moved_then _ _ _
        (update_moved t.pcbs i (shaken (t.pcbs i) s)
          (refl, subst (λ r. Moves r established) (sym e) answered) j)
        (status-sent now (set_pcb t i (shaken (t.pcbs i) s)) i ack_flag [] j))
  where
    choose :
        (b : Bool) (u : Tcp)
        → Follows (t.pcbs j) (u.pcbs j)
        → Follows (t.pcbs j) ((if◌then◌else◌ {A = Bool × Tcp} b (true, u) (false, t)).1.pcbs j)
    choose true u h = h
    choose false u h = same _ _ refl

by_state_moved :
    (now : ℕ) (t : Tcp) (i : ℕ) (s : Segment) (j : ℕ) (r : State)
    → (t.pcbs i).state ≡ r
    → Follows (t.pcbs j) ((by_state now t i s r).1.pcbs j)
by_state_moved now t i s j syn_sent e = handshake_moved now t i s j e
by_state_moved now t i s j established e = transfer_moved now t i s j (inl e)
by_state_moved now t i s j close_wait e = transfer_moved now t i s j (inr e)
by_state_moved now t i s j closed e = same _ _ refl

abbrev windowed : Tcp → ℕ → Segment → Tcp
windowed t i s = set_pcb t i (record (t.pcbs i) { peer_wnd = s.wnd })

status-windowed :
    (t : Tcp) (i : ℕ) (s : Segment) (j : ℕ) → status ((windowed t i s).pcbs j) ≡ status (t.pcbs j)
status-windowed t i s j = update_both status t.pcbs i _ refl j

pub receive_moved :
    (now : ℕ) (t : Tcp) (i : ℕ) (s : Segment) (j : ℕ)
    → Follows (t.pcbs j) ((receive now t i s).1.pcbs j)
unfolding receive
receive_moved now t i s j =
    choose (has s.flags rst_flag) _ _
      (update_moved t.pcbs i (aborted (t.pcbs i) s) (refl, drops (t.pcbs i).state) j)
      (then_moved _ _ _ (status-windowed t i s j) (
        by_state_moved now (windowed t i s) i s j (t.pcbs i).state
          (ap (λ (x : Status). x.1) (status-windowed t i s i))))
  where
    choose :
        (b : Bool) (x y : Bool × Tcp)
        → Follows (t.pcbs j) (x.1.pcbs j)
        → Follows (t.pcbs j) (y.1.pcbs j)
        → Follows (t.pcbs j) ((if◌then◌else◌ {A = Bool × Tcp} b x y).1.pcbs j)
    choose true x y h k = h
    choose false x y h k = k
