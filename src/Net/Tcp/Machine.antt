-- ===== src/Net/Tcp/Machine.antt =====
-- kernel/net/tcp.c: every call moves every connection along the state machine.
use char_os.Base.{
  ℕ, zero, suc, ◌+◌, ◌≡◌, refl, ap, sym, subst, ◌∙◌, ◌⊎◌, arith, Bool, true, false, not, ◌||◌,
  Option, none, some, List, [], ◌∷◌, ◌==◌, leb, if◌then◌else◌, length, update, Bool-cases, inl, inr,
}
use char_os.Net.Frame.{Segment, frame_parse, local_ip}
use char_os.Net.Tcp.{
  Pcb, closed, Tcp, max_pcb, max_retx, set_pcb, send_seg, resend, tcp_init, tcp_connect, connect_at,
  free_pcb, opening, tcp_send_data, send_chunk, chunk, is_established, word32, syn_flag, ack_flag,
  psh_flag, port_after,
}
use char_os.Net.Tcp.Input.{deliver, handle_segment, same_address, pcb_lookup, tcp_input}
use char_os.Net.Tcp.Timer.{tick_one, tick_from, tcp_tick, before_deadline}
use char_os.Net.Tcp.Send.{update_both}
use char_os.Net.Tcp.Moves.{
  Moves, drops, stays, Status, status, FollowsStatus, Follows, same, receive_moved, status-resent,
  status-sent, if_moved,
}

-- What the rest of the kernel calls, with the clock where the call reads it.
pub data Call : Type 0 where
  connects : ℕ → ℕ → ℕ → Call
  sends : ℕ → ℕ → List ℕ → Call
  arrives : ℕ → List ℕ → Call
  ticks : ℕ → Call

unfoldable pub call : Tcp → Call → Tcp
call t (connects now ip port) = (tcp_connect now t ip port).1
call t (sends now id bytes) = (tcp_send_data now t id bytes).1
call t (arrives now f) = (tcp_input now t f).1
call t (ticks now) = tcp_tick now t

deliver_moved :
    (now : ℕ) (t : Tcp) (s : Segment) (o : Option ℕ) (j : ℕ)
    → Follows (t.pcbs j) ((deliver now t s o).1.pcbs j)
deliver_moved now t s none j = same _ _ refl
deliver_moved now t s (some i) j = receive_moved now t i s j

handle_moved :
    (now : ℕ) (t : Tcp) (o : Option Segment) (j : ℕ)
    → Follows (t.pcbs j) ((handle_segment now t o).1.pcbs j)
handle_moved now t none j = same _ _ refl
handle_moved now t (some s) j =
    choose (same_address s.dst_ip local_ip) _
      (deliver_moved now t s (pcb_lookup t.pcbs s.dport s.sport) j)
  where
    choose :
        (b : Bool) (x : Bool × Tcp)
        → Follows (t.pcbs j) (x.1.pcbs j)
        → Follows (t.pcbs j) ((if◌then◌else◌ {A = Bool × Tcp} b x (false, t)).1.pcbs j)
    choose true x h = h
    choose false x h = same _ _ refl

-- A connection that is as before or given up.
abbrev FallsStatus : Status → Status → Type 0
FallsStatus s r = (r.0 ≡ s.0) × ((r.1 ≡ s.1) ⊎ (r.1 ≡ closed))

falls_trans : (s r q : Status) → FallsStatus s r → FallsStatus r q → FallsStatus s q
falls_trans s r q (u, inl e) (v, inl f) = (v ∙ u, inl (f ∙ e))
falls_trans s r q (u, inr e) (v, inl f) = (v ∙ u, inr (f ∙ e))
falls_trans s r q (u, x) (v, inr f) = (v ∙ u, inr f)

falls-FollowsStatus : (s r : Status) → FallsStatus s r → FollowsStatus s r
falls-FollowsStatus s r (u, inl e) = (u, subst (Moves s.1) (sym e) (stays s.1))
falls-FollowsStatus s r (u, inr e) = (u, subst (Moves s.1) (sym e) (drops s.1))

falls_same : (s r : Status) → r ≡ s → FallsStatus s r
falls_same s r e = (ap (λ (x : Status). x.0) e, inl (ap (λ (x : Status). x.1) e))

abbrev given_up : Pcb → Pcb
given_up p = record p { state = closed; rex_active = false }

given_up_falls :
    (a : ℕ → Pcb) (i j : ℕ) → FallsStatus (status (a j)) (status (update a i (given_up (a i)) j))
given_up_falls a i j = elim (Bool-cases (j == i)) [
  | inl e ↦
      subst (λ b. FallsStatus (status (a j)) (status (if b then given_up (a i) else a j))) (sym e)
        (ap (λ k. (a k).used) {x = i} {y = j} (ground arith), inr refl)
  | inr e ↦
      subst (λ b. FallsStatus (status (a j)) (status (if b then given_up (a i) else a j))) (sym e)
        (refl, inl refl)
]

if_falls :
    (b : Bool) (s : Status) (t u : Tcp) (j : ℕ)
    → FallsStatus s (status (t.pcbs j))
    → FallsStatus s (status (u.pcbs j))
    → FallsStatus s (status ((if b then t else u).pcbs j))
if_falls true s t u j x y = x
if_falls false s t u j x y = y

abbrev resent : ℕ → Tcp → ℕ → Tcp
resent now t i =
    let u = resend now t i in
    set_pcb u i (record (u.pcbs i) { rex_deadline = word32 (now + t.rto) })

tick_one_falls :
    (now : ℕ) (t : Tcp) (i j : ℕ)
    → FallsStatus (status (t.pcbs j)) (status ((tick_one now t i).pcbs j))
unfolding tick_one
tick_one_falls now t i j =
    if_falls (not (t.pcbs i).used || not (t.pcbs i).rex_active) _ t _ j (refl, inl refl)
      (if_falls (before_deadline now (t.pcbs i).rex_deadline) _ t _ j (refl, inl refl)
        (if_falls (leb max_retx (t.pcbs i).rex_count) (status (t.pcbs j))
          (set_pcb t i (given_up (t.pcbs i))) (resent now t i) j (given_up_falls t.pcbs i j)
          (falls_same _ _
            (update_both status (resend now t i).pcbs i _ refl j ∙ status-resent now t i j))))

tick_from_falls :
    (n now : ℕ) (t : Tcp) (i j : ℕ)
    → FallsStatus (status (t.pcbs j)) (status ((tick_from now t i n).pcbs j))
tick_from_falls zero now t i j = (refl, inl refl)
tick_from_falls (suc n) now t i j =
    falls_trans (status (t.pcbs j)) (status ((tick_one now t i).pcbs j)) _
      (tick_one_falls now t i j) (tick_from_falls n now (tick_one now t i) (suc i) j)

tick_moved : (now : ℕ) (t : Tcp) (j : ℕ) → Follows (t.pcbs j) ((tcp_tick now t).pcbs j)
unfolding tcp_tick
tick_moved now t j =
    if_moved t.tcp_on (t.pcbs j) (tick_from now t 0 max_pcb) t j
      (falls-FollowsStatus _ _ (tick_from_falls max_pcb now t 0 j)) (same _ _ refl)

send_chunk_moved :
    (now : ℕ) (t : Tcp) (i : ℕ) (bytes : List ℕ) (j : ℕ)
    → Follows (t.pcbs j) ((send_chunk now t i bytes).1.pcbs j)
send_chunk_moved now t i [] j = same _ _ refl
send_chunk_moved now t i (b ∷ bytes) j =
    let u = send_seg now t i (ack_flag + psh_flag) (b ∷ bytes) in
    same _ _ (update_both status u.pcbs i _ refl j ∙ status-sent now t i _ (b ∷ bytes) j)

send_moved :
    (now : ℕ) (t : Tcp) (i : ℕ) (bytes : List ℕ) (j : ℕ)
    → Follows (t.pcbs j) ((tcp_send_data now t i bytes).1.pcbs j)
unfolding tcp_send_data
send_moved now t i bytes j = refused (leb max_pcb i || not (t.pcbs i).used) _ (
    refused (not (is_established (t.pcbs i).state) || length bytes == 0) _
      (send_chunk_moved now t i (chunk (t.pcbs i) bytes) j))
  where
    refused :
        (b : Bool) (x : Option ℕ × Tcp)
        → Follows (t.pcbs j) (x.1.pcbs j)
        → Follows (t.pcbs j) ((if◌then◌else◌ {A = Option ℕ × Tcp} b (none, t) x).1.pcbs j)
    refused true x h = same _ _ refl
    refused false x h = h

-- A new connection takes an entry that is not used.
free_pcb_unused : (a : ℕ → Pcb) (i n k : ℕ) → free_pcb a i n ≡ some k → (a k).used ≡ false
free_pcb_unused a i zero k e = absurd (ground arith)
free_pcb_unused a i (suc n) k e = elim (Bool-cases (a i).used) [
  | inl u ↦ free_pcb_unused a (suc i) n k (ground arith)
  | inr u ↦ let here : i ≡ k = ground arith in subst (λ x. (a x).used ≡ false) here u
]

apart : (a : ℕ → Pcb) (j k : ℕ) → (a j).used ≡ true → (a k).used ≡ false → (j == k) ≡ false
apart a j k u v = elim (Bool-cases (j == k)) [
  | inl e ↦
      let same_place : j ≡ k = ground arith in
      absurd (ground (arith, ap (λ x. (a x).used) same_place))
  | inr e ↦ e
]

update_elsewhere :
    (a : ℕ → Pcb) (i j : ℕ) (v : Pcb) → (j == i) ≡ false → status (update a i v j) ≡ status (a j)
update_elsewhere a i j v e = ap (λ b. status (if b then v else a j)) e

connect_at_moved :
    (now : ℕ) (t : Tcp) (ip port : ℕ) (o : Option ℕ) (j : ℕ)
    → (t.pcbs j).used ≡ true
    → ((k : ℕ) → o ≡ some k → (t.pcbs k).used ≡ false)
    → Follows (t.pcbs j) ((connect_at now t ip port o).1.pcbs j)
connect_at_moved now t ip port none j u free = same _ _ refl
connect_at_moved now t ip port (some i) j u free =
    let p = opening now i t.next_port ip port in
    let v = record (set_pcb t i p) { next_port = port_after t.next_port } in
    let w = send_seg now v i syn_flag [] in
    let away : (j == i) ≡ false = apart t.pcbs j i u (free i refl) in
    same _ _ (
      update_elsewhere w.pcbs i j _ away
      ∙ status-sent now v i syn_flag [] j
      ∙ update_elsewhere t.pcbs i j p away)

connect_moved :
    (now : ℕ) (t : Tcp) (ip port : ℕ) (j : ℕ)
    → t.tcp_on ≡ true
    → (t.pcbs j).used ≡ true
    → Follows (t.pcbs j) ((tcp_connect now t ip port).1.pcbs j)
unfolding tcp_connect
connect_moved now t ip port j on u =
    subst
      (λ v. Follows (t.pcbs j) ((connect_at now v ip port (free_pcb v.pcbs 0 max_pcb)).1.pcbs j))
      {x = t} (sym (ap (λ b. if b then t else tcp_init t) on))
      (connect_at_moved now t ip port (free_pcb t.pcbs 0 max_pcb) j u
        λ k e. free_pcb_unused t.pcbs 0 max_pcb k e)

-- Once TCP is on, a call of tcp_connect, tcp_send_data, tcp_input or tcp_tick takes every connection in
-- use along one move of the state machine at most: from SYN_SENT to ESTABLISHED, from there to
-- CLOSE_WAIT, or from anywhere to CLOSED.  None of these calls frees an entry or takes one in use for
-- a new connection.
pub call-Follows :
    (t : Tcp) (c : Call) (j : ℕ)
    → t.tcp_on ≡ true
    → (t.pcbs j).used ≡ true
    → Follows (t.pcbs j) ((call t c).pcbs j)
unfolding call tcp_input
call-Follows t (connects now ip port) j on u = connect_moved now t ip port j on u
call-Follows t (sends now id bytes) j on u = send_moved now t id bytes j
call-Follows t (arrives now f) j on u = handle_moved now t (frame_parse f) j
call-Follows t (ticks now) j on u = tick_moved now t j
