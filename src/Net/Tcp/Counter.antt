-- ===== src/Net/Tcp/Counter.antt =====
-- kernel/net/tcp.c: the retransmission counter over all calls.
use char_os.Base.{
  ℕ, ◌+◌, ◌≡◌, sym, subst, arith, Bool, true, false, not, ◌&&◌, Option, none, some, [], bit_and,
  ◌==◌, ltb, leb, if◌then◌else◌, length, Bool-cases, inl, inr,
}
use char_os.Net.Frame.{Segment, local_ip}
use char_os.Net.Tcp.{
  Pcb, State, closed, syn_sent, established, close_wait, Tcp, has, syn_flag, fin_flag, ack_flag,
  rst_flag, set_pcb,
}
use char_os.Net.Tcp.Input.{
  accepted, take_payload, finished, take_fin, count_dup, take_ack, transfer, shaken, by_state,
  aborted, receive, deliver, handle_segment, same_address, pcb_lookup,
}
use char_os.Net.Tcp.Resend.{
  IsSlot, HasSlots, update-IsSlot, if-HasSlots, send_seg-HasSlots, resend-HasSlots,
}

-- The data, the FIN and the acknowledgement of a segment.
chosen-IsSlot : (b : Bool) (p q : Pcb) → IsSlot p → IsSlot q → IsSlot (if b then p else q)
chosen-IsSlot true p q h k = h
chosen-IsSlot false p q h k = k

take_payload-HasSlots :
    (now : ℕ) (t : Tcp) (i : ℕ) (s : Segment) → HasSlots t → HasSlots (take_payload now t i s)
take_payload-HasSlots now t i s h =
    if-HasSlots (ltb 0 (length s.payload)) _ t
      (send_seg-HasSlots now (set_pcb t i (accepted (t.pcbs i) s)) i ack_flag [] (
        update-IsSlot t.pcbs i _ h (
          chosen-IsSlot (s.seq == (t.pcbs i).rcv_nxt && leb (length s.payload) (t.pcbs i).rcv_wnd) _
            (t.pcbs i) (h i) (h i))))
      h

take_fin-HasSlots :
    (now : ℕ) (t : Tcp) (i : ℕ) (s : Segment) → HasSlots t → HasSlots (take_fin now t i s)
take_fin-HasSlots now t i s h =
    if-HasSlots (has s.flags fin_flag && s.seq == (t.pcbs i).rcv_nxt) _ t
      (send_seg-HasSlots now (set_pcb t i (finished (t.pcbs i))) i ack_flag []
        (update-IsSlot t.pcbs i (finished (t.pcbs i)) h (h i)))
      h

-- The counter of duplicates and the window are no part of the slot.
count_dup-HasSlots :
    (now : ℕ) (t : Tcp) (i : ℕ)
    → HasSlots t
    → (t.pcbs i).rex_active ≡ true
    → HasSlots (count_dup now t i)
count_dup-HasSlots now t i h active =
    if-HasSlots (leb 3 ((t.pcbs i).dupacks + 1)) _ counted
      (resend-HasSlots now counted i slots (here (i == i))) slots
  where
    one_more : Pcb
    one_more = record (t.pcbs i) { dupacks = (t.pcbs i).dupacks + 1 }

    counted : Tcp
    counted = set_pcb t i one_more

    slots : HasSlots counted
    slots = update-IsSlot t.pcbs i one_more h (h i)

    here : (b : Bool) → Pcb.rex_active (if b then one_more else t.pcbs i) ≡ true
    here true = active
    here false = active

acked-IsSlot :
    (p : Pcb) (ack : ℕ) (b : Bool)
    → IsSlot p
    → IsSlot
        (record p { snd_una = ack; dupacks = 0; rex_active = if b then false else p.rex_active })
acked-IsSlot p ack true h = λ e. absurd (ground arith)
acked-IsSlot p ack false h = h

take_ack-HasSlots :
    (now : ℕ) (t : Tcp) (i : ℕ) (s : Segment) → HasSlots t → HasSlots (take_ack now t i s)
take_ack-HasSlots now t i s h = if-HasSlots (not (has s.flags ack_flag)) t _ h (
    if-HasSlots (ltb (t.pcbs i).snd_una s.ack && leb s.ack (t.pcbs i).snd_nxt) _ _
      (update-IsSlot t.pcbs i _ h
        (acked-IsSlot (t.pcbs i) s.ack (s.ack == (t.pcbs i).snd_nxt) (h i)))
      (elim (Bool-cases
        (s.ack == (t.pcbs i).snd_una && (t.pcbs i).rex_active && length s.payload == 0)) [
          | inl e ↦
              subst (λ b. HasSlots (if b then count_dup now t i else t)) (sym e)
                (count_dup-HasSlots now t i h (middle _ _ _ e))
          | inr e ↦ subst (λ b. HasSlots (if b then count_dup now t i else t)) (sym e) h
        ]))
  where
    middle : (a b c : Bool) → (a && b && c) ≡ true → b ≡ true
    middle a b c e = ground arith

transfer-HasSlots :
    (now : ℕ) (t : Tcp) (i : ℕ) (s : Segment) → HasSlots t → HasSlots (transfer now t i s).1
transfer-HasSlots now t i s h =
    take_ack-HasSlots now (take_fin now (take_payload now t i s) i s) i s
      (take_fin-HasSlots now (take_payload now t i s) i s (take_payload-HasSlots now t i s h))

pub if-pair-HasSlots :
    {A : Type 0} (b : Bool) (x y : A × Tcp)
    → HasSlots x.1
    → HasSlots y.1
    → HasSlots (if◌then◌else◌ {A = A × Tcp} b x y).1
if-pair-HasSlots true x y h k = h
if-pair-HasSlots false x y h k = k

by_state-HasSlots :
    (now : ℕ) (t : Tcp) (i : ℕ) (s : Segment) (r : State)
    → HasSlots t
    → HasSlots (by_state now t i s r).1
by_state-HasSlots now t i s syn_sent h =
    if-pair-HasSlots
      (bit_and s.flags (syn_flag + ack_flag) == syn_flag + ack_flag && s.ack == (t.pcbs i).snd_nxt)
      _ (false, t)
      (send_seg-HasSlots now (set_pcb t i (shaken (t.pcbs i) s)) i ack_flag []
        (update-IsSlot t.pcbs i (shaken (t.pcbs i) s) h (λ e. absurd (ground arith))))
      h
by_state-HasSlots now t i s established h = transfer-HasSlots now t i s h
by_state-HasSlots now t i s close_wait h = transfer-HasSlots now t i s h
by_state-HasSlots now t i s closed h = h

receive-HasSlots :
    (now : ℕ) (t : Tcp) (i : ℕ) (s : Segment) → HasSlots t → HasSlots (receive now t i s).1
unfolding receive
receive-HasSlots now t i s h =
    if-pair-HasSlots (has s.flags rst_flag) _ _
      (update-IsSlot t.pcbs i (aborted (t.pcbs i) s) h (λ e. absurd (ground arith)))
      (by_state-HasSlots now (set_pcb t i (record (t.pcbs i) { peer_wnd = s.wnd })) i s
        (t.pcbs i).state (update-IsSlot t.pcbs i (record (t.pcbs i) { peer_wnd = s.wnd }) h (h i)))

deliver-HasSlots :
    (now : ℕ) (t : Tcp) (s : Segment) (o : Option ℕ) → HasSlots t → HasSlots (deliver now t s o).1
deliver-HasSlots now t s none h = h
deliver-HasSlots now t s (some i) h = receive-HasSlots now t i s h

pub handle-HasSlots :
    (now : ℕ) (t : Tcp) (o : Option Segment) → HasSlots t → HasSlots (handle_segment now t o).1
handle-HasSlots now t none h = h
handle-HasSlots now t (some s) h =
    if-pair-HasSlots (same_address s.dst_ip local_ip) _ (false, t)
      (deliver-HasSlots now t s (pcb_lookup t.pcbs s.dport s.sport) h) h
