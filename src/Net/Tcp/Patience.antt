-- ===== src/Net/Tcp/Patience.antt =====
-- kernel/net/tcp.c: the timer over all calls.
use char_os.Base.{
  ℕ, zero, suc, ◌+◌, ◌≡◌, refl, sym, subst, ◌∙◌, ◌≤◌, arith, Bool, true, false, not, ◌||◌, Option,
  none, some, List, [], ◌∷◌, ◌==◌, leb, if◌then◌else◌, length, Bool-cases, inl, inr,
}
use char_os.Net.Frame.{frame_parse}
use char_os.Net.Tcp.{
  Tcp, tcp_init, max_pcb, max_retx, syn_flag, ack_flag, psh_flag, set_pcb, send_seg, resend,
  tcp_connect, connect_at, free_pcb, opening, tcp_send_data, send_chunk, chunk, is_established,
  word32, port_after,
}
use char_os.Net.Tcp.Input.{tcp_input}
use char_os.Net.Tcp.Timer.{tick_one, tick_from, tcp_tick, before_deadline}
use char_os.Net.Tcp.Machine.{Call, connects, sends, arrives, ticks, call}
use char_os.Net.Tcp.Send.{update_both}
use char_os.Net.Tcp.Moves.{status, status-resent}
use char_os.Net.Tcp.Resend.{
  HasSlots, update-IsSlot, if-HasSlots, send_seg-HasSlots, resend-HasSlots,
}
use char_os.Net.Tcp.Counter.{if-pair-HasSlots, handle-HasSlots}

-- With its counter at 1 at most, no connection is given up.
abbrev sent_again : ℕ → Tcp → ℕ → Tcp
sent_again now t i =
    let u = resend now t i in
    set_pcb u i (record (u.pcbs i) { rex_deadline = word32 (now + t.rto) })

abbrev goes_on : ℕ → Tcp → ℕ → Tcp
goes_on now t i =
    if not (t.pcbs i).used || not (t.pcbs i).rex_active
    then t
    else if before_deadline now (t.pcbs i).rex_deadline
    then t
    else sent_again now t i

else_same :
    (b : Bool) (t x y : Tcp) → (b ≡ false → x ≡ y) → (if b then t else x) ≡ (if b then t else y)
else_same true t x y h = refl
else_same false t x y h = h refl

if_false : (b : Bool) (x y : Tcp) → b ≡ false → (if b then x else y) ≡ y
if_false true x y e = absurd (ground arith)
if_false false x y e = refl

second : (a b : Bool) → (not a || not b) ≡ false → b ≡ true
second a b e = ground arith

few : (n : ℕ) → n ≤ 1 → leb max_retx n ≡ false
few n h = ground arith

tick_one-goes_on : (now : ℕ) (t : Tcp) (i : ℕ) → HasSlots t → tick_one now t i ≡ goes_on now t i
unfolding tick_one
tick_one-goes_on now t i h =
    let p = t.pcbs i in
    else_same (not p.used || not p.rex_active) t _ _ λ e.
      else_same (before_deadline now p.rex_deadline) t _ _ λ _.
        if_false (leb max_retx p.rex_count) _ (sent_again now t i)
          (few p.rex_count (h i (second p.used p.rex_active e)).2)

goes_on-HasSlots : (now : ℕ) (t : Tcp) (i : ℕ) → HasSlots t → HasSlots (goes_on now t i)
goes_on-HasSlots now t i h = elim (Bool-cases (not (t.pcbs i).used || not (t.pcbs i).rex_active)) [
  | inl e ↦ subst (λ b. HasSlots (if b then t else rest)) (sym e) h
  | inr e ↦
      let slots = resend-HasSlots now t i h (second (t.pcbs i).used (t.pcbs i).rex_active e) in
      subst (λ b. HasSlots (if b then t else rest)) (sym e)
        (if-HasSlots (before_deadline now (t.pcbs i).rex_deadline) t (sent_again now t i) h
          (update-IsSlot (resend now t i).pcbs i _ slots (slots i)))
]
  where
    rest : Tcp
    rest = if before_deadline now (t.pcbs i).rex_deadline then t else sent_again now t i

-- What a call leaves of the states of all connections.
abbrev SameStates : Tcp → Tcp → Type 0
SameStates t u = (j : ℕ) → status (u.pcbs j) ≡ status (t.pcbs j)

if-SameStates : (b : Bool) (t u : Tcp) → SameStates t u → SameStates t (if b then t else u)
if-SameStates true t u h j = refl
if-SameStates false t u h j = h j

goes_on-SameStates : (now : ℕ) (t : Tcp) (i : ℕ) → SameStates t (goes_on now t i)
goes_on-SameStates now t i = if-SameStates (not (t.pcbs i).used || not (t.pcbs i).rex_active) t _ (
    if-SameStates (before_deadline now (t.pcbs i).rex_deadline) t _
      λ j. update_both status (resend now t i).pcbs i _ refl j ∙ status-resent now t i j)

tick_from-SameStates :
    (n now : ℕ) (t : Tcp) (i : ℕ)
    → HasSlots t
    → HasSlots (tick_from now t i n) × SameStates t (tick_from now t i n)
tick_from-SameStates zero now t i h = (h, λ j. refl)
tick_from-SameStates (suc n) now t i h =
    let (slots, states) =
      subst (λ u. HasSlots u × SameStates t u) (sym (tick_one-goes_on now t i h))
        (goes_on-HasSlots now t i h, goes_on-SameStates now t i) in
    let (all, after) = tick_from-SameStates n now (tick_one now t i) (suc i) slots in
    (all, λ j. after j ∙ states j)

tick-SameStates :
    (now : ℕ) (t : Tcp) → HasSlots t → HasSlots (tcp_tick now t) × SameStates t (tcp_tick now t)
unfolding tcp_tick
tick-SameStates now t h = chosen t.tcp_on
  where
    chosen :
        (b : Bool)
        → HasSlots (if b then tick_from now t 0 max_pcb else t)
          × SameStates t (if b then tick_from now t 0 max_pcb else t)
    chosen true = tick_from-SameStates max_pcb now t 0 h
    chosen false = (h, λ j. refl)

connect_at-HasSlots :
    (now : ℕ) (t : Tcp) (ip port : ℕ) (o : Option ℕ)
    → HasSlots t
    → HasSlots (connect_at now t ip port o).1
connect_at-HasSlots now t ip port none h = h
connect_at-HasSlots now t ip port (some i) h =
    let p = opening now i t.next_port ip port in
    let v = record (set_pcb t i p) { next_port = port_after t.next_port } in
    let w = send_seg now v i syn_flag [] in
    let slots =
      send_seg-HasSlots now v i syn_flag []
        (update-IsSlot t.pcbs i p h (λ e. absurd (ground arith))) in
    update-IsSlot w.pcbs i _ slots (slots i)

init-HasSlots : (t : Tcp) → HasSlots (tcp_init t)
unfolding tcp_init
init-HasSlots t j e = absurd (ground arith)

send_chunk-HasSlots :
    (now : ℕ) (t : Tcp) (i : ℕ) (bytes : List ℕ)
    → HasSlots t
    → HasSlots (send_chunk now t i bytes).1
send_chunk-HasSlots now t i [] h = h
send_chunk-HasSlots now t i (b ∷ bytes) h =
    let u = send_seg now t i (ack_flag + psh_flag) (b ∷ bytes) in
    let slots = send_seg-HasSlots now t i (ack_flag + psh_flag) (b ∷ bytes) h in
    update-IsSlot u.pcbs i _ slots (slots i)

call-HasSlots : (t : Tcp) (c : Call) → HasSlots t → HasSlots (call t c)
unfolding call tcp_input tcp_connect tcp_send_data
call-HasSlots t (connects now ip port) h =
    let u = if t.tcp_on then t else tcp_init t in
    connect_at-HasSlots now u ip port (free_pcb u.pcbs 0 max_pcb)
      (if-HasSlots t.tcp_on t (tcp_init t) h (init-HasSlots t))
call-HasSlots t (sends now id bytes) h =
    if-pair-HasSlots (leb max_pcb id || not (t.pcbs id).used) (none, t) _ h
      (if-pair-HasSlots (not (is_established (t.pcbs id).state) || length bytes == 0) (none, t) _ h
        (send_chunk-HasSlots now t id (chunk (t.pcbs id) bytes) h))
call-HasSlots t (arrives now f) h = handle-HasSlots now t (frame_parse f) h
call-HasSlots t (ticks now) h = (tick-SameStates now t h).0

pub calls : Tcp → List Call → Tcp
calls t [] = t
calls t (c ∷ cs) = calls (call t c) cs

calls-HasSlots : (t : Tcp) (cs : List Call) → HasSlots t → HasSlots (calls t cs)
unfolding calls
calls-HasSlots t [] h = h
calls-HasSlots t (c ∷ cs) h = calls-HasSlots (call t c) cs (call-HasSlots t c h)

-- After tcp_init and any calls, in any order, tcp_tick leaves the state of every connection as it
-- is: no connection is ever given up, however often its segment has been sent again.
pub tick-status :
    (t : Tcp) (cs : List Call) (now j : ℕ)
    → status ((tcp_tick now (calls (tcp_init t) cs)).pcbs j)
      ≡ status ((calls (tcp_init t) cs).pcbs j)
tick-status t cs now j =
    (tick-SameStates now (calls (tcp_init t) cs)
        (calls-HasSlots (tcp_init t) cs (init-HasSlots t))).1
      j
