-- ===== src/Net/Tcp/Timer.antt =====
-- kernel/net/tcp.c: the timer and the calls that read or set one field.
use char_os.Base.{
  ℕ, zero, suc, ◌+◌, ◌-◌, Bool, false, not, ◌||◌, Option, none, some, List, ◌==◌, leb,
  if◌then◌else◌, length, take, get_elem?,
}
use char_os.Net.Frame.{frame_build}
use char_os.Net.Tcp.{
  Pcb, State, closed, Tcp, Txe, max_pcb, max_retx, word32, set_pcb, pcb_get, resend,
}
use char_os.Net.Tcp.Input.{incoming}

-- `(int32_t)(now - deadline) < 0`: the deadline has not come.
abbrev pub before_deadline : ℕ → ℕ → Bool
before_deadline now deadline = leb 2147483648 (word32 (now + 4294967296 - deadline))

-- Connection `i` in the loop of tcp_tick.
unfoldable pub tick_one : ℕ → Tcp → ℕ → Tcp
tick_one now t i =
    let p = t.pcbs i in
    if not p.used || not p.rex_active
    then t
    else if before_deadline now p.rex_deadline
    then t
    else if leb max_retx p.rex_count
    then set_pcb t i (record p { state = closed; rex_active = false })
    else (let u = resend now t i in
        set_pcb u i (record (u.pcbs i) { rex_deadline = word32 (now + t.rto) }))

abbrev pub tick_from : ℕ → Tcp → ℕ → ℕ → Tcp
tick_from now t i zero = t
tick_from now t i (suc n) = tick_from now (tick_one now t i) (suc i) n

unfoldable pub tcp_tick : ℕ → Tcp → Tcp
tcp_tick now t = if t.tcp_on then tick_from now t 0 max_pcb else t

unfoldable pub tcp_set_rto : Tcp → ℕ → Tcp
tcp_set_rto t ticks = record t { rto = if ticks == 0 then 1 else ticks }

unfoldable pub tcp_set_rwnd : Tcp → ℕ → ℕ → Tcp
tcp_set_rwnd t id wnd =
    if leb max_pcb id || not (t.pcbs id).used
    then t
    else set_pcb t id (record (t.pcbs id) { rcv_wnd = wnd })

abbrev pub if_pcb {ℓ} : {A : Type ℓ} → A → (Pcb → A) → Option Pcb → A
if_pcb d f none = d
if_pcb d f (some p) = f p

unfoldable pub tcp_state : Tcp → ℕ → Option State
tcp_state t id = if_pcb none (λ p. some p.state) (pcb_get t id)

unfoldable pub tcp_snd_nxt : Tcp → ℕ → ℕ
tcp_snd_nxt t id = if_pcb 0 (λ p. p.snd_nxt) (pcb_get t id)

unfoldable pub tcp_snd_una : Tcp → ℕ → ℕ
tcp_snd_una t id = if_pcb 0 (λ p. p.snd_una) (pcb_get t id)

unfoldable pub tcp_rcv_nxt : Tcp → ℕ → ℕ
tcp_rcv_nxt t id = if_pcb 0 (λ p. p.rcv_nxt) (pcb_get t id)

unfoldable pub tcp_rlen : Tcp → ℕ → Option ℕ
tcp_rlen t id = if_pcb none (λ p. some (length p.rbuf)) (pcb_get t id)

-- tcp_rbuf_get: the bytes copied out, none for -1.
unfoldable pub tcp_rbuf_get : Tcp → ℕ → ℕ → Option (List ℕ)
tcp_rbuf_get t id max =
    if max == 0 then none else if_pcb none (λ p. some (take max p.rbuf)) (pcb_get t id)

unfoldable pub tcp_tx_count : Tcp → ℕ
tcp_tx_count t = length t.txlog

unfoldable pub tcp_tx_get : Tcp → ℕ → Option Txe
tcp_tx_get t i = get_elem? t.txlog i

abbrev pub cut_bytes : ℕ → Option Txe → Option (List ℕ)
cut_bytes max none = none
cut_bytes max (some e) = some (take max e.bytes)

unfoldable pub tcp_tx_data : Tcp → ℕ → ℕ → Option (List ℕ)
tcp_tx_data t i max = if max == 0 then none else cut_bytes max (get_elem? t.txlog i)

abbrev pub first_used : (ℕ → Pcb) → ℕ → ℕ → Option Pcb
first_used pcbs i zero = none
first_used pcbs i (suc n) = if (pcbs i).used then some (pcbs i) else first_used pcbs (suc i) n

-- tcp_craft: a frame of the peer of the first connection.
unfoldable pub tcp_craft : Tcp → ℕ → ℕ → ℕ → ℕ → List ℕ → Option (List ℕ)
tcp_craft t max flags seq ack bytes =
    if_pcb none (λ p. frame_build max (incoming p flags seq ack bytes))
      (first_used t.pcbs 0 max_pcb)
