-- ===== src/Net/Tcp/Send.antt =====
-- kernel/net/tcp.c: what sending a segment leaves alone.
use char_os.Base.{
  ℕ, ◌≡◌, refl, ap, ◌∙◌, arith, Bool, true, false, Option, none, some, List, ◌==◌, if◌then◌else◌,
  update, Bool-cases, inl, inr,
}
use char_os.Net.Frame.{Address}
use char_os.Net.Tcp.{Pcb, State, Tcp, armed, transmit, send_seg_at, send_seg, resend}

-- A connection without its retransmission slot.
pub record Core : Type 0 where
  pub used : Bool
  pub state : State
  pub lip : Address
  pub rip : Address
  pub lport : ℕ
  pub rport : ℕ
  pub snd_nxt : ℕ
  pub snd_una : ℕ
  pub rcv_nxt : ℕ
  pub rcv_wnd : ℕ
  pub peer_wnd : ℕ
  pub rbuf : List ℕ

abbrev pub core : Pcb → Core
core p = record {
  used = p.used;
  state = p.state;
  lip = p.lip;
  rip = p.rip;
  lport = p.lport;
  rport = p.rport;
  snd_nxt = p.snd_nxt;
  snd_una = p.snd_una;
  rcv_nxt = p.rcv_nxt;
  rcv_wnd = p.rcv_wnd;
  peer_wnd = p.peer_wnd;
  rbuf = p.rbuf;
}

-- A property of one place of a table that is updated at `i`.
pub update_both :
    {A B : Type 0} (f : A → B) (a : ℕ → A) (i : ℕ) (v : A)
    → f v ≡ f (a i)
    → (j : ℕ) → f (update a i v j) ≡ f (a j)
update_both f a i v e j = elim (Bool-cases (j == i)) [
  | inl t ↦ ap (λ b. f (if b then v else a j)) t ∙ e ∙ ap (λ k. f (a k)) (ground arith)
  | inr t ↦ ap (λ b. f (if b then v else a j)) t
]

core_if : (b : Bool) (p q : Pcb) → core q ≡ core p → core (if b then q else p) ≡ core p
core_if true p q e = e
core_if false p q e = refl

armed-core :
    (p : Pcb) (d seq flags : ℕ) (bytes : List ℕ) → core (armed p d seq flags bytes) ≡ core p
armed-core p d seq flags bytes = core_if _ p _ refl

transmit-core :
    (now : ℕ) (t : Tcp) (i seq flags : ℕ) (bytes : List ℕ) (o : Option (List ℕ)) (j : ℕ)
    → core ((transmit now t i seq flags bytes o).pcbs j) ≡ core (t.pcbs j)
transmit-core now t i seq flags bytes none j = refl
transmit-core now t i seq flags bytes (some f) j =
    update_both core t.pcbs i _ (armed-core (t.pcbs i) _ seq flags bytes) j

pub send_seg_at-core :
    (now : ℕ) (t : Tcp) (i seq flags : ℕ) (bytes : List ℕ) (j : ℕ)
    → core ((send_seg_at now t i seq flags bytes).pcbs j) ≡ core (t.pcbs j)
unfolding send_seg_at
send_seg_at-core now t i seq flags bytes j = transmit-core now t i seq flags bytes _ j

pub send_seg-core :
    (now : ℕ) (t : Tcp) (i flags : ℕ) (bytes : List ℕ) (j : ℕ)
    → core ((send_seg now t i flags bytes).pcbs j) ≡ core (t.pcbs j)
unfolding send_seg
send_seg-core now t i flags bytes j = send_seg_at-core now t i _ flags bytes j

pub resend-core : (now : ℕ) (t : Tcp) (i j : ℕ) → core ((resend now t i).pcbs j) ≡ core (t.pcbs j)
unfolding resend
resend-core now t i j =
    let u = send_seg_at now t i (t.pcbs i).rex_seq (t.pcbs i).rex_flags (t.pcbs i).rex_buf in
    update_both core u.pcbs i _ refl j ∙ send_seg_at-core now t i _ _ _ j
