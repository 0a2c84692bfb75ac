-- ===== src/Net/Tcp/Ack.antt =====
-- kernel/net/tcp.c: what an acknowledgement leaves alone.
use char_os.Base.{
  ℕ, ◌+◌, ◌≡◌, refl, ap, ◌∙◌, Bool, true, false, not, ◌&&◌, ◌==◌, ltb, leb, if◌then◌else◌, length,
}
use char_os.Net.Frame.{Segment}
use char_os.Net.Tcp.{Pcb, Tcp, has, ack_flag, set_pcb, resend}
use char_os.Net.Tcp.Input.{count_dup, take_ack}
use char_os.Net.Tcp.Send.{Core, core, resend-core, update_both}

-- A view of a connection without the fields that an acknowledgement changes.
module _ {B : Type 0} (seen : Core → B)
    (kept : (p : Pcb) (a d : ℕ) (r : Bool)
      → seen (core (record p { snd_una = a; dupacks = d; rex_active = r })) ≡ seen (core p)) where
  if_seen :
      (b : Bool) (v : B) (t u : Tcp) (j : ℕ)
      → seen (core (t.pcbs j)) ≡ v
      → seen (core (u.pcbs j)) ≡ v
      → seen (core ((if b then t else u).pcbs j)) ≡ v
  if_seen true v t u j x y = x
  if_seen false v t u j x y = y

  seen-count_dup :
      (now : ℕ) (t : Tcp) (i j : ℕ)
      → seen (core ((count_dup now t i).pcbs j)) ≡ seen (core (t.pcbs j))
  seen-count_dup now t i j =
      if_seen (leb 3 ((t.pcbs i).dupacks + 1)) _ (resend now counted i) counted j
        (ap seen (resend-core now counted i j) ∙ ap seen (update_both core t.pcbs i _ refl j))
        (ap seen (update_both core t.pcbs i _ refl j))
    where
      counted : Tcp
      counted = set_pcb t i (record (t.pcbs i) { dupacks = (t.pcbs i).dupacks + 1 })

  pub seen-take_ack :
      (now : ℕ) (t : Tcp) (i : ℕ) (s : Segment) (j : ℕ)
      → seen (core ((take_ack now t i s).pcbs j)) ≡ seen (core (t.pcbs j))
  seen-take_ack now t i s j = if_seen (not (has s.flags ack_flag)) _ t _ j refl (
      if_seen (ltb (t.pcbs i).snd_una s.ack && leb s.ack (t.pcbs i).snd_nxt) _ _ _ j
        (update_both (λ p. seen (core p)) t.pcbs i _
          (kept (t.pcbs i) s.ack 0
            (if s.ack == (t.pcbs i).snd_nxt then false else (t.pcbs i).rex_active))
          j)
        (if_seen (s.ack == (t.pcbs i).snd_una && (t.pcbs i).rex_active && length s.payload == 0) _ _
          t j (seen-count_dup now t i j) refl))
