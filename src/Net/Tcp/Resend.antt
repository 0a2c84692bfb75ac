-- ===== src/Net/Tcp/Resend.antt =====
-- kernel/net/tcp.c: the retransmission slot and its counter.
use char_os.Base.{
  ℕ, zero, suc, ◌+◌, ◌%◌, ◌≡◌, ap, sym, subst, ◌∙◌, ◌≤◌, arith, Bool, true, false, ◌||◌, Option,
  none, some, List, [], ◌∷◌, ◌==◌, ltb, if◌then◌else◌, length, take, update, Bool-cases, inl, inr,
  lt→ltb, ==_self,
}
use char_os.Net.Frame.{Segment, frame_build}
use char_os.Net.Tcp.{
  Pcb, Tcp, mss, has, syn_flag, fin_flag, armed, transmit, outgoing, send_seg_at, send_seg, resend,
  word32,
}

-- Whether sending these bytes with these flags sets up the slot.
abbrev arms : List ℕ → ℕ → Bool
arms bytes flags = ltb 0 (length bytes) || has flags (syn_flag + fin_flag)

-- A slot in use holds a segment that sets it up again, and its counter has not gone past 1.
abbrev pub IsSlot : Pcb → Type 0
IsSlot p =
    p.rex_active ≡ true
    → (arms p.rex_buf p.rex_flags ≡ true) × (length p.rex_buf ≤ mss) × (p.rex_count ≤ 1)

abbrev pub HasSlots : Tcp → Type 0
HasSlots t = (j : ℕ) → IsSlot (t.pcbs j)

length-take_bound : (n : ℕ) (xs : List ℕ) → length (take n xs) ≤ n
length-take_bound zero xs = omega arith
length-take_bound (suc n) [] = omega arith
length-take_bound (suc n) (x ∷ xs) = omega (arith, length-take_bound n xs)

arms-take_pos :
    (n : ℕ) (bytes : List ℕ) (flags : ℕ)
    → arms bytes flags ≡ true
    → arms (take (suc n) bytes) flags ≡ true
arms-take_pos n [] flags e = e
arms-take_pos n (b ∷ bytes) flags e =
    ap (λ t. t || has flags (syn_flag + fin_flag))
      (lt→ltb 0 (suc (length (take n bytes))) (omega arith))

arms-take :
    (bytes : List ℕ) (flags : ℕ) → arms bytes flags ≡ true → arms (take mss bytes) flags ≡ true
arms-take bytes flags e = arms-take_pos 511 bytes flags e

-- A slot that has just been set up.
set_up : Pcb → ℕ → ℕ → ℕ → List ℕ → Pcb
set_up p d seq flags bytes = record p {
  rex_buf = take mss bytes;
  rex_seq = seq;
  rex_flags = flags;
  rex_deadline = d;
  rex_count = 0;
  rex_active = true;
  dupacks = 0;
}

armed-IsSlot :
    (p : Pcb) (d seq flags : ℕ) (bytes : List ℕ) → IsSlot p → IsSlot (armed p d seq flags bytes)
unfolding set_up
armed-IsSlot p d seq flags bytes h = elim (Bool-cases (arms bytes flags)) [
  | inl e ↦
      subst (λ b. IsSlot (if b then set_up p d seq flags bytes else p)) (sym e)
        λ _. (arms-take bytes flags e, length-take_bound mss bytes, omega arith)
  | inr e ↦ subst (λ b. IsSlot (if b then set_up p d seq flags bytes else p)) (sym e) h
]

pub update-IsSlot :
    (a : ℕ → Pcb) (i : ℕ) (v : Pcb)
    → ((j : ℕ) → IsSlot (a j))
    → IsSlot v
    → (j : ℕ) → IsSlot (update a i v j)
update-IsSlot a i v h k j = chosen (j == i)
  where
    chosen : (b : Bool) → IsSlot (if b then v else a j)
    chosen true = k
    chosen false = h j

pub if-HasSlots : (b : Bool) (t u : Tcp) → HasSlots t → HasSlots u → HasSlots (if b then t else u)
if-HasSlots true t u h k = h
if-HasSlots false t u h k = k

transmit-HasSlots :
    (now : ℕ) (t : Tcp) (i seq flags : ℕ) (bytes : List ℕ) (o : Option (List ℕ))
    → HasSlots t
    → HasSlots (transmit now t i seq flags bytes o)
transmit-HasSlots now t i seq flags bytes none h = h
transmit-HasSlots now t i seq flags bytes (some f) h =
    update-IsSlot t.pcbs i _ h
      (armed-IsSlot (t.pcbs i) (word32 (now + t.rto)) seq flags bytes (h i))

pub send_seg-HasSlots :
    (now : ℕ) (t : Tcp) (i flags : ℕ) (bytes : List ℕ)
    → HasSlots t
    → HasSlots (send_seg now t i flags bytes)
unfolding send_seg send_seg_at
send_seg-HasSlots now t i flags bytes h = transmit-HasSlots now t i _ flags bytes _ h

-- Bytes of one segment fit in the frame.
fits : (n : ℕ) (f : List ℕ) → n ≤ mss → (if ltb (54 + mss) (54 + n) then none else some f) ≡ some f
fits n f h = ground arith

frame_fits :
    (s : Segment) → length s.payload ≤ mss → (f : List ℕ) × (frame_build (54 + mss) s ≡ some f)
unfolding frame_build
frame_fits s h = (_, fits (length s.payload) _ h)

-- Sending the segment of a slot again.
again : ℕ → Tcp → ℕ → Tcp
again now t i = send_seg_at now t i (t.pcbs i).rex_seq (t.pcbs i).rex_flags (t.pcbs i).rex_buf

again-HasSlots : (now : ℕ) (t : Tcp) (i : ℕ) → HasSlots t → HasSlots (again now t i)
unfolding again send_seg_at
again-HasSlots now t i h =
    transmit-HasSlots now t i (t.pcbs i).rex_seq (t.pcbs i).rex_flags (t.pcbs i).rex_buf _ h

transmit_here :
    (now : ℕ) (t : Tcp) (i seq flags : ℕ) (bytes f : List ℕ)
    → (transmit now t i seq flags bytes (some f)).pcbs i
      ≡ armed (t.pcbs i) (word32 (now + t.rto)) seq flags bytes
transmit_here now t i seq flags bytes f =
    ap (λ b. if b then armed (t.pcbs i) (word32 (now + t.rto)) seq flags bytes else t.pcbs i)
      (==_self i)

again_here :
    (now : ℕ) (t : Tcp) (i : ℕ)
    → IsSlot (t.pcbs i)
    → (t.pcbs i).rex_active ≡ true
    → (again now t i).pcbs i
      ≡ set_up
          (t.pcbs i)
          (word32 (now + t.rto))
          (t.pcbs i).rex_seq
          (t.pcbs i).rex_flags
          (t.pcbs i).rex_buf
unfolding again send_seg_at set_up
again_here now t i h active =
    let p = t.pcbs i in
    let (again_arms, short, low) = h active in
    let (f, built) = frame_fits (outgoing p p.rex_seq p.rex_flags p.rex_buf) short in
    ap (λ o. (transmit now t i p.rex_seq p.rex_flags p.rex_buf o).pcbs i) built
    ∙ transmit_here now t i p.rex_seq p.rex_flags p.rex_buf f
    ∙ ap (λ b. if b then set_up p (word32 (now + t.rto)) p.rex_seq p.rex_flags p.rex_buf else p)
        again_arms

bumped : ℕ → Tcp → Pcb → Pcb
bumped now t q = record q {
  rex_deadline = word32 (now + t.rto);
  rex_count = (q.rex_count + 1) % 256;
  dupacks = 0;
}

bumped-IsSlot :
    (now : ℕ) (t : Tcp) (p : Pcb) (d : ℕ)
    → arms p.rex_buf p.rex_flags ≡ true
    → IsSlot (bumped now t (set_up p d p.rex_seq p.rex_flags p.rex_buf))
unfolding bumped set_up
bumped-IsSlot now t p d e _ =
    (arms-take p.rex_buf p.rex_flags e, length-take_bound mss p.rex_buf, omega arith)

-- The counter is 1 after each time the segment is sent again, since sending resets it to 0 first.
pub resend-HasSlots :
    (now : ℕ) (t : Tcp) (i : ℕ)
    → HasSlots t
    → (t.pcbs i).rex_active ≡ true
    → HasSlots (resend now t i)
unfolding resend again bumped
resend-HasSlots now t i h active =
    update-IsSlot (again now t i).pcbs i _ (again-HasSlots now t i h) (
      subst (λ q. IsSlot (bumped now t q)) (sym (again_here now t i (h i) active))
        (bumped-IsSlot now t (t.pcbs i) (word32 (now + t.rto)) (h i active).0))
