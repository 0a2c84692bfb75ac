-- ===== src/Process/Pty/Output.antt =====
-- kernel/process/pty.c: the output ring is a queue of 512 characters that loses what does not fit.
use mathlib.Core.List.{append_assoc, append-nil}
use char_os.Base.{
  ℕ, zero, suc, ◌+◌, ◌-◌, ◌%◌, ◌≤◌, ◌<◌, ◌≡◌, Bool, true, false, ◌&&◌, inl, inr, none, some, List,
  [], ◌∷◌, ◌++◌, ◌==◌, leb, if◌then◌else◌, length-append, take, drop, take_all, take_full,
  take-append-take, nil_of_length, arith, refl, ap, sym, ◌∙◌, Bool-cases,
}
use char_os.Base.Ring.{window, window-push, window-pop, length-window}
use char_os.Process.Pty.{
  Pty, Ring, pty_ring, onlcr, ring_push, ring_pop, pop_then, pops, write_out, master_write,
  master_read,
}

-- The characters in a ring, oldest first.
abbrev pub contents : Ring → List ℕ
contents r = window r.buf pty_ring r.tail r.count

-- The indices are inside the ring, and the head is `count` steps after the tail.
pub record IsValid (r : Ring) : Type 0 where
  pub tail_in : r.tail < pty_ring
  pub fits : r.count ≤ pty_ring
  pub apart : r.head ≡ (r.tail + r.count) % pty_ring

ring_push-IsValid : (r : Ring) (c : ℕ) → IsValid r → IsValid (ring_push r c)
unfolding ring_push
ring_push-IsValid r c v = ground arith

contents-ring_push :
    (r : Ring) (c : ℕ)
    → IsValid r
    → contents (ring_push r c) ≡ take pty_ring (contents r ++ (c ∷ []))
unfolding ring_push
contents-ring_push r c v =
    let size = length-window r.buf pty_ring r.tail r.count in
    elim (Bool-cases (leb pty_ring r.count)) [
      | inl full ↦ rw full (sym (take_full pty_ring (contents r) (c ∷ []) (ground (arith, size))))
      | inr room ↦ rw room (
          window-push r.buf pty_ring r.tail r.count r.head c v.tail_in (ground arith) v.apart
          ∙ sym (
              take_all pty_ring (contents r ++ (c ∷ []))
                (ground (arith, size, length-append (contents r) (c ∷ [])))))
    ]

-- What the terminal sends for a text.
pub sent : ℕ → List ℕ → List ℕ
sent flags [] = []
sent flags (c ∷ cs) =
    if c == b'\n' && onlcr flags then b'\r' ∷ c ∷ sent flags cs else c ∷ sent flags cs

push-then :
    (r : Ring) (c : ℕ) (rest : List ℕ)
    → IsValid r
    → take pty_ring (contents (ring_push r c) ++ rest) ≡ take pty_ring (contents r ++ (c ∷ rest))
push-then r c rest v =
    ap (λ l. take pty_ring (l ++ rest)) (contents-ring_push r c v)
    ∙ take-append-take pty_ring (contents r ++ (c ∷ [])) rest
    ∙ ap (take pty_ring) (append_assoc (contents r) (c ∷ []) rest)

-- One character of a text, with a `\r` before it or not.
push_char :
    (r : Ring) (double : Bool) (c : ℕ) (rest : List ℕ)
    → IsValid r
    → let q = ring_push (if double then ring_push r b'\r' else r) c in
      IsValid q
      × (take pty_ring (contents q ++ rest)
          ≡ take pty_ring (contents r ++ (if double then b'\r' ∷ c ∷ rest else c ∷ rest)))
push_char r true c rest v =
    let once = ring_push-IsValid r b'\r' v in
    (
      ring_push-IsValid (ring_push r b'\r') c once,
      push-then (ring_push r b'\r') c rest once ∙ push-then r b'\r' (c ∷ rest) v,
    )
push_char r false c rest v = (ring_push-IsValid r c v, push-then r c rest v)

-- Writing a text keeps the ring a queue, to which it appends what the terminal sends, up to the 512
-- characters of the ring.
pub write_out-contents :
    (flags : ℕ) (r : Ring) (cs : List ℕ)
    → IsValid r
    → IsValid (write_out flags r cs)
      × (contents (write_out flags r cs) ≡ take pty_ring (contents r ++ sent flags cs))
unfolding write_out sent
write_out-contents flags r [] v =
    let size = length-window r.buf pty_ring r.tail r.count in
    (
      v,
      sym (
          ap (take pty_ring) (append-nil (contents r))
          ∙ take_all pty_ring (contents r) (omega (arith, size))),
    )
write_out-contents flags r (c ∷ cs) v =
    let (valid, holds) = push_char r (c == b'\n' && onlcr flags) c (sent flags cs) v in
    let (end, all) =
      write_out-contents flags
        (ring_push (if c == b'\n' && onlcr flags then ring_push r b'\r' else r) c) cs valid in
    (end, all ∙ holds)

-- The ring without its oldest character.
abbrev popped : Ring → Ring
popped r = record r { tail = (r.tail + 1) % pty_ring; count = r.count - 1 }

popped-IsValid : (r : Ring) → IsValid r → 0 < r.count → IsValid (popped r)
popped-IsValid r v h = omega arith

contents-empty : (r : Ring) → r.count ≡ 0 → contents r ≡ []
contents-empty r h =
    nil_of_length (contents r) (omega (arith, length-window r.buf pty_ring r.tail r.count))

ring_pop-empty : (r : Ring) → r.count ≡ 0 → ring_pop r ≡ (none, r)
unfolding ring_pop
ring_pop-empty r h = ground arith

ring_pop-more : (r : Ring) → 0 < r.count → ring_pop r ≡ (some (r.buf r.tail), popped r)
unfolding ring_pop
ring_pop-more r h = ground arith

-- Reading takes the oldest characters, as many as there are and the caller has room for.
pub pops-contents :
    (r : Ring) (n : ℕ)
    → IsValid r
    → IsValid (pops r n).0
      × ((pops r n).1 ≡ take n (contents r))
      × (contents (pops r n).0 ≡ drop n (contents r))
unfolding pops pop_then
pops-contents r zero v = (v, refl, refl)
pops-contents r (suc n) v = elim (Bool-cases (r.count == 0)) [
  | inl empty ↦
      rw (ring_pop-empty r (ground arith)) (
        let none_left = contents-empty r (ground arith) in
        (v, rw none_left refl, rw none_left refl))
  | inr some_left ↦ rw (ring_pop-more r (ground arith)) (
      let first = window-pop r.buf pty_ring r.tail r.count (ground arith) in
      let (valid, out, left) = pops-contents (popped r) n (popped-IsValid r v (ground arith)) in
      (
        valid,
        ap (λ l. r.buf r.tail ∷ l) out ∙ sym (ap (take (suc n)) first),
        left ∙ sym (ap (drop (suc n)) first),
      ))
]

-- What a program writes to a terminal, its reader gets in order, each newline as the flags say, up
-- to the 512 characters of the ring and to the room of the reader; what is not read stays.
pub master_write-read :
    (p : Pty) (text : List ℕ) (max : ℕ)
    → IsValid p.out
    → let all = take pty_ring (contents p.out ++ sent p.flags text) in
      let (q, bytes) = master_read (master_write p text) max in
      IsValid q.out × (bytes ≡ take max all) × (contents q.out ≡ drop max all)
unfolding master_write master_read
master_write-read p text max v =
    let (valid, holds) = write_out-contents p.flags p.out text v in
    let (end, out, left) = pops-contents (write_out p.flags p.out text) max valid in
    (end, out ∙ ap (take max) holds, left ∙ ap (drop max) holds)
