-- ===== src/Process/Pipe/Fifo.antt =====
-- kernel/process/pipe.c: the ring of a pipe holds a queue of bytes, and the sections of the calls
-- append to it and take from its front.
use mathlib.Core.List.{append_assoc, append-nil}
use char_os.Base.{
  ℕ, zero, suc, ◌+◌, ◌%◌, ◌≤◌, ◌<◌, ◌≡◌, ◌⊎◌, inl, inr, List, [], ◌∷◌, ◌++◌, ltb, length, min,
  arith, refl, ap, sym, ◌∙◌, Bool-cases, ltb→lt,
}
use char_os.Base.Ring.{window, window-push, window-pop}
use char_os.Process.Pipe.{Pipe, pipe_size, put, get, fill, drain}

-- The bytes in the pipe, oldest first.
abbrev pub contents : Pipe → List ℕ
contents p = window p.data_at pipe_size p.read_pos p.count

-- The indices are inside the ring, and the writer's is `count` steps before the reader's.
pub record IsValid (p : Pipe) : Type 0 where
  pub read_in : p.read_pos < pipe_size
  pub fits : p.count ≤ pipe_size
  pub apart : p.write_pos ≡ (p.read_pos + p.count) % pipe_size

put-IsValid : (p : Pipe) (x : ℕ) → IsValid p → p.count < pipe_size → IsValid (put p x)
put-IsValid p x v h = omega arith

contents-put :
    (p : Pipe) (x : ℕ)
    → IsValid p
    → p.count < pipe_size
    → contents (put p x) ≡ contents p ++ (x ∷ [])
contents-put p x v h =
    window-push p.data_at pipe_size p.read_pos p.count p.write_pos x v.read_in h v.apart

get-IsValid : (p : Pipe) → IsValid p → 0 < p.count → IsValid (get p)
get-IsValid p v h = omega arith

contents-get : (p : Pipe) → 0 < p.count → contents p ≡ p.data_at p.read_pos ∷ contents (get p)
contents-get p h = window-pop p.data_at pipe_size p.read_pos p.count h

-- What `fill` did: `done` went in, `rest` did not, and there is a rest only if the pipe is full.
pub record Filled (p : Pipe) (src : List ℕ) (r : Pipe × List ℕ) : Type 0 where
  pub done : List ℕ
  pub splits : src ≡ done ++ r.1
  pub holds : contents r.0 ≡ contents p ++ done
  pub valid : IsValid r.0
  pub stops : (r.1 ≡ []) ⊎ (r.0.count ≡ pipe_size)
  pub counted : r.0.count ≡ p.count + length done
  pub ends : (r.0.readers ≡ p.readers) × (r.0.writers ≡ p.writers)
  pub waits : (r.0.reader_wait ≡ p.reader_wait) × (r.0.writer_wait ≡ p.writer_wait)

Filled-put :
    (p : Pipe) (x : ℕ) (xs : List ℕ) (r : Pipe × List ℕ)
    → IsValid p
    → p.count < pipe_size
    → Filled (put p x) xs r
    → Filled p (x ∷ xs) r
Filled-put p x xs r v room f = record {
  done = x ∷ f.done;
  splits = ap (λ l. x ∷ l) f.splits;
  holds =
      f.holds
      ∙ ap (λ l. l ++ f.done) (contents-put p x v room)
      ∙ append_assoc (contents p) (x ∷ []) f.done;
  valid = f.valid;
  stops = f.stops;
  counted = omega (arith, f.counted);
  ends = f.ends;
  waits = f.waits;
}

pub fill-Filled : (p : Pipe) (src : List ℕ) → IsValid p → Filled p src (fill p src)
unfolding fill
fill-Filled p [] v = record {
  done = [];
  splits = refl;
  holds = sym (append-nil (contents p));
  valid = v;
  stops = inl refl;
  counted = omega arith;
  ends = (refl, refl);
  waits = (refl, refl);
}
fill-Filled p (x ∷ xs) v = elim (Bool-cases (ltb p.count pipe_size)) [
  | inl room ↦ rw room (
      Filled-put p x xs (fill (put p x) xs) v (ltb→lt _ _ room)
        (fill-Filled (put p x) xs (put-IsValid p x v (ltb→lt _ _ room))))
  | inr full ↦ rw full (record {
    done = [];
    splits = refl;
    holds = sym (append-nil (contents p));
    valid = v;
    stops = inr (ground arith);
    counted = omega arith;
    ends = (refl, refl);
    waits = (refl, refl);
  })
]

-- What `drain` did: `r.0` came out, as much as asked for or all there was.
pub record Drained (p : Pipe) (n : ℕ) (r : List ℕ × Pipe) : Type 0 where
  pub splits : contents p ≡ r.0 ++ contents r.1
  pub amount : length r.0 ≡ min n p.count
  pub valid : IsValid r.1
  pub counted : r.1.count + length r.0 ≡ p.count
  pub ends : (r.1.readers ≡ p.readers) × (r.1.writers ≡ p.writers)
  pub waits : (r.1.reader_wait ≡ p.reader_wait) × (r.1.writer_wait ≡ p.writer_wait)

Drained-stop : (p : Pipe) (n : ℕ) → IsValid p → min n p.count ≡ 0 → Drained p n ([], p)
Drained-stop p n v e = record {
  splits = refl;
  amount = sym e;
  valid = v;
  counted = omega arith;
  ends = (refl, refl);
  waits = (refl, refl);
}

Drained-get :
    (p : Pipe) (n : ℕ) (r : List ℕ × Pipe)
    → 0 < p.count
    → Drained (get p) n r
    → Drained p (suc n) (p.data_at p.read_pos ∷ r.0, r.1)
Drained-get p n r some_left d = record {
  splits = contents-get p some_left ∙ ap (λ l. p.data_at p.read_pos ∷ l) d.splits;
  amount = omega (arith, d.amount);
  valid = d.valid;
  counted = omega (arith, d.counted);
  ends = d.ends;
  waits = d.waits;
}

pub drain-Drained : (p : Pipe) (n : ℕ) → IsValid p → Drained p n (drain p n)
unfolding drain
drain-Drained p zero v = Drained-stop p zero v (omega arith)
drain-Drained p (suc n) v = elim (Bool-cases (ltb 0 p.count)) [
  | inl some_left ↦ rw some_left (
      Drained-get p n (drain (get p) n) (ltb→lt _ _ some_left)
        (drain-Drained (get p) n (get-IsValid p v (ltb→lt _ _ some_left))))
  | inr empty ↦ rw empty (Drained-stop p (suc n) v (ground arith))
]
