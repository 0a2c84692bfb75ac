-- ===== src/Process/PipeBuf/Stream.antt =====
-- kernel/process/pipe.c: what goes through the older pipe in its whole life.
use char_os.Base.{
  ℕ, zero, suc, ◌+◌, ◌≤◌, ◌≡◌, ◌||◌, Option, none, some, List, [], ◌∷◌, ◌==◌, ltb, length, arith,
  refl, inl, inr, Bool-cases,
}
use char_os.Process.PipeBuf.{PipeBuf, buf_size, put, write_from, pipe_write, read_from, pipe_read}

-- A call on the pipe.
pub data Call : Type 0 where
  writes : List ℕ → Call
  reads : ℕ → Call

abbrev or_zero : Option ℕ → ℕ
or_zero none = 0
or_zero (some n) = n

pub run : PipeBuf → List Call → PipeBuf
unfolding pipe_write pipe_read
run p [] = p
run p (writes src ∷ cs) = run (pipe_write p src).0 cs
run p (reads len ∷ cs) = run (pipe_read p len).0 cs

-- How many bytes the calls have taken.
pub accepted : PipeBuf → List Call → ℕ
unfolding pipe_write pipe_read
accepted p [] = 0
accepted p (writes src ∷ cs) = or_zero (pipe_write p src).1 + accepted (pipe_write p src).0 cs
accepted p (reads len ∷ cs) = accepted (pipe_read p len).0 cs

write_from-count :
    (p : PipeBuf) (src : List ℕ)
    → p.write_idx ≤ buf_size
    → ((write_from p src).0.write_idx ≡ p.write_idx + (write_from p src).1)
      × ((write_from p src).0.write_idx ≤ buf_size)
unfolding write_from
write_from-count p [] h = (omega arith, h)
write_from-count p (x ∷ xs) h = elim (Bool-cases (ltb p.write_idx buf_size)) [
  | inl room ↦
      let (counts, fits) = write_from-count (put p x) xs (ground arith) in
      rw room (omega (arith, counts), fits)
  | inr full ↦ rw full (omega arith, h)
]

pipe_write-count :
    (p : PipeBuf) (src : List ℕ)
    → p.write_idx ≤ buf_size
    → ((pipe_write p src).0.write_idx ≡ p.write_idx + or_zero (pipe_write p src).1)
      × ((pipe_write p src).0.write_idx ≤ buf_size)
unfolding pipe_write
pipe_write-count p src h =
    let (counts, fits) = write_from-count p src h in
    elim (Bool-cases ((length src == 0) || ltb buf_size (length src))) [
      | inl refused ↦ rw refused (omega arith, h)
      | inr fine ↦ rw fine (ground (arith, counts), ground (arith, fits))
    ]

read_from-write_idx : (p : PipeBuf) (n : ℕ) → (read_from p n).0.write_idx ≡ p.write_idx
unfolding read_from
read_from-write_idx p zero = refl
read_from-write_idx p (suc n) =
    ground (arith, read_from-write_idx (record p { read_idx = p.read_idx + 1 }) n)

pipe_read-write_idx : (p : PipeBuf) (len : ℕ) → (pipe_read p len).0.write_idx ≡ p.write_idx
unfolding pipe_read
pipe_read-write_idx p len = ground (arith, read_from-write_idx p len)

-- Whatever is written to the older pipe and read from it, the bytes that it takes are never more than
-- are left behind its write index: no read makes room, and after 512 bytes it takes no more.
pub run-accepted :
    (p : PipeBuf) (cs : List Call)
    → p.write_idx ≤ buf_size
    → ((run p cs).write_idx ≡ p.write_idx + accepted p cs) × ((run p cs).write_idx ≤ buf_size)
unfolding run accepted
run-accepted p [] h = (omega arith, h)
run-accepted p (writes src ∷ cs) h =
    let (counts, fits) = pipe_write-count p src h in
    let (all, end) = run-accepted (pipe_write p src).0 cs fits in (omega (arith, all, counts), end)
run-accepted p (reads len ∷ cs) h =
    let same = pipe_read-write_idx p len in
    let (all, end) = run-accepted (pipe_read p len).0 cs (omega (arith, same)) in
    (omega (arith, all, same), end)
