-- ===== src/Process/PipeBuf.antt =====
-- kernel/process/pipe.c and include/process/pipe.h: the older pipe, a buffer that is filled once.
-- Null pointers are left out; `none` is -1.
pub mod Stream
mod Tests
use char_os.Base.{
  ℕ, zero, suc, ◌+◌, Bool, true, false, ◌||◌, Option, none, some, List, [], ◌∷◌, ◌==◌, ltb, leb,
  if◌then◌else◌, update, length,
}

abbrev pub buf_size : ℕ
buf_size = 512

-- `struct pipe_buf`
pub record PipeBuf : Type 0 where
  pub bytes : ℕ → ℕ
  pub read_idx : ℕ
  pub write_idx : ℕ
  pub full : Bool

abbrev pub pipe_init : PipeBuf
pipe_init = record { bytes = λ i. 0; read_idx = 0; write_idx = 0; full = false }

abbrev pub put : PipeBuf → ℕ → PipeBuf
put p x = record p { bytes = update p.bytes p.write_idx x; write_idx = p.write_idx + 1 }

-- The loop of `pipe_write`: the buffer and how many were written.
pub write_from : PipeBuf → List ℕ → PipeBuf × ℕ
write_from p [] = (p, 0)
write_from p (x ∷ xs) =
    let (q, n) = write_from (put p x) xs in if ltb p.write_idx buf_size then (q, n + 1) else (p, 0)

abbrev pub mark_full : PipeBuf → PipeBuf
mark_full p = if leb buf_size p.write_idx then record p { full = true } else p

unfoldable pub pipe_write : PipeBuf → List ℕ → PipeBuf × Option ℕ
unfolding write_from
pipe_write p src =
    let (q, n) = write_from p src in
    if (length src == 0) || ltb buf_size (length src) then (p, none) else (mark_full q, some n)

-- The loop of `pipe_read` with the rounds left.
pub read_from : PipeBuf → ℕ → PipeBuf × List ℕ
read_from p zero = (p, [])
read_from p (suc n) =
    let (q, out) = read_from (record p { read_idx = p.read_idx + 1 }) n in
    if ltb p.read_idx p.write_idx then (q, p.bytes p.read_idx ∷ out) else (p, [])

abbrev pub mark_read : PipeBuf → PipeBuf
mark_read p = if leb p.write_idx p.read_idx then record p { full = false } else p

unfoldable pub pipe_read : PipeBuf → ℕ → PipeBuf × Option (List ℕ)
unfolding read_from
pipe_read p len =
    let (q, out) = read_from p len in if len == 0 then (p, none) else (mark_read q, some out)
