-- ===== src/Process/Pipe.antt =====
-- kernel/process/pipe.c and include/process/pipe.h: the blocking pipe. What runs under `p->lock` is
-- one function here; a call that sleeps is a sequence of such sections with the sections of other
-- tasks between them. A character is a number, a task its `pid`.
pub mod Fifo
pub mod Stream
pub mod Wake
pub mod Calls
mod Tests
use char_os.Base.{
  ℕ, zero, suc, ◌+◌, ◌-◌, ◌%◌, Bool, ◌&&◌, Option, none, some, List, [], ◌∷◌, ◌==◌, ltb,
  if◌then◌else◌, update, length, take,
}
use char_os.Process.Task.{TaskState, ready, blocked, set_ready}

abbrev pub pipe_size : ℕ
pipe_size = 512

-- `struct pipe`; a waiter is a task or null.
pub record Pipe : Type 0 where
  pub data_at : ℕ → ℕ
  pub read_pos : ℕ
  pub write_pos : ℕ
  pub count : ℕ
  pub readers : ℕ
  pub writers : ℕ
  pub reader_wait : Option ℕ
  pub writer_wait : Option ℕ

-- The pipe and the states of the tasks, which a section may set.
pub record Sys : Type 0 where
  pub pipe : Pipe
  pub tasks : ℕ → TaskState

abbrev pub create : Pipe
create = record {
  data_at = λ i. 0;
  read_pos = 0;
  write_pos = 0;
  count = 0;
  readers = 1;
  writers = 1;
  reader_wait = none;
  writer_wait = none;
}

pub wake_reader : Sys → Sys
wake_reader s = record {
  pipe = record s.pipe { reader_wait = none };
  tasks = set_ready s.pipe.reader_wait s.tasks;
}

pub wake_writer : Sys → Sys
wake_writer s = record {
  pipe = record s.pipe { writer_wait = none };
  tasks = set_ready s.pipe.writer_wait s.tasks;
}

-- One round of the copying loops.
abbrev pub put : Pipe → ℕ → Pipe
put p x = record p {
  data_at = update p.data_at p.write_pos x;
  write_pos = (p.write_pos + 1) % pipe_size;
  count = p.count + 1;
}

abbrev pub get : Pipe → Pipe
get p = record p { read_pos = (p.read_pos + 1) % pipe_size; count = p.count - 1 }

-- `while (written < len && p->count < PIPE_SIZE)`: the pipe and what is left to write.
pub fill : Pipe → List ℕ → Pipe × List ℕ
fill p [] = (p, [])
fill p (x ∷ xs) = if ltb p.count pipe_size then fill (put p x) xs else (p, x ∷ xs)

-- `while (read < len && p->count > 0)` with the rounds left: what is read, and the pipe.
pub drain : Pipe → ℕ → List ℕ × Pipe
drain p zero = ([], p)
drain p (suc n) =
    let (out, q) = drain (get p) n in
    if ltb 0 p.count then (p.data_at p.read_pos ∷ out, q) else ([], p)

-- What one section of a call comes to.
pub data Outcome : Type 0 where
  -- the call returns -1
  broken : Outcome
  -- the caller is blocked, and comes back to the same place
  sleeps : Outcome
  -- so much of the data is left to write
  wrote : List ℕ → Outcome
  -- these bytes are read
  got : List ℕ → Outcome

-- From one locking to the next in `pipe_write_block`, with the data that is left.
unfoldable pub write_section : Sys → ℕ → List ℕ → Sys × Outcome
unfolding fill wake_reader
write_section s me src =
    let (p, rest) = fill s.pipe src in
    if s.pipe.count == pipe_size
    then (if s.pipe.readers == 0 then (s, broken) else (
      record { pipe = record s.pipe { writer_wait = some me }; tasks = update s.tasks me blocked },
      sleeps,
    ))
    else (wake_reader (record s { pipe = p }), wrote rest)

-- The same of `pipe_read_block`; `got []` is the end of the stream.
unfoldable pub read_section : Sys → ℕ → ℕ → Sys × Outcome
unfolding drain wake_writer
read_section s me len =
    let (out, q) = drain s.pipe len in
    let t = record s { pipe = q } in
    if s.pipe.count == 0
    then (if s.pipe.writers == 0 then (s, got []) else (
      record { pipe = record s.pipe { reader_wait = some me }; tasks = update s.tasks me blocked },
      sleeps,
    ))
    else (if ltb q.count pipe_size then wake_writer t else t, got out)

-- `pipe_read_nonblock`, for arguments that are not refused.
unfoldable pub read_nonblock : Sys → ℕ → Sys × List ℕ
unfolding drain wake_writer
read_nonblock s len =
    let (out, q) = drain s.pipe len in
    let t = record s { pipe = q } in
    (if ltb 0 (length out) && ltb q.count pipe_size then wake_writer t else t, out)

-- `pipe_close_end`: the system, and whether the pipe is freed.
unfoldable pub close_end : Sys → Bool → Sys × Bool
unfolding wake_reader wake_writer
close_end s is_write =
    let p = s.pipe in
    let t =
      if is_write
      then wake_reader (record s { pipe = record p { writers = p.writers - 1 } })
      else wake_writer (record s { pipe = record p { readers = p.readers - 1 } }) in
    (t, t.pipe.readers == 0 && t.pipe.writers == 0)

-- A section of some task's call.
pub data Section : Type 0 where
  writes : ℕ → List ℕ → Section
  reads : ℕ → ℕ → Section
  polls : ℕ → Section
  closes : Bool → Section

pub run_section : Sys → Section → Sys
unfolding write_section read_section read_nonblock close_end
run_section s (writes t src) = (write_section s t src).0
run_section s (reads t len) = (read_section s t len).0
run_section s (polls len) = (read_nonblock s len).0
run_section s (closes is_write) = (close_end s is_write).0

pub run_sections : Sys → List Section → Sys
run_sections s [] = s
run_sections s (c ∷ cs) = run_sections (run_section s c) cs

-- The loop of `pipe_write_block` behind its guards: before each locking the sections of the next
-- gap run. `none` means that the call has not returned when the gaps end; a returned `none` is -1.
pub write_loop : Sys → ℕ → List ℕ → ℕ → List (List Section) → Option (Sys × Option ℕ)
unfolding write_section run_sections
write_loop s me [] written gaps = some (s, some written)
write_loop s me (x ∷ xs) written [] = none
write_loop s me (x ∷ xs) written (gap ∷ gaps) =
    let (t, out) = write_section (run_sections s gap) me (x ∷ xs) in
    elim out [
      | broken ↦ some (t, none)
      | sleeps ↦ write_loop t me (x ∷ xs) written gaps
      | wrote rest ↦ write_loop t me rest (written + (length (x ∷ xs) - length rest)) gaps
      | got _ ↦ none
    ]

-- `pipe_write_block` of a pipe and a buffer that are not null.
pub write_block : Sys → ℕ → List ℕ → List (List Section) → Option (Sys × Option ℕ)
unfolding write_loop
write_block s me [] gaps = some (s, none)
write_block s me (x ∷ xs) gaps = write_loop s me (take pipe_size (x ∷ xs)) 0 gaps

-- `pipe_read_block`: the bytes that are read, or `none` for -1.
pub read_loop : Sys → ℕ → ℕ → List (List Section) → Option (Sys × List ℕ)
unfolding read_section run_sections
read_loop s me len [] = none
read_loop s me len (gap ∷ gaps) =
    let (t, out) = read_section (run_sections s gap) me len in
    elim out [
      | got bytes ↦ some (t, bytes)
      | sleeps ↦ read_loop t me len gaps
      | broken ↦ none
      | wrote _ ↦ none
    ]
