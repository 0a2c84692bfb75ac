-- ===== src/Process/Pipe/Wake.antt =====
-- kernel/process/pipe.c: who sleeps, and who is woken. The pipe has room for one waiting reader and
-- one waiting writer.
use char_os.Base.{ℕ, ◌<◌, ◌≡◌, ◌≢◌, Bool, none, some, List, [], ◌∷◌, arith}
use char_os.Process.Task.{ready, blocked}
use char_os.Process.Pipe.Fifo.{IsValid, fill-Filled, drain-Drained}
use char_os.Process.Pipe.Stream.{run_section-Flows}
use char_os.Process.Pipe.{
  Pipe, Sys, pipe_size, write_section, read_section, read_nonblock, close_end, Section, writes,
  reads, polls, closes, run_section, run_sections,
}

-- A task waits to read only on an empty pipe with a writer, and to write only on a full pipe with a
-- reader.
pub record IsAwake (p : Pipe) : Type 0 where
  pub reader : (t : ℕ) → p.reader_wait ≡ some t → (p.count ≡ 0) × (0 < p.writers)
  pub writer : (t : ℕ) → p.writer_wait ≡ some t → (p.count ≡ pipe_size) × (0 < p.readers)

write_section-IsAwake :
    (s : Sys) (me : ℕ) (src : List ℕ)
    → IsValid s.pipe
    → IsAwake s.pipe
    → IsAwake (write_section s me src).0.pipe
unfolding write_section
write_section-IsAwake s me src v a =
    let f = fill-Filled s.pipe src v in
    record {
      reader = λ t w. ground (arith, a.reader t, f.counted);
      writer = λ t w. ground (arith, a.writer t, f.waits, f.ends);
    }

read_section-IsAwake :
    (s : Sys) (me len : ℕ)
    → IsValid s.pipe
    → IsAwake s.pipe
    → IsAwake (read_section s me len).0.pipe
unfolding read_section
read_section-IsAwake s me len v a =
    let d = drain-Drained s.pipe len v in
    record {
      reader = λ t w. ground (arith, a.reader t, d.waits, d.ends, v.fits);
      writer = λ t w. ground (arith, a.writer t, d.waits, d.ends, d.valid, d.counted, v.fits);
    }

read_nonblock-IsAwake :
    (s : Sys) (len : ℕ) → IsValid s.pipe → IsAwake s.pipe → IsAwake (read_nonblock s len).0.pipe
unfolding read_nonblock
read_nonblock-IsAwake s len v a =
    let d = drain-Drained s.pipe len v in
    record {
      reader = λ t w. ground (arith, a.reader t, d.waits, d.ends, d.counted, d.amount);
      writer = λ t w. ground (arith, a.writer t, d.waits, d.ends, d.valid, d.counted, d.amount);
    }

close_end-IsAwake :
    (s : Sys) (is_write : Bool) → IsAwake s.pipe → IsAwake (close_end s is_write).0.pipe
unfolding close_end
close_end-IsAwake s is_write a = record {
  reader = λ t w. ground (arith, a.reader t);
  writer = λ t w. ground (arith, a.writer t);
}

run_section-IsAwake :
    (s : Sys) (c : Section) → IsValid s.pipe → IsAwake s.pipe → IsAwake (run_section s c).pipe
unfolding run_section
run_section-IsAwake s (writes t src) v a = write_section-IsAwake s t src v a
run_section-IsAwake s (reads t len) v a = read_section-IsAwake s t len v a
run_section-IsAwake s (polls len) v a = read_nonblock-IsAwake s len v a
run_section-IsAwake s (closes is_write) v a = close_end-IsAwake s is_write a

-- Under every interleaving of sections, a task is recorded as waiting only while it has to wait: to
-- read from an empty pipe that still has a writer, to write to a full one that still has a reader.
pub run_sections-IsAwake :
    (cs : List Section) (s : Sys)
    → IsValid s.pipe
    → IsAwake s.pipe
    → IsAwake (run_sections s cs).pipe
unfolding run_sections
run_sections-IsAwake [] s v a = a
run_sections-IsAwake (c ∷ cs) s v a =
    run_sections-IsAwake cs (run_section s c) (run_section-Flows s c v).valid
      (run_section-IsAwake s c v a)

-- There is one place for a waiting reader: of two tasks that block on an empty pipe, one after the
-- other, a write wakes the second, and the first stays blocked with nothing to wake it.
pub second_reader_hides_first :
    (s : Sys) (t u w x : ℕ) (xs : List ℕ)
    → IsValid s.pipe
    → s.pipe.count ≡ 0
    → s.pipe.writers ≢ 0
    → t ≢ u
    → let r = run_sections s (reads t 1 ∷ reads u 1 ∷ writes w (x ∷ xs) ∷ []) in
      (r.tasks u ≡ ready) × (r.tasks t ≡ blocked) × (r.pipe.reader_wait ≡ none)
unfolding run_sections run_section
second_reader_hides_first s t u w x xs v e n ne =
    let p = record s.pipe { reader_wait = some u } in
    let f =
      fill-Filled p (x ∷ xs) (record { read_in = v.read_in; fits = v.fits; apart = v.apart }) in
    ground (arith, f.waits)
