-- ===== src/Process/Pipe/Stream.antt =====
-- kernel/process/pipe.c: a pipe is a first-in, first-out stream under every interleaving of the
-- sections of its users.
use mathlib.Core.List.{append_assoc, append-nil}
use char_os.Base.{
  ℕ, ◌-◌, ◌≡◌, Bool, List, [], ◌∷◌, ◌++◌, length, take, arith, ap, sym, ◌∙◌, take-append,
}
use char_os.Process.Pipe.Fifo.{contents, IsValid, fill-Filled, drain-Drained}
use char_os.Process.Pipe.{
  Sys, fill, Outcome, broken, sleeps, wrote, got, write_section, read_section, read_nonblock,
  close_end, Section, writes, reads, polls, closes, run_section, run_sections,
}

-- The bytes of `src` that went into the pipe.
abbrev pub took : List ℕ → Outcome → List ℕ
took src (wrote rest) = take (length src - length rest) src
took src broken = []
took src sleeps = []
took src (got _) = []

abbrev pub gave : Outcome → List ℕ
gave (got bytes) = bytes
gave (wrote _) = []
gave broken = []
gave sleeps = []

pub accepted : Sys → Section → List ℕ
accepted s (writes t src) = took src (write_section s t src).1
accepted s (reads t len) = []
accepted s (polls len) = []
accepted s (closes is_write) = []

unfoldable pub delivered : Sys → Section → List ℕ
delivered s (writes t src) = []
delivered s (reads t len) = gave (read_section s t len).1
delivered s (polls len) = (read_nonblock s len).1
delivered s (closes is_write) = []

-- What one section does to the stream.
pub record Flows (s t : Sys) (taken given : List ℕ) : Type 0 where
  pub valid : IsValid t.pipe
  pub stream : given ++ contents t.pipe ≡ contents s.pipe ++ taken

took_done :
    (src done rest : List ℕ) → src ≡ done ++ rest → take (length src - length rest) src ≡ done
took_done src done rest e = rw e (take-append done rest)

write_section-Flows :
    (s : Sys) (me : ℕ) (src : List ℕ)
    → IsValid s.pipe
    → let (t, out) = write_section s me src in Flows s t (took src out) []
unfolding write_section
write_section-Flows s me src v =
    let f = fill-Filled s.pipe src v in
    record {
      valid = ground (arith, v, f.valid);
      stream = ground (
        arith,
        f.holds,
        took_done src f.done (fill s.pipe src).1 f.splits,
        append-nil (contents s.pipe),
      );
    }

read_section-Flows :
    (s : Sys) (me len : ℕ)
    → IsValid s.pipe
    → let (t, out) = read_section s me len in Flows s t [] (gave out)
unfolding read_section
read_section-Flows s me len v =
    let d = drain-Drained s.pipe len v in
    record {
      valid = ground (arith, v, d.valid);
      stream = ground (arith, d.splits, append-nil (contents s.pipe));
    }

read_nonblock-Flows :
    (s : Sys) (len : ℕ) → IsValid s.pipe → let (t, out) = read_nonblock s len in Flows s t [] out
unfolding read_nonblock
read_nonblock-Flows s len v =
    let d = drain-Drained s.pipe len v in
    record {
      valid = ground (arith, v, d.valid);
      stream = ground (arith, d.splits, append-nil (contents s.pipe));
    }

close_end-Flows :
    (s : Sys) (is_write : Bool) → IsValid s.pipe → Flows s (close_end s is_write).0 [] []
unfolding close_end
close_end-Flows s is_write v = record {
  valid = ground (arith, v);
  stream = ground (arith, append-nil (contents s.pipe));
}

pub run_section-Flows :
    (s : Sys) (c : Section)
    → IsValid s.pipe
    → Flows s (run_section s c) (accepted s c) (delivered s c)
unfolding run_section accepted delivered
run_section-Flows s (writes t src) v = write_section-Flows s t src v
run_section-Flows s (reads t len) v = read_section-Flows s t len v
run_section-Flows s (polls len) v = read_nonblock-Flows s len v
run_section-Flows s (closes is_write) v = close_end-Flows s is_write v

-- All that went in and all that came out, in order.
pub all_accepted : Sys → List Section → List ℕ
all_accepted s [] = []
all_accepted s (c ∷ cs) = accepted s c ++ all_accepted (run_section s c) cs

unfoldable pub all_delivered : Sys → List Section → List ℕ
all_delivered s [] = []
all_delivered s (c ∷ cs) = delivered s c ++ all_delivered (run_section s c) cs

-- Under every interleaving of write, read, poll and close sections, the ring stays well formed and
-- what was read, followed by what is still in the pipe, is what was in the pipe, followed by what
-- was written: no byte is lost, doubled or out of order.
pub run_sections_stream :
    (cs : List Section) (s : Sys)
    → IsValid s.pipe
    → IsValid (run_sections s cs).pipe
      × (all_delivered s cs ++ contents (run_sections s cs).pipe
          ≡ contents s.pipe ++ all_accepted s cs)
unfolding run_sections all_accepted all_delivered
run_sections_stream [] s v = (v, sym (append-nil (contents s.pipe)))
run_sections_stream (c ∷ cs) s v =
    let f = run_section-Flows s c v in
    let (w, rest) = run_sections_stream cs (run_section s c) f.valid in
    (
      w,
      rejoin (delivered s c) (contents s.pipe) (accepted s c) (contents (run_section s c).pipe)
          (all_delivered (run_section s c) cs) (contents (run_sections (run_section s c) cs).pipe)
          (all_accepted (run_section s c) cs) f.stream rest,
    )
  where
    rejoin :
        (d k a k' d' e a' : List ℕ)
        → d ++ k' ≡ k ++ a
        → d' ++ e ≡ k' ++ a'
        → (d ++ d') ++ e ≡ k ++ (a ++ a')
    rejoin d k a k' d' e a' p q =
        append_assoc d d' e
        ∙ ap (λ l. d ++ l) q
        ∙ sym (append_assoc d k' a')
        ∙ ap (λ l. l ++ a') p
        ∙ append_assoc k a a'
