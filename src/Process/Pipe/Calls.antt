-- ===== src/Process/Pipe/Calls.antt =====
-- kernel/process/pipe.c: whole calls of `pipe_write_block` and `pipe_read_block`.
use mathlib.Core.List.{append-nil}
use char_os.Base.{
  ℕ, ◌+◌, ◌≤◌, ◌≡◌, ◌≢◌, some, List, [], ◌∷◌, ◌++◌, length, min, length-append, nil_of_length,
  take_all, ◌∙◌, arith, ap, sym,
}
use char_os.Process.Pipe.Fifo.{contents, IsValid, Filled, fill-Filled, drain-Drained}
use char_os.Process.Pipe.{
  Pipe, Sys, pipe_size, fill, drain, wrote, write_section, read_section, Section, run_sections,
  write_loop, write_block, read_loop,
}

-- With room for all of it, all of it goes in.
fill_all :
    (p : Pipe) (src : List ℕ)
    → IsValid p
    → p.count + length src ≤ pipe_size
    → ((fill p src).1 ≡ []) × (contents (fill p src).0 ≡ contents p ++ src)
fill_all p src v h =
    let f = fill-Filled p src v in
    all_done f
      (omega (arith, ap length f.splits, length-append f.done (fill p src).1, h, f.counted))
  where
    all_done :
        (f : Filled p src (fill p src))
        → p.count + (length f.done + length (fill p src).1) ≤ pipe_size
        → ((fill p src).1 ≡ []) × (contents (fill p src).0 ≡ contents p ++ src)
    all_done f sizes =
        let e : (fill p src).1 ≡ [] = nil_of_length _ (ground (arith, f.stops, f.counted)) in
        (e, f.holds ∙ ap (λ l. contents p ++ l) (sym (f.splits ∙ rw e (append-nil f.done))))

write_section_room :
    (s : Sys) (me x : ℕ) (xs : List ℕ)
    → IsValid s.pipe
    → s.pipe.count + length (x ∷ xs) ≤ pipe_size
    → let (t, out) = write_section s me (x ∷ xs) in
      (out ≡ wrote []) × (contents t.pipe ≡ contents s.pipe ++ (x ∷ xs))
unfolding write_section
write_section_room s me x xs v h = ground (arith, fill_all s.pipe (x ∷ xs) v h)

-- A read that finds bytes returns at once, with as many as it asks for or all that there are, and
-- takes them from the front.
pub read_loop_available :
    (s : Sys) (me len : ℕ) (gaps : List (List Section))
    → IsValid s.pipe
    → s.pipe.count ≢ 0
    → let (t, out) = read_section s me len in
      let bytes = (drain s.pipe len).0 in
      (read_loop s me len ([] ∷ gaps) ≡ some (t, bytes))
      × (length bytes ≡ min len s.pipe.count)
      × (contents s.pipe ≡ bytes ++ contents t.pipe)
unfolding read_loop read_section run_sections
read_loop_available s me len gaps v ne =
    let d = drain-Drained s.pipe len v in (ground arith, d.amount, ground (arith, d.splits))

-- With room for all of it, and at most 512 bytes, a write returns their number after one section,
-- without sleeping, and appends them in order; it does so though no reader may be left.
pub write_block_room :
    (s : Sys) (me x : ℕ) (xs : List ℕ) (gaps : List (List Section))
    → IsValid s.pipe
    → s.pipe.count + length (x ∷ xs) ≤ pipe_size
    → let t = (write_section s me (x ∷ xs)).0 in
      (write_block s me (x ∷ xs) ([] ∷ gaps) ≡ some (t, some (length (x ∷ xs))))
      × (contents t.pipe ≡ contents s.pipe ++ (x ∷ xs))
unfolding write_block write_loop run_sections
write_block_room s me x xs gaps v h =
    let (e, c) = write_section_room s me x xs v h in
    (ground (arith, e, take_all pipe_size (x ∷ xs) (omega arith)), c)
