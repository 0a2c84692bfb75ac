-- ===== src/Process/Pipe/Tests.antt =====
-- Runs of a pipe, and the theorems about it at concrete states.
use char_os.Base.{◌≡◌, true, List, [], ◌∷◌, ◌++◌, update, refl, arith}
use char_os.Process.Task.{running}
use char_os.Process.Pipe.Fifo.{contents, IsValid}
use char_os.Process.Pipe.Stream.{all_accepted, all_delivered, delivered, run_sections_stream}
use char_os.Process.Pipe.Wake.{IsAwake, run_sections-IsAwake}
use char_os.Process.Pipe.{
  Sys, create, Section, writes, reads, polls, closes, run_section, run_sections,
}

-- A new pipe between running tasks.
abbrev fresh : Sys
fresh = record { pipe = create; tasks = λ t. running }

-- The self-test of the source: four bytes in, two and two out.
abbrev script : List Section
script =
    reads 2 8 ∷ writes 1 (b'A' ∷ b'B' ∷ b'C' ∷ b'D' ∷ []) ∷ polls 2 ∷ reads 2 16 ∷ closes true ∷ []

delivers_in_order : all_delivered fresh script ≡ b'A' ∷ b'B' ∷ b'C' ∷ b'D' ∷ []
unfolding all_delivered delivered run_section
delivers_in_order = refl

run_sections_stream_example :
    IsValid (run_sections fresh script).pipe
    × (all_delivered fresh script ++ contents (run_sections fresh script).pipe
        ≡ contents create ++ all_accepted fresh script)
run_sections_stream_example = run_sections_stream script fresh (omega arith)

run_sections-IsAwake_example : IsAwake (run_sections fresh script).pipe
run_sections-IsAwake_example =
    run_sections-IsAwake script fresh (omega arith)
      (record { reader = λ t e. cc; writer = λ t e. cc })

-- Three bytes in the ring, round its end.
abbrev wrapped : Sys
wrapped = record {
  pipe = record create {
    data_at = update (update (update (λ i. 0) 511 5) 0 6) 1 7;
    read_pos = 511;
    write_pos = 2;
    count = 3;
  };
  tasks = λ t. running;
}
