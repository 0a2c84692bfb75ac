-- ===== src/Process/PipeBuf/Tests.antt =====
-- Runs of the older pipe, and the theorem about it at a concrete one.
use char_os.Base.{◌+◌, ◌≤◌, ◌≡◌, List, [], ◌∷◌, some, refl, arith}
use char_os.Process.PipeBuf.{PipeBuf, pipe_init, pipe_write, pipe_read}
use char_os.Process.PipeBuf.Stream.{Call, writes, reads, run, accepted, run-accepted}

echoes : (pipe_read (pipe_write pipe_init (7 ∷ 8 ∷ [])).0 9).1 ≡ some (7 ∷ 8 ∷ [])
unfolding pipe_read pipe_write
echoes = refl

-- All but one byte of the buffer is used and read.
abbrev almost : PipeBuf
almost = record pipe_init { read_idx = 511; write_idx = 511 }

abbrev script : List Call
script = writes (1 ∷ 2 ∷ []) ∷ reads 4 ∷ writes (3 ∷ []) ∷ []

run-accepted_example :
    ((run almost script).write_idx ≡ 511 + accepted almost script)
    × ((run almost script).write_idx ≤ 512)
run-accepted_example = run-accepted almost script (omega arith)
