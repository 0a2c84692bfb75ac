-- ===== src/Process/Pty/Tests.antt =====
-- Runs of a terminal, and the theorems about it at concrete states.
use char_os.Base.{ℕ, ◌<◌, ◌≡◌, true, false, List, [], ◌∷◌, ◌++◌, refl, arith, take, drop}
use char_os.Process.Pty.Line.{editor, inputs, type_keys, inputs-editor, type-read}
use char_os.Process.Pty.Output.{contents, IsValid, sent, master_write-read}
use char_os.Process.Pty.{Pty, zeroed, slave_read, master_read, master_write, input}

-- A canonical terminal that echoes and sends `\r\n` (`PTY_ICANON | PTY_ECHO | PTY_ONLCR`).
abbrev terminal : Pty
terminal = record zeroed { used = true; flags = 7 }

-- The self-test of the source types `ab`, a backspace, `c` and Enter, and reads `ac\n`.
self_test :
    (slave_read (inputs terminal (b'a' ∷ b'b' ∷ 8 ∷ b'c' ∷ b'\n' ∷ [])) 64).1
    ≡ b'a' ∷ b'c' ∷ b'\n' ∷ []
unfolding inputs input slave_read
self_test = refl

inputs-editor_example :
    let keys : List ℕ = b'a' ∷ b'b' ∷ 0x15 ∷ b'c' ∷ [] in
    (editor (inputs terminal keys) ≡ type_keys (editor terminal) keys)
    × ((inputs terminal keys).canon_len < 256)
    × ((inputs terminal keys).flags ≡ 7)
inputs-editor_example = inputs-editor terminal (b'a' ∷ b'b' ∷ 0x15 ∷ b'c' ∷ []) refl (omega arith)

type-read_example :
    let (q, bytes) = slave_read (inputs terminal (b'l' ∷ b's' ∷ b'\n' ∷ [])) 64 in
    (bytes ≡ b'l' ∷ b's' ∷ b'\n' ∷ []) × (editor q ≡ record { line = []; ready = false })
type-read_example =
    type-read terminal (b'l' ∷ b's' ∷ []) 64 refl refl refl (omega arith) (omega arith)

master_write-read_example :
    let all = take 512 (contents terminal.out ++ sent 7 (b'a' ∷ b'\n' ∷ [])) in
    let (q, bytes) = master_read (master_write terminal (b'a' ∷ b'\n' ∷ [])) 2 in
    IsValid q.out × (bytes ≡ take 2 all) × (contents q.out ≡ drop 2 all)
master_write-read_example = master_write-read terminal (b'a' ∷ b'\n' ∷ []) 2 (omega arith)
