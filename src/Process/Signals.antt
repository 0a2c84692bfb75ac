-- ===== src/Process/Signals.antt =====
-- kernel/process/signal.c: sending and delivering signals.  The task list is a table of `n` tasks in
-- its order; the current task is given by its place.
use char_os.Base.{
  ℕ, zero, suc, ◌+◌, ◌-◌, ◌%◌, ◌^◌, ◌≡◌, Bool, true, false, not, ◌&&◌, ◌||◌, Option, none, some,
  List, [], ◌∷◌, bit_and, bit_or, ◌==◌, ltb, leb, if◌then◌else◌, update, scan,
}
use char_os.Base.Bits.{bit_not}
use char_os.Process.Task.{TaskState, ready, running, blocked, dead}
use char_os.Process.Wait.{Proc, is_dead, is_blocked, woken}
pub mod Deliver
mod Tests

abbrev pub sig_max : ℕ
sig_max = 32

-- The part of struct task that signals read and write.
pub record SigTask : Type 0 where
  pub proc : Proc
  pub sig_handlers : ℕ → ℕ
  pub sig_pending : ℕ
  pub user_esp : ℕ

-- `sig_pending & (1u << sig)`, and both ways to change that bit.
abbrev pub is_pending : ℕ → ℕ → Bool
is_pending pending sig = not (bit_and pending (2 ^ sig) == 0)

abbrev pub set_pending : ℕ → ℕ → ℕ
set_pending pending sig = bit_or pending (2 ^ sig)

abbrev pub clear_pending : ℕ → ℕ → ℕ
clear_pending pending sig = bit_and pending (bit_not 32 (2 ^ sig))

abbrev pub has_handler : SigTask → ℕ → Bool
has_handler t sig = not (t.sig_handlers sig == 0)

-- A task with a handler gets the signal, and runs again if it was blocked.
abbrev pub notified : ℕ → SigTask → SigTask
notified sig t = record t {
  sig_pending = set_pending t.sig_pending sig;
  proc = if is_blocked t.proc.state then record (t.proc) { state = ready } else t.proc;
}

-- A task without one is ended; fs_close_table closes its files.
abbrev pub killed : ℕ → SigTask → SigTask
killed sig t = record t {
  proc = record (t.proc) { files_open = false; state = dead; exit_status = 128 + sig };
  sig_pending = clear_pending t.sig_pending sig;
}

-- wait_wakeup_parent over the table.
abbrev pub wakes_all : ℕ → (ℕ → SigTask) → ℕ → SigTask
wakes_all parent tasks j = record (tasks j) { proc = woken parent (tasks j).proc }

-- What sending does: it returns with the table, or calls task_exit of the current task, which does
-- not come back.
pub data Sent : Type 0 where
  sent : (ℕ → SigTask) → Sent
  exits : (ℕ → SigTask) → Sent

abbrev pub send_one : ℕ → ℕ → (ℕ → SigTask) → ℕ → Sent
send_one cur sig tasks i =
    if has_handler (tasks i) sig
    then sent (update tasks i (notified sig (tasks i)))
    else if i == cur
    then exits tasks
    else if not (is_dead (tasks i).proc.state)
    then sent (wakes_all (tasks i).proc.parent_pid (update tasks i (killed sig (tasks i))))
    else sent tasks

-- `if (pid != -1) break;`; no pid stands for -1.
abbrev pub go_on : Option ℕ → Sent → ((ℕ → SigTask) → Sent) → Sent
go_on none (sent tasks) next = next tasks
go_on (some pid) (sent tasks) next = sent tasks
go_on pid (exits tasks) next = exits tasks

abbrev pub is_target : Option ℕ → ℕ → Bool
is_target none pid = true
is_target (some p) pid = pid == p

-- The loop, with `n` tasks left from place `i`.
unfoldable pub send_from : ℕ → Option ℕ → ℕ → (ℕ → SigTask) → ℕ → ℕ → Sent
send_from cur pid sig tasks i zero = sent tasks
send_from cur pid sig tasks i (suc n) =
    let skipped = send_from cur pid sig tasks (i + 1) n in
    let taken = go_on pid (send_one cur sig tasks i) (λ u. send_from cur pid sig u (i + 1) n) in
    if is_target pid (tasks i).proc.pid then taken else skipped

-- The table with the last signal sent to all, for signal_check.
pub record Signals : Type 0 where
  pub tasks : ℕ → SigTask
  pub pending_sig : ℕ

abbrev pub note_legacy : Signals → Option ℕ → ℕ → Sent → Signals
note_legacy s none sig (sent tasks) = record { tasks = tasks; pending_sig = sig }
note_legacy s (some pid) sig (sent tasks) = record s { tasks = tasks }
note_legacy s pid sig (exits tasks) = record s { tasks = tasks }

-- signal_send; `n` tasks are in the list.
unfoldable pub signal_send : ℕ → ℕ → Signals → Option ℕ → ℕ → Signals
signal_send cur n s pid sig =
    if leb sig_max sig then s else note_legacy s pid sig (send_from cur pid sig s.tasks 0 n)

unfoldable pub signal_check : Signals → ℕ × Signals
signal_check s = (s.pending_sig, record s { pending_sig = 0 })

-- sys_signal_handler: whether it returned 0.
unfoldable pub signal_handler : SigTask → ℕ → ℕ → Bool × SigTask
signal_handler t sig handler =
    if leb sig_max sig
    then (false, t)
    else (true, record t { sig_handlers = update t.sig_handlers sig handler })

-- A signal that can be delivered.
abbrev pub deliverable : SigTask → ℕ → Bool
deliverable t sig = is_pending t.sig_pending sig && has_handler t sig

abbrev pub is_found : Option ℕ → Bool
is_found none = false
is_found (some sig) = true

unfoldable pub signal_has_pending : SigTask → Bool
signal_has_pending t = is_found (scan (deliverable t) 0 sig_max)

-- The part of struct registers that delivery reads and writes.
pub record Registers : Type 0 where
  pub eip : ℕ
  pub cs : ℕ
  pub eflags : ℕ
  pub useresp : ℕ
  pub ss : ℕ

-- What delivery does: nothing, or the task and the registers with the eight words that it stores
-- at the new stack pointer.
pub data Delivery : Type 0 where
  nothing : Delivery
  delivers : ℕ → SigTask → Registers → List ℕ → Delivery

abbrev pub enter_handler : SigTask → Registers → Option ℕ → Delivery
enter_handler t regs none = nothing
enter_handler t regs (some sig) =
    let new_esp : ℕ = (t.user_esp + 2 ^ 32 - 32) % 2 ^ 32 in
    delivers sig (record t { sig_pending = clear_pending t.sig_pending sig; user_esp = new_esp })
      (record regs { eip = t.sig_handlers sig; useresp = new_esp })
      (regs.eip
        ∷ regs.cs
        ∷ regs.eflags
        ∷ regs.useresp
        ∷ regs.ss
        ∷ sig
        ∷ 0x1500000
        ∷ t.sig_handlers sig
        ∷ [])

unfoldable pub signal_deliver : SigTask → Registers → Delivery
signal_deliver t regs = enter_handler t regs (scan (deliverable t) 0 sig_max)
