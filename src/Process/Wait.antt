-- ===== src/Process/Wait.antt =====
-- kernel/process/wait.c and task_exit of kernel/process/task.c: waiting for a child.  The task list is
-- a list in its order; a task is named by its pid.  A call is a sequence of sections: the ones of other
-- tasks can lie between them.
use char_os.Base.{
  ℕ, zero, suc, ◌+◌, ◌≡◌, Bool, true, false, not, ◌&&◌, ◌||◌, Option, none, some, List, [], ◌∷◌,
  ◌++◌, ◌==◌, if◌then◌else◌,
}
use char_os.Process.Task.{TaskState, ready, running, blocked, dead}
pub mod Reap
mod Tests

-- The part of struct task that waiting reads and writes.
pub record Proc : Type 0 where
  pub pid : ℕ
  pub parent_pid : ℕ
  pub state : TaskState
  pub exit_status : ℕ
  pub sleep_until : ℕ
  pub files_open : Bool

abbrev pub is_dead : TaskState → Bool
is_dead dead = true
is_dead ready = false
is_dead running = false
is_dead blocked = false

abbrev pub is_blocked : TaskState → Bool
is_blocked blocked = true
is_blocked ready = false
is_blocked running = false
is_blocked dead = false

-- `pid == -1 || t->pid == pid`; no pid stands for -1.
abbrev pub is_wanted : Option ℕ → ℕ → Bool
is_wanted none pid = true
is_wanted (some p) pid = pid == p

-- A dead child of `cur` that is waited for.
abbrev pub can_reap : ℕ → Option ℕ → Proc → Bool
can_reap cur want t = is_dead t.state && t.parent_pid == cur && is_wanted want t.pid

-- What a look at the list gives: a child taken out of it, or whether there is reason to wait.
pub data Waited : Type 0 where
  reaped : Proc → List Proc → Waited
  keeps_waiting : Waited
  no_children : Waited

abbrev pub has_child : ℕ → List Proc → Bool
has_child cur [] = false
has_child cur (t ∷ tasks) = t.parent_pid == cur || has_child cur tasks

abbrev pub has_wanted : ℕ → Option ℕ → List Proc → Bool
has_wanted cur want [] = false
has_wanted cur want (t ∷ tasks) =
    (t.parent_pid == cur && is_wanted want t.pid) || has_wanted cur want tasks

-- A task in front of what a search of the rest of the list gives.
abbrev pub put_before : Proc → Option (Proc × List Proc) → Option (Proc × List Proc)
put_before t none = none
put_before t (some (r, rest)) = some (r, t ∷ rest)

-- The first child that can be taken out, and the list without it.
abbrev pub take_dead : ℕ → Option ℕ → List Proc → Option (Proc × List Proc)
take_dead cur want [] = none
take_dead cur want (t ∷ tasks) =
    if can_reap cur want t then some (t, tasks) else put_before t (take_dead cur want tasks)

abbrev pub or_wait : Bool → Option (Proc × List Proc) → Waited
or_wait waits (some (t, rest)) = reaped t rest
or_wait waits none = if waits then keeps_waiting else no_children

-- One round of wait_task under its lock; it returns the pid and the status of a child that is
-- reaped, or -1 for `no_children`.
unfoldable pub wait_check : ℕ → Option ℕ → List Proc → Waited
wait_check cur want tasks = or_wait (has_child cur tasks) (take_dead cur want tasks)

-- wait_task_wnohang: `keeps_waiting` is its 0.
unfoldable pub wait_nohang : ℕ → Option ℕ → List Proc → Waited
wait_nohang cur want tasks = or_wait (has_wanted cur want tasks) (take_dead cur want tasks)

abbrev pub each : (Proc → Proc) → List Proc → List Proc
each f [] = []
each f (t ∷ tasks) = f t ∷ each f tasks

abbrev pub woken : ℕ → Proc → Proc
woken parent t =
    if is_blocked t.state && t.sleep_until == 0 && t.pid == parent
    then record t { state = ready }
    else t

-- wait_wakeup_parent
unfoldable pub wakeup_parent : ℕ → List Proc → List Proc
wakeup_parent parent tasks = each (woken parent) tasks

-- `cur->state = TASK_BLOCKED;` after the lock is given back.
unfoldable pub sleeps : ℕ → List Proc → List Proc
sleeps cur tasks = each (λ t. if t.pid == cur then record t { state = blocked } else t) tasks

-- The sections of wait_task and of task_exit, in their order in each call.
pub data Section : Type 0 where
  looks : ℕ → Option ℕ → Section
  falls_asleep : ℕ → Section
  closes_files : ℕ → Section
  wakes_parent : ℕ → Section
  dies : ℕ → Section

abbrev pub without_reaped : List Proc → Waited → List Proc
without_reaped tasks (reaped t rest) = rest
without_reaped tasks keeps_waiting = tasks
without_reaped tasks no_children = tasks

unfoldable pub run_section : List Proc → Section → List Proc
run_section tasks (looks cur want) = without_reaped tasks (wait_check cur want tasks)
run_section tasks (falls_asleep cur) = sleeps cur tasks
run_section tasks (closes_files pid) =
    each (λ t. if t.pid == pid then record t { files_open = false } else t) tasks
run_section tasks (wakes_parent parent) = wakeup_parent parent tasks
run_section tasks (dies pid) =
    each (λ t. if t.pid == pid then record t { state = dead } else t) tasks

unfoldable pub run_sections : List Proc → List Section → List Proc
unfolding run_section
run_sections tasks [] = tasks
run_sections tasks (s ∷ ss) = run_sections (run_section tasks s) ss

-- task_exit of a task, up to the switch to another one.
abbrev pub exit_sections : Proc → List Section
exit_sections t = closes_files t.pid ∷ wakes_parent t.parent_pid ∷ dies t.pid ∷ []
