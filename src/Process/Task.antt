-- ===== src/Process/Task.antt =====
-- include/process/task.h: the states of a task, and waking one that waits.
use char_os.Base.{ℕ, Option, none, some, update}

pub data TaskState : Type 0 where
  ready running blocked dead : TaskState

-- `if (t) t->state = TASK_READY`
abbrev pub set_ready : Option ℕ → (ℕ → TaskState) → ℕ → TaskState
set_ready none tasks = tasks
set_ready (some t) tasks = update tasks t ready
