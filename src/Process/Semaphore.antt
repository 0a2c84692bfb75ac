-- ===== src/Process/Semaphore.antt =====
-- kernel/process/semaphore.c: counting semaphores with a queue of sleeping tasks. What runs under the
-- lock of one semaphore is one function here; a call that sleeps tries again from the start when it
-- is woken. A task is its `pid`. The value is an `int` that is created as 0 or more and stays so;
-- fewer than 2 ^ 31 posts are taken for granted.
pub mod Queue
pub mod Calls
mod Tests
use char_os.Base.{
  ℕ, zero, suc, ◌+◌, ◌-◌, Bool, true, false, not, Option, none, some, List, [], ◌∷◌, ◌==◌, ltb, leb,
  if◌then◌else◌, update, scan,
}
use char_os.Process.Task.{TaskState, ready, blocked}

abbrev pub sem_max : ℕ
sem_max = 16

abbrev pub wait_max : ℕ
wait_max = 16

-- `struct semaphore`
pub record Sem : Type 0 where
  pub valid : Bool
  pub value : ℕ
  pub wait_count : ℕ
  pub wait_queue : ℕ → ℕ

-- A semaphore and the states of the tasks.
pub record Sys : Type 0 where
  pub sem : Sem
  pub tasks : ℕ → TaskState

pub data Outcome : Type 0 where
  -- the call returns -1
  refused : Outcome
  -- the call returns 0
  done : Outcome
  -- the caller is blocked, and tries again when it is woken
  sleeps : Outcome

-- From one locking to the next in `sem_wait_id`.
unfoldable pub wait_section : Sys → ℕ → Sys × Outcome
wait_section s me =
    let m = s.sem in
    if not m.valid
    then (s, refused)
    else if ltb 0 m.value
    then (record s { sem = record m { value = m.value - 1 } }, done)
    else if leb wait_max m.wait_count
    then (s, refused)
    else (
      record {
        sem = record m {
          wait_queue = update m.wait_queue m.wait_count me;
          wait_count = m.wait_count + 1;
        };
        tasks = update s.tasks me blocked;
      },
      sleeps,
    )

-- `for (; i < wait_count; i++) wait_queue[i-1] = wait_queue[i]`, with the rounds left.
pub shift : (ℕ → ℕ) → ℕ → ℕ → ℕ → ℕ
shift q i zero = q
shift q i (suc n) = shift (update q (i - 1) (q i)) (i + 1) n

-- `sem_post_id` of an existing number.
unfoldable pub post : Sys → Sys × Outcome
unfolding shift
post s =
    let m = s.sem in
    if not m.valid
    then (s, refused)
    else if ltb 0 m.wait_count
    then (
      record {
        sem = record m {
          value = m.value + 1;
          wait_queue = shift m.wait_queue 1 (m.wait_count - 1);
          wait_count = m.wait_count - 1;
        };
        tasks = update s.tasks (m.wait_queue 0) ready;
      },
      done,
    )
    else (record s { sem = record m { value = m.value + 1 } }, done)

-- `for (; i < wait_count; i++) wait_queue[i]->state = TASK_READY`
pub wake_all : (ℕ → TaskState) → (ℕ → ℕ) → ℕ → ℕ → ℕ → TaskState
wake_all tasks q i zero = tasks
wake_all tasks q i (suc n) = wake_all (update tasks (q i) ready) q (i + 1) n

-- `sem_destroy_id` of an existing number.
unfoldable pub destroy : Sys → Sys × Outcome
unfolding wake_all
destroy s =
    let m = s.sem in
    if not m.valid then (s, refused) else (
      record {
        sem = record m { wait_count = 0; valid = false };
        tasks = wake_all s.tasks m.wait_queue 0 m.wait_count;
      },
      done,
    )

-- `sem_create` of the whole table; `none` is -1.
unfoldable pub sem_create : (ℕ → Sem) → ℕ → (ℕ → Sem) × Option ℕ
sem_create sems value = elim (scan (λ i. not (sems i).valid) 0 sem_max) [
  | none ↦ (sems, none)
  | some i ↦ (
    update sems i (record { valid = true; value = value; wait_count = 0; wait_queue = λ k. 0 }),
    some i,
  )
]

-- The cleared table of `sem_init_all`.
abbrev pub sem_init_all : ℕ → Sem
sem_init_all i = record { valid = false; value = 0; wait_count = 0; wait_queue = λ k. 0 }
