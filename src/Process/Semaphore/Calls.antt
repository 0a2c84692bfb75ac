-- ===== src/Process/Semaphore/Calls.antt =====
-- kernel/process/semaphore.c: what holds under every interleaving of the sections of calls.
use char_os.Base.{zero, suc, ◌-◌, ◌≢◌, update, ℕ, ◌+◌, ◌≤◌, ◌<◌, ◌≡◌, true, List, [], ◌∷◌, arith}
use char_os.Process.Task.{TaskState, ready, running, blocked}
use char_os.Process.Semaphore.{Sys, Outcome, refused, done, sleeps, wait_section, post, shift}

-- A try of `sem_wait` by a task, the first or one after waking, or a `sem_post`.
pub data Call : Type 0 where
  tries : ℕ → Call
  posts : Call

pub run : Sys → List Call → Sys
unfolding wait_section post
run s [] = s
run s (tries t ∷ cs) = run (wait_section s t).0 cs
run s (posts ∷ cs) = run (post s).0 cs

abbrev taken_by : Outcome → ℕ
taken_by refused = 0
taken_by done = 1
taken_by sleeps = 0

-- How many tries took one, and how many posts gave one.
pub taken : Sys → List Call → ℕ
unfolding wait_section post
taken s [] = 0
taken s (tries t ∷ cs) = taken_by (wait_section s t).1 + taken (wait_section s t).0 cs
taken s (posts ∷ cs) = taken (post s).0 cs

pub given : List Call → ℕ
given [] = 0
given (tries t ∷ cs) = given cs
given (posts ∷ cs) = given cs + 1

wait_section-value :
    (s : Sys) (t : ℕ)
    → s.sem.valid ≡ true
    → let (r, out) = wait_section s t in
      (r.sem.valid ≡ true) × (r.sem.value + taken_by out ≡ s.sem.value)
unfolding wait_section
wait_section-value s t alive = (ground arith, ground arith)

post-value :
    (s : Sys)
    → s.sem.valid ≡ true
    → ((post s).0.sem.valid ≡ true) × ((post s).0.sem.value ≡ s.sem.value + 1)
unfolding post
post-value s alive = (ground arith, ground arith)

-- Under every interleaving of tries and posts, the value and what was taken make what there was and
-- what was given: no more tasks get through than the semaphore has admitted.
pub run-balance :
    (s : Sys) (cs : List Call)
    → s.sem.valid ≡ true
    → (run s cs).sem.value + taken s cs ≡ s.sem.value + given cs
unfolding run taken given
run-balance s [] alive = omega arith
run-balance s (tries t ∷ cs) alive =
    let (still, one) = wait_section-value s t alive in
    omega (arith, run-balance (wait_section s t).0 cs still)
run-balance s (posts ∷ cs) alive =
    let (still, one) = post-value s alive in omega (arith, run-balance (post s).0 cs still)

abbrev pub was_woken : TaskState → TaskState → ℕ
was_woken blocked ready = 1
was_woken s t = 0

-- How many tasks of the `n` places of the queue from `i` on went from blocked to ready.
unfoldable pub woken : Sys → Sys → ℕ → ℕ → ℕ
woken s t i zero = 0
woken s t i (suc n) =
    was_woken (s.tasks (s.sem.wait_queue i)) (t.tasks (s.sem.wait_queue i)) + woken s t (i + 1) n

-- Steps of a semaphore and the number of tasks that were woken and have not tried again yet. A task
-- that tries is not blocked; the scheduler lets a ready task run.
pub data Step : Sys → ℕ → Sys → ℕ → Type 0 where
  arrives : (s : Sys) (n t : ℕ) → s.tasks t ≢ blocked → Step s n (wait_section s t).0 n
  retries : (s : Sys) (n t : ℕ) → s.tasks t ≢ blocked → Step s (n + 1) (wait_section s t).0 n
  gives : (s : Sys) (n : ℕ) → Step s n (post s).0 (n + woken s (post s).0 0 s.sem.wait_count)
  runs :
      (s : Sys) (n t : ℕ)
      → s.tasks t ≡ ready
      → Step s n (record s { tasks = update s.tasks t running }) n

pub data Reaches (s : Sys) (n : ℕ) : Sys → ℕ → Type 0 where
  here : Reaches s n s n
  next : (t u : Sys) (k m : ℕ) → Reaches s n t k → Step t k u m → Reaches s n u m

-- The tasks in the queue are blocked and different, and where tasks sleep, each unit that is free has
-- a task on its way to it.
pub record IsServed (s : Sys) (n : ℕ) : Type 0 where
  pub alive : s.sem.valid ≡ true
  pub asleep : (i : ℕ) → i < s.sem.wait_count → s.tasks (s.sem.wait_queue i) ≡ blocked
  pub distinct :
      (i j : ℕ)
      → i < s.sem.wait_count
      → j < s.sem.wait_count
      → s.sem.wait_queue i ≡ s.sem.wait_queue j
      → i ≡ j
  pub served : 0 < s.sem.wait_count → s.sem.value ≤ n

-- What a post with a task in the queue makes.
abbrev handed_on : Sys → Sys
handed_on s = record {
  sem = record s.sem {
    value = s.sem.value + 1;
    wait_queue = shift s.sem.wait_queue 1 (s.sem.wait_count - 1);
    wait_count = s.sem.wait_count - 1;
  };
  tasks = update s.tasks (s.sem.wait_queue 0) ready;
}
