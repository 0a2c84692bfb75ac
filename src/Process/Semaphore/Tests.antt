-- ===== src/Process/Semaphore/Tests.antt =====
-- Runs of a semaphore, and the theorems about it at concrete states.
use char_os.Base.{◌+◌, ◌≡◌, ◌≢◌, true, List, [], ◌∷◌, update, refl}
use char_os.Process.Task.{running, ready, blocked}
use char_os.Process.Semaphore.Queue.{
  counter, queue, take_or_wait, give, wake_first, semaphore-counter,
}
use char_os.Process.Semaphore.Calls.{
  Call, tries, posts, run, taken, given, run-balance, woken, Reaches, here, next, arrives, gives,
  retries,
}
use char_os.Process.Semaphore.{Sys, wait_section, post}

-- A semaphore of one unit, as `sem_create(1)` makes it.
abbrev mutex : Sys
mutex = record {
  sem = record { valid = true; value = 1; wait_count = 0; wait_queue = λ k. 0 };
  tasks = λ t. running;
}

-- The same when task 4 holds it and tasks 5 and 6 sleep.
abbrev contended : Sys
contended = record {
  sem = record {
    valid = true;
    value = 0;
    wait_count = 2;
    wait_queue = update (update (λ k. 0) 0 5) 1 6;
  };
  tasks = update (update (λ t. running) 5 blocked) 6 blocked;
}

hands_over : (post contended).0.tasks 5 ≡ ready
unfolding post
hands_over = refl

semaphore-counter_example :
    ((counter (wait_section contended 7).0.sem, (wait_section contended 7).1)
      ≡ take_or_wait (counter contended.sem) 7)
    × (counter (post contended).0.sem ≡ give (counter contended.sem))
    × ((post contended).0.tasks ≡ wake_first contended.tasks (queue contended.sem))
semaphore-counter_example = semaphore-counter contended 7 refl

abbrev script : List Call
script = tries 4 ∷ tries 5 ∷ posts ∷ tries 5 ∷ []

run-balance_example : (run mutex script).sem.value + taken mutex script ≡ 1 + given script
run-balance_example = run-balance mutex script refl

running_ne : running ≢ blocked
running_ne e = cc

ready_ne : ready ≢ blocked
ready_ne e = cc

-- Task 4 takes the unit, task 5 sleeps, task 4 gives it back and task 5 tries again.
abbrev handed : (s : Sys) × Reaches mutex 0 s 0
handed =
    let a = (wait_section mutex 4).0 in
    let b = (wait_section a 5).0 in
    (
      (wait_section (post b).0 5).0,
      next (post b).0 (wait_section (post b).0 5).0 1 0
          (next b (post b).0 0 1
            (next a b 0 0 (next mutex a 0 0 here (arrives mutex 0 4 running_ne))
              (arrives a 0 5 (unfold wait_section in running_ne)))
            (unfold wait_section post woken in gives b 0))
          (retries (post b).0 0 5 (unfold wait_section post in ready_ne)),
    )
