-- ===== src/Process/Wait/Tests.antt =====
-- kernel/process/wait.c: concrete runs.
use char_os.Base.{◌≡◌, refl, true, false, none, some, [], ◌∷◌}
use char_os.Process.Task.{running, blocked, dead}
use char_os.Process.Wait.{
  Proc, keeps_waiting, no_children, has_child, wait_check, wait_nohang, wakeup_parent, sleeps,
  looks, falls_asleep, closes_files, wakes_parent, dies, run_section, run_sections,
}
use char_os.Process.Wait.Reap.{Outcome, wait_check-Outcome}

abbrev parent : Proc
parent = record {
  pid = 1;
  parent_pid = 0;
  state = running;
  exit_status = 0;
  sleep_until = 0;
  files_open = true;
}

abbrev child : Proc
child = record {
  pid = 2;
  parent_pid = 1;
  state = running;
  exit_status = 7;
  sleep_until = 0;
  files_open = true;
}

wait_check-Outcome_example :
    Outcome
      (has_child 1 (parent ∷ record child { state = dead } ∷ []))
      1
      none
      (parent ∷ record child { state = dead } ∷ [])
      (wait_check 1 none (parent ∷ record child { state = dead } ∷ []))
wait_check-Outcome_example = wait_check-Outcome 1 none (parent ∷ record child { state = dead } ∷ [])

-- Waiting for a task that is no child, with another child alive, does not return.
waits_for_stranger : wait_check 1 (some 9) (parent ∷ child ∷ []) ≡ keeps_waiting
unfolding wait_check
waits_for_stranger = refl

nohang_for_stranger : wait_nohang 1 (some 9) (parent ∷ child ∷ []) ≡ no_children
unfolding wait_nohang
nohang_for_stranger = refl

-- The parent looks, the child exits, the parent falls asleep: it sleeps beside a dead child.
lost_wakeup :
    run_sections
      (parent ∷ child ∷ [])
      (looks 1 none ∷ closes_files 2 ∷ wakes_parent 1 ∷ dies 2 ∷ falls_asleep 1 ∷ [])
    ≡ record parent { state = blocked } ∷ record child { state = dead; files_open = false } ∷ []
unfolding run_sections run_section wait_check wakeup_parent sleeps
lost_wakeup = refl

-- The child wakes the parent before it is dead: the parent looks again, finds nothing and sleeps.
woken_too_early :
    run_sections
      (record parent { state = blocked } ∷ child ∷ [])
      (closes_files 2 ∷ wakes_parent 1 ∷ looks 1 none ∷ falls_asleep 1 ∷ dies 2 ∷ [])
    ≡ record parent { state = blocked } ∷ record child { state = dead; files_open = false } ∷ []
unfolding run_sections run_section wait_check wakeup_parent sleeps
woken_too_early = refl
