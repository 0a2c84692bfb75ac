-- ===== src/Process/Futex/Tests.antt =====
-- Runs of futexes, and the theorem about them at a concrete table.
use char_os.Base.{ℕ, ◌-◌, ◌≡◌, min, Bool, true, false, none, some, update, scan, refl, arith}
use char_os.Process.Task.{running, ready}
use char_os.Process.Futex.{Futexes, futex_init, get_user, wait, wake}
use char_os.Process.Futex.Wake.{waiting, roused, wake-count}

-- Tasks 5 and 6 wait on the word at 64, whose value is 7.
abbrev mapped : ℕ → Bool
mapped a = true

abbrev load : ℕ → ℕ
load a = 7

abbrev asleep : Futexes
asleep = record {
  slots =
      update
        (update (λ i. record { used = false; uaddr = 0; asid = 0; waiter = none }) 0
          (record { used = true; uaddr = 64; asid = 1; waiter = some 5 }))
        1 (record { used = true; uaddr = 64; asid = 1; waiter = some 6 });
  on = true;
  tasks = λ t. running;
}

changed_value : (wait mapped load (futex_init (λ t. running)) 5 1 64 8).1 ≡ false
unfolding wait get_user
changed_value = refl

waits_and_wakes :
    (wake (wait mapped load (futex_init (λ t. running)) 5 1 64 7).0 64 1 1).0.tasks 5 ≡ ready
unfolding wait get_user wake scan
waits_and_wakes = refl

wake-count_example :
    let (t, out) = wake asleep 64 1 1 in
    let all = waiting asleep 64 1 0 16 in
    (out ≡ some (min 1 all))
    × (waiting t 64 1 0 16 ≡ all - min 1 all)
    × (roused asleep t 64 1 0 ≡ true)
wake-count_example = wake-count asleep 64 1 1 0 refl (omega arith) (omega arith) (omega arith)
