-- ===== src/Process/Scheduler/Tests.antt =====
-- Runs of the scheduler, and the theorems about it at concrete tables.
use char_os.Base.{◌≡◌, ◌&&◌, true, false, some, update, scan, refl, arith}
use char_os.Process.Scheduler.{
  Sched, sched_max, sched_init, add, current, yield_task, pick_next, find_task,
}
use char_os.Process.Scheduler.Pick.{IsPicked, pick_next-IsPicked}
use char_os.Process.Scheduler.Rotate.{IsOrdered, turned, is_rival, is_slot, yield-next}
use char_os.Process.Scheduler.Table.{IsUnique}

-- Two tasks of one priority and an urgent one that is added last.
runs_urgent : current (add (add (add sched_init 5 10).0 6 10).0 7 3).0 ≡ some 7
unfolding current pick_next add find_task scan
runs_urgent = refl

-- Tasks 5 and 6 at priority 10.
abbrev pair : Sched
pair = record {
  inited = true;
  tasks =
      update
        (update (λ i. record { pid = 0; prio = 31; seq = 0; active = false }) 0
          (record { pid = 5; prio = 10; seq = 0; active = true }))
        1 (record { pid = 6; prio = 10; seq = 1; active = true });
  seq_ctr = 2;
}

pair-IsOrdered : IsOrdered pair
pair-IsOrdered = record {
  distinct = λ i j hi hj on on' same. ground arith;
  given = λ i hi on. ground arith;
  room = omega arith;
}

yield-next_example :
    let (t, out) = yield_task pair in
    (t ≡ turned pair 0)
    × (out ≡ some 0)
    × IsOrdered t
    × ((is_rival pair 0 1 && is_slot (pick_next t) 0) ≡ false)
yield-next_example =
    yield-next pair 0 1 refl pair-IsOrdered (omega arith) (unfold pick_next in refl)

pair-IsUnique : IsUnique pair
pair-IsUnique = record {
  once = λ i j hi hj on on' same. ground arith;
  named = λ i hi on. ground arith;
}

pick_next-IsPicked_example : IsPicked pair sched_max (pick_next pair)
pick_next-IsPicked_example = pick_next-IsPicked pair
