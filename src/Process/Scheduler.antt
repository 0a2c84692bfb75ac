-- ===== src/Process/Scheduler.antt =====
-- kernel/arch/x86_64/sched64.c: the table of 64 tasks, which picks the lowest priority number and
-- among equals the one that was turned back first. A negative priority is refused by the source and
-- is no priority here; `none` is -1.
pub mod Pick
pub mod Rotate
pub mod Table
mod Tests
use char_os.Base.{
  ℕ, zero, suc, ◌+◌, ◌-◌, ◌%◌, ◌^◌, Bool, true, false, not, ◌&&◌, ◌||◌, Option, none, some, ◌==◌,
  ltb, leb, if◌then◌else◌, update, scan,
}

abbrev pub sched_max : ℕ
sched_max = 64

-- `sched_slot_t`
pub record Slot : Type 0 where
  pub pid : ℕ
  pub prio : ℕ
  pub seq : ℕ
  pub active : Bool

pub record Sched : Type 0 where
  pub inited : Bool
  pub tasks : ℕ → Slot
  pub seq_ctr : ℕ

unfoldable pub find_task : Sched → ℕ → Option ℕ
find_task s pid = scan (λ i. (s.tasks i).active && ((s.tasks i).pid == pid)) 0 sched_max

-- Whether the task in slot `i` goes before the best one so far, in slot `k`.
abbrev pub goes_before : Sched → ℕ → ℕ → Bool
goes_before s i k =
    ltb (s.tasks i).prio (s.tasks k).prio
    || ((s.tasks i).prio == (s.tasks k).prio) && ltb (s.tasks i).seq (s.tasks k).seq

-- One round of the loop of `pick_next`.
abbrev pub better : Sched → Option ℕ → ℕ → Option ℕ
better s none i = if (s.tasks i).active then some i else none
better s (some k) i = if (s.tasks i).active && goes_before s i k then some i else some k

pub pick_from : Sched → Option ℕ → ℕ → ℕ → Option ℕ
pick_from s best i zero = best
pick_from s best i (suc n) = pick_from s (better s best i) (i + 1) n

unfoldable pub pick_next : Sched → Option ℕ
unfolding pick_from
pick_next s = pick_from s none 0 sched_max

abbrev pub sched_init : Sched
sched_init = record {
  inited = true;
  tasks = λ i. record { pid = 0; prio = 31; seq = 0; active = false };
  seq_ctr = 0;
}

abbrev pub next_seq : Sched → ℕ
next_seq s = (s.seq_ctr + 1) % 2 ^ 64

unfoldable pub add : Sched → ℕ → ℕ → Sched × Option ℕ
unfolding find_task
add s pid prio =
    if not s.inited || (pid == 0) || ltb 31 prio then (s, none) else elim (find_task s pid) [
      | some _ ↦ (s, none)
      | none ↦ elim (scan (λ i. not (s.tasks i).active) 0 sched_max) [
        | none ↦ (s, none)
        | some i ↦ (
          record s {
            tasks =
                update s.tasks i
                  (record { pid = pid; prio = prio; seq = s.seq_ctr; active = true });
            seq_ctr = next_seq s;
          },
          some 0,
        )
      ]
    ]

unfoldable pub remove : Sched → ℕ → Sched × Option ℕ
unfolding find_task
remove s pid = elim (find_task s pid) [
  | none ↦ (s, none)
  | some i ↦ (
    record s { tasks = update s.tasks i (record (s.tasks i) { active = false; pid = 0 }) },
    some 0,
  )
]

unfoldable pub set_prio : Sched → ℕ → ℕ → Sched × Option ℕ
unfolding find_task
set_prio s pid prio = elim (find_task s pid) [
  | none ↦ (s, none)
  | some i ↦
      if ltb 31 prio
      then (s, none)
      else (record s { tasks = update s.tasks i (record (s.tasks i) { prio = prio }) }, some 0)
]

-- `sched64_current` with an output that is not null: the `pid`.
unfoldable pub current : Sched → Option ℕ
unfolding pick_next
current s = elim (pick_next s) [ none ↦ none | some i ↦ some (s.tasks i).pid ]

-- The least sequence number of the active tasks of a priority, from `m` down.
pub min_from : Sched → ℕ → ℕ → ℕ → ℕ → ℕ
min_from s p m i zero = m
min_from s p m i (suc n) =
    min_from s p
      (if (s.tasks i).active && ((s.tasks i).prio == p) && ltb (s.tasks i).seq m
        then (s.tasks i).seq
        else m)
      (i + 1) n

-- The end of `rotate_best_class`: the slot that is found gets the next number.
abbrev pub turn_back : Sched → Option ℕ → Sched × Option ℕ
turn_back s none = (s, none)
turn_back s (some i) = (
  record s {
    tasks = update s.tasks i (record (s.tasks i) { seq = s.seq_ctr });
    seq_ctr = next_seq s;
  },
  some 0,
)

-- The slot of an active task of priority `p` with the sequence number `m`.
abbrev pub slot_of : Sched → ℕ → ℕ → Option ℕ
slot_of s p m =
    scan (λ i. (s.tasks i).active && ((s.tasks i).prio == p) && ((s.tasks i).seq == m)) 0 sched_max

-- `rotate_best_class` when `pick_next` has given its answer.
pub rotate_class : Sched → Option ℕ → Sched × Option ℕ
unfolding min_from
rotate_class s none = (s, none)
rotate_class s (some b) =
    turn_back s (slot_of s (s.tasks b).prio (min_from s (s.tasks b).prio (2 ^ 64 - 1) 0 sched_max))

unfoldable pub rotate : Sched → Sched × Option ℕ
unfolding pick_next rotate_class
rotate s = rotate_class s (pick_next s)

-- `sched64_yield`, and `sched64_tick`, which is the same.
unfoldable pub yield_task : Sched → Sched × Option ℕ
unfolding rotate
yield_task s = if not s.inited then (s, none) else rotate s
