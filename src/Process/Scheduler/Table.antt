-- ===== src/Process/Scheduler/Table.antt =====
-- kernel/arch/x86_64/sched64.c: the table holds a task once.
use char_os.Base.{
  ℕ, ◌<◌, ◌≡◌, true, false, not, ◌&&◌, ◌||◌, none, ◌==◌, ltb, update, arith, refl, inl, inr,
  Bool-cases, Option-cases, scan, scan-none,
}
use char_os.Process.Scheduler.{Slot, Sched, sched_max, find_task, add, remove, set_prio, next_seq}

-- No two active slots have the same `pid`, and 0 is none.
pub record IsUnique (s : Sched) : Type 0 where
  pub once :
      (i j : ℕ)
      → i < sched_max
      → j < sched_max
      → (s.tasks i).active ≡ true
      → (s.tasks j).active ≡ true
      → (s.tasks i).pid ≡ (s.tasks j).pid
      → i ≡ j
  pub named : (i : ℕ) → i < sched_max → (s.tasks i).active ≡ true → 0 < (s.tasks i).pid

find_task-none :
    (s : Sched) (pid j : ℕ)
    → find_task s pid ≡ none
    → j < sched_max
    → ((s.tasks j).active && ((s.tasks j).pid == pid)) ≡ false
unfolding find_task
find_task-none s pid j e lt =
    scan-none (λ i. (s.tasks i).active && ((s.tasks i).pid == pid)) 0 sched_max e j (omega arith)
      (omega arith)

added-IsUnique :
    (s : Sched) (pid prio i : ℕ)
    → IsUnique s
    → 0 < pid
    → find_task s pid ≡ none
    → IsUnique (record s {
      tasks = update s.tasks i (record { pid = pid; prio = prio; seq = s.seq_ctr; active = true });
      seq_ctr = next_seq s;
    })
added-IsUnique s pid prio i u pos fresh = record {
  once = λ j k hj hk on on' same.
      ground (arith, u.once j k, find_task-none s pid j fresh, find_task-none s pid k fresh);
  named = λ j hj on. ground (arith, u.named j);
}

-- A slot that keeps its `pid`, or becomes free, keeps the table as it was.
changed-IsUnique :
    (s : Sched) (i : ℕ) (e : Slot)
    → IsUnique s
    → (e.active ≡ true → ((s.tasks i).active ≡ true) × (e.pid ≡ (s.tasks i).pid))
    → IsUnique (record s { tasks = update s.tasks i e })
changed-IsUnique s i e u keeps = record {
  once = λ j k hj hk on on' same. ground (arith, u.once j k);
  named = λ j hj on. ground (arith, u.named j);
}

add-IsUnique : (s : Sched) (pid prio : ℕ) → IsUnique s → IsUnique (add s pid prio).0
unfolding add
add-IsUnique s pid prio u = elim (Bool-cases (not s.inited || (pid == 0) || ltb 31 prio)) [
  | inl refused ↦ rw (refused) u
  | inr fine ↦ elim (Option-cases (find_task s pid)) [
    | inr (k, there) ↦ rw (fine, there) u
    | inl fresh ↦ elim (Option-cases (scan (λ i. not (s.tasks i).active) 0 sched_max)) [
      | inl full ↦ rw (fine, fresh, full) u
      | inr (i, free) ↦ rw (fine, fresh, free) (added-IsUnique s pid prio i u (ground arith) fresh)
    ]
  ]
]

remove-IsUnique : (s : Sched) (pid : ℕ) → IsUnique s → IsUnique (remove s pid).0
unfolding remove
remove-IsUnique s pid u = elim (Option-cases (find_task s pid)) [
  | inl gone ↦ rw (gone, remove) u
  | inr (i, there) ↦
      rw (there, remove)
        (changed-IsUnique s i (record (s.tasks i) { active = false; pid = 0 }) u (λ on. cc))
]

set_prio-IsUnique : (s : Sched) (pid prio : ℕ) → IsUnique s → IsUnique (set_prio s pid prio).0
unfolding set_prio
set_prio-IsUnique s pid prio u = elim (Option-cases (find_task s pid)) [
  | inl gone ↦ rw (gone, set_prio) u
  | inr (i, there) ↦ elim (Bool-cases (ltb 31 prio)) [
    | inl bad ↦ rw (there, bad, set_prio) u
    | inr fine ↦
        rw (there, fine, set_prio)
          (changed-IsUnique s i (record (s.tasks i) { prio = prio }) u (λ on. (on, refl)))
  ]
]

-- Adding, removing and changing a priority, also when refused, keep every active `pid` in one slot
-- and above 0.
pub table-IsUnique :
    (s : Sched) (pid prio : ℕ)
    → IsUnique s
    → IsUnique (add s pid prio).0 × IsUnique (remove s pid).0 × IsUnique (set_prio s pid prio).0
table-IsUnique s pid prio u =
    (add-IsUnique s pid prio u, remove-IsUnique s pid u, set_prio-IsUnique s pid prio u)
