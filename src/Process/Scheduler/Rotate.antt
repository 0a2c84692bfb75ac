-- ===== src/Process/Scheduler/Rotate.antt =====
-- kernel/arch/x86_64/sched64.c: yielding sends the running task behind its equals.
use char_os.Base.{
  ℕ, zero, suc, ◌+◌, ◌-◌, ◌^◌, ◌≤◌, ◌<◌, ◌≡◌, ◌≢◌, ◌⊎◌, Bool, true, false, not, ◌&&◌, Option, none,
  some, ◌==◌, ltb, if◌then◌else◌, update, arith, refl, ap, sym, ◌∙◌, subst, inl, inr, Bool-cases,
  scan, scan-first,
}
use char_os.Process.Scheduler.{
  Sched, sched_max, pick_next, min_from, rotate, turn_back, slot_of, rotate_class, next_seq,
  yield_task,
}
use char_os.Process.Scheduler.Pick.{IsBest, IsPicked, pick_next-IsPicked}

-- Active tasks have different sequence numbers, all given out before, and the next one does not wrap.
pub record IsOrdered (s : Sched) : Type 0 where
  pub distinct :
      (i j : ℕ)
      → i < sched_max
      → j < sched_max
      → (s.tasks i).active ≡ true
      → (s.tasks j).active ≡ true
      → (s.tasks i).seq ≡ (s.tasks j).seq
      → i ≡ j
  pub given : (i : ℕ) → i < sched_max → (s.tasks i).active ≡ true → (s.tasks i).seq < s.seq_ctr
  pub room : s.seq_ctr + 1 < 2 ^ 64

-- A round of the loop keeps the least number in hand or in front.
min_at :
    (s : Sched) (p m i k : ℕ)
    → ((s.tasks i).active ≡ true → (s.tasks i).prio ≡ p → (s.tasks k).seq ≤ (s.tasks i).seq)
    → (s.tasks k).active ≡ true
    → (s.tasks k).prio ≡ p
    → (s.tasks k).seq ≤ m
    → (m ≡ (s.tasks k).seq) ⊎ (i ≤ k)
    → ((if (s.tasks i).active && ((s.tasks i).prio == p) && ltb (s.tasks i).seq m
          then (s.tasks i).seq
          else m)
        ≡ (s.tasks k).seq)
      ⊎ (i + 1 ≤ k)
min_at s p m i k least on same le (inl e) = inl (ground arith)
min_at s p m i k least on same le (inr h) = elim (Bool-cases (i == k)) [
  | inl here ↦ inl (ground arith)
  | inr later ↦ inr (ground arith)
]

min_from-min :
    (n : ℕ) (s : Sched) (p m i k : ℕ)
    → ((j : ℕ)
        → j < i + n
        → (s.tasks j).active ≡ true
        → (s.tasks j).prio ≡ p
        → (s.tasks k).seq ≤ (s.tasks j).seq)
    → k < i + n
    → (s.tasks k).active ≡ true
    → (s.tasks k).prio ≡ p
    → (s.tasks k).seq ≤ m
    → (m ≡ (s.tasks k).seq) ⊎ (i ≤ k)
    → min_from s p m i n ≡ (s.tasks k).seq
unfolding min_from
min_from-min zero s p m i k least below on same le (inl e) = e
min_from-min zero s p m i k least below on same le (inr h) = absurd (omega arith)
min_from-min (suc n) s p m i k least below on same le at =
    let m' =
      if (s.tasks i).active && ((s.tasks i).prio == p) && ltb (s.tasks i).seq m
      then (s.tasks i).seq
      else m in
    min_from-min n s p m' (i + 1) k (λ j lt. least j (omega arith)) (omega arith) on same
      (ground (arith, least i)) (min_at s p m i k (least i (omega arith)) on same le at)

-- The picked task is the one whose sequence number is the least of its priority.
min_from-best :
    (s : Sched) (k : ℕ)
    → IsOrdered s
    → IsBest s sched_max k
    → min_from s (s.tasks k).prio (2 ^ 64 - 1) 0 sched_max ≡ (s.tasks k).seq
min_from-best s k v b =
    min_from-min sched_max s (s.tasks k).prio (2 ^ 64 - 1) 0 k
      (λ j lt on same. ground (arith, b.first j)) b.below b.runs refl
      (omega (arith, v.given k b.below b.runs, v.room)) (inr (omega arith))

-- What turning back the task in slot `k` makes.
abbrev pub turned : Sched → ℕ → Sched
turned s k = record s {
  tasks = update s.tasks k (record (s.tasks k) { seq = s.seq_ctr });
  seq_ctr = next_seq s;
}

scan_seq-best :
    (s : Sched) (k : ℕ)
    → IsOrdered s
    → IsBest s sched_max k
    → scan
        (λ i.
          (s.tasks i).active
          && ((s.tasks i).prio == (s.tasks k).prio)
          && ((s.tasks i).seq == (s.tasks k).seq))
        0
        sched_max
      ≡ some k
scan_seq-best s k v b =
    scan-first
      (λ i.
        (s.tasks i).active
        && ((s.tasks i).prio == (s.tasks k).prio)
        && ((s.tasks i).seq == (s.tasks k).seq))
      0 sched_max k
      (record {
        from = omega arith;
        below = b.below;
        passes = ground (arith, b.runs);
        first = λ j lo hi. ground (arith, b.below, b.runs, v.distinct j k);
      })

turned-IsOrdered :
    (s : Sched) (k : ℕ) → IsOrdered s → s.seq_ctr + 2 < 2 ^ 64 → IsOrdered (turned s k)
turned-IsOrdered s k v room = record {
  distinct = λ i j hi hj on on' same. ground (arith, v.distinct i j, v.given i, v.given j);
  given = λ i hi on. ground (arith, v.given i);
  room = omega arith;
}

rotate-best :
    (s : Sched) (k : ℕ) → IsOrdered s → pick_next s ≡ some k → rotate s ≡ (turned s k, some 0)
unfolding rotate rotate_class
rotate-best s k v e =
    let b : IsBest s sched_max k = subst (IsPicked s sched_max) e (pick_next-IsPicked s) in
    ap (rotate_class s) e
    ∙ ap (λ m. turn_back s (slot_of s (s.tasks k).prio m)) (min_from-best s k v b)
    ∙ ap (turn_back s) (scan_seq-best s k v b)

-- A task that was turned back is not picked again while an equal one is active.
turned-pick_next :
    (s : Sched) (k other : ℕ)
    → IsOrdered s
    → other < sched_max
    → other ≢ k
    → (s.tasks other).active ≡ true
    → (s.tasks other).prio ≡ (s.tasks k).prio
    → pick_next (turned s k) ≢ some k
turned-pick_next s k other v lt differs runs equals e =
    let b : IsBest (turned s k) sched_max k =
      subst (IsPicked (turned s k) sched_max) e (pick_next-IsPicked (turned s k)) in
    ground (arith, b.first other, v.given other)

abbrev pub is_slot : Option ℕ → ℕ → Bool
is_slot none k = false
is_slot (some i) k = i == k

-- Whether slot `other` has an active task of the same priority as that of slot `k`, which it is not.
abbrev pub is_rival : Sched → ℕ → ℕ → Bool
is_rival s k other =
    ltb other sched_max
    && not (other == k)
    && (s.tasks other).active
    && ((s.tasks other).prio == (s.tasks k).prio)

rival-pick_next :
    (s : Sched) (k other : ℕ)
    → IsOrdered s
    → (is_rival s k other && is_slot (pick_next (turned s k)) k) ≡ false
rival-pick_next s k other v = elim (Bool-cases (is_rival s k other)) [
  | inr none_other ↦ ground (arith, none_other)
  | inl rival ↦ rw rival (
      not_slot (pick_next (turned s k))
        (turned-pick_next s k other v (ground arith) (ground arith) (ground arith) (ground arith)))
]
  where
    not_slot : (o : Option ℕ) → o ≢ some k → is_slot o k ≡ false
    not_slot none h = refl
    not_slot (some i) h = elim (Bool-cases (i == k)) [
      | inl same ↦ absurd (h (ap some (ground arith)))
      | inr other ↦ other
    ]

-- Yielding when a task is running succeeds and turns exactly this task back, whether another one is
-- active or not, and the order of the sequence numbers is kept, as far as they do not wrap. If some
-- other active task has its priority, the next task to run is a different one.
pub yield-next :
    (s : Sched) (k other : ℕ)
    → s.inited ≡ true
    → IsOrdered s
    → s.seq_ctr + 2 < 2 ^ 64
    → pick_next s ≡ some k
    → let (t, out) = yield_task s in
      (t ≡ turned s k)
      × (out ≡ some 0)
      × IsOrdered t
      × ((is_rival s k other && is_slot (pick_next t) k) ≡ false)
yield-next s k other on v room e =
    let runs_it =
      ap (λ u. if◌then◌else◌ {A = Sched × Option ℕ} (not u) (s, none) (rotate s)) on
      ∙ rotate-best s k v e in
    let result : yield_task s ≡ (turned s k, some 0) = unfold yield_task in runs_it in
    (
      ap (λ r. r.0) result,
      ap (λ r. r.1) result,
      subst (λ r. IsOrdered r.0) (sym result) (turned-IsOrdered s k v room),
      subst (λ r. (is_rival s k other && is_slot (pick_next r.0) k) ≡ false) (sym result)
          (rival-pick_next s k other v),
    )
