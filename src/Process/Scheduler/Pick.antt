-- ===== src/Process/Scheduler/Pick.antt =====
-- kernel/arch/x86_64/sched64.c: which task `pick_next` finds.
use char_os.Base.{
  ℕ, zero, suc, ◌+◌, ◌<◌, ◌≡◌, true, false, ◌&&◌, Option, none, some, arith, subst, inl, inr,
  Bool-cases,
}
use char_os.Process.Scheduler.{Sched, sched_max, goes_before, better, pick_from, pick_next}

-- Of the slots below `i`, `best` is active and no active one goes before it; `none` if none is active.
pub record IsBest (s : Sched) (i k : ℕ) : Type 0 where
  pub below : k < i
  pub runs : (s.tasks k).active ≡ true
  pub first : (j : ℕ) → j < i → (s.tasks j).active ≡ true → goes_before s j k ≡ false

abbrev pub IsPicked : Sched → ℕ → Option ℕ → Type 0
IsPicked s i none = (j : ℕ) → j < i → (s.tasks j).active ≡ false
IsPicked s i (some k) = IsBest s i k

better-IsPicked :
    (s : Sched) (best : Option ℕ) (i : ℕ) → IsPicked s i best → IsPicked s (i + 1) (better s best i)
better-IsPicked s none i h = elim (Bool-cases (s.tasks i).active) [
  | inl runs ↦
      rw runs (record { below = omega arith; runs = runs; first = λ j lt on. ground (arith, h j) })
  | inr idle ↦ rw idle (λ j lt. ground (arith, h j))
]
better-IsPicked s (some k) i h = elim (Bool-cases ((s.tasks i).active && goes_before s i k)) [
  | inl new ↦ rw new (record {
    below = omega arith;
    runs = ground arith;
    first = λ j lt on. ground (arith, h.first j);
  })
  | inr old ↦ rw old (record {
    below = omega (arith, h.below);
    runs = h.runs;
    first = λ j lt on. ground (arith, h.first j);
  })
]

pick_from-IsPicked :
    (s : Sched) (n : ℕ) (best : Option ℕ) (i : ℕ)
    → IsPicked s i best
    → IsPicked s (i + n) (pick_from s best i n)
unfolding pick_from
pick_from-IsPicked s zero best i h = subst (λ k. IsPicked s k best) (omega arith) h
pick_from-IsPicked s (suc n) best i h =
    subst (λ k. IsPicked s k (pick_from s (better s best i) (i + 1) n)) (omega arith)
      (pick_from-IsPicked s n (better s best i) (i + 1) (better-IsPicked s best i h))

-- `pick_next` finds an active task that no other active one goes before, by a lower priority number
-- or, at the same one, a lower sequence number; it finds none exactly if none is active.
pub pick_next-IsPicked : (s : Sched) → IsPicked s sched_max (pick_next s)
unfolding pick_next
pick_next-IsPicked s =
    subst (λ k. IsPicked s k (pick_from s none 0 sched_max)) (omega arith)
      (pick_from-IsPicked s sched_max none 0 (λ j lt. absurd (omega arith)))
