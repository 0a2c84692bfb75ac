-- ===== src/Process/Wait/Reap.antt =====
-- kernel/process/wait.c: what one look at the task list gives.
use char_os.Base.{
  ℕ, ◌≡◌, refl, ap, ap₂, sym, subst, inl, inr, Bool, true, false, not, ◌&&◌, Option, none, some,
  List, [], ◌∷◌, ◌++◌, if◌then◌else◌, Bool-cases,
}
use char_os.Process.Wait.{
  Proc, can_reap, Waited, reaped, keeps_waiting, no_children, has_child, has_wanted, put_before,
  take_dead, or_wait, wait_check, wait_nohang,
}

-- No task of a list can be reaped.
abbrev pub none_dead : ℕ → Option ℕ → List Proc → Bool
none_dead cur want [] = true
none_dead cur want (t ∷ tasks) = not (can_reap cur want t) && none_dead cur want tasks

-- A child is taken out of the list: the first one that can be.
pub record IsTaken (cur : ℕ) (want : Option ℕ) (tasks : List Proc) (t : Proc) (rest : List Proc)
    : Type 0 where
  pub before : List Proc
  pub behind : List Proc
  pub whole : tasks ≡ before ++ (t ∷ behind)
  pub left : rest ≡ before ++ behind
  pub can : can_reap cur want t ≡ true
  pub earlier : none_dead cur want before ≡ true

-- What is said of each outcome, `waits` being the test for a reason to wait.
pub Outcome : Bool → ℕ → Option ℕ → List Proc → Waited → Type 0
Outcome waits cur want tasks (reaped t rest) = IsTaken cur want tasks t rest
Outcome waits cur want tasks keeps_waiting = (none_dead cur want tasks ≡ true) × (waits ≡ true)
Outcome waits cur want tasks no_children = (none_dead cur want tasks ≡ true) × (waits ≡ false)

abbrev Found : ℕ → Option ℕ → List Proc → Option (Proc × List Proc) → Type 0
Found cur want tasks none = none_dead cur want tasks ≡ true
Found cur want tasks (some (t, rest)) = IsTaken cur want tasks t rest

Found-before :
    (cur : ℕ) (want : Option ℕ) (x : Proc) (tasks : List Proc) (o : Option (Proc × List Proc))
    → can_reap cur want x ≡ false
    → Found cur want tasks o
    → Found cur want (x ∷ tasks) (put_before x o)
Found-before cur want x tasks none e h = ap₂ (λ a b. not a && b) e h
Found-before cur want x tasks (some (t, rest)) e h = record {
  before = x ∷ h.before;
  behind = h.behind;
  whole = ap (λ l. x ∷ l) h.whole;
  left = ap (λ l. x ∷ l) h.left;
  can = h.can;
  earlier = ap₂ (λ a b. not a && b) e h.earlier;
}

take_dead-Found :
    (cur : ℕ) (want : Option ℕ) (tasks : List Proc)
    → Found cur want tasks (take_dead cur want tasks)
take_dead-Found cur want [] = refl
take_dead-Found cur want (t ∷ tasks) = elim (Bool-cases (can_reap cur want t)) [
  | inl e ↦
      subst
        (λ b.
          Found cur want (t ∷ tasks)
            (if b then some (t, tasks) else put_before t (take_dead cur want tasks)))
        (sym e)
        (record { before = []; behind = tasks; whole = refl; left = refl; can = e; earlier = refl })
  | inr e ↦
      subst
        (λ b.
          Found cur want (t ∷ tasks)
            (if b then some (t, tasks) else put_before t (take_dead cur want tasks)))
        (sym e)
        (Found-before cur want t tasks (take_dead cur want tasks) e
          (take_dead-Found cur want tasks))
]

or_wait-Outcome :
    (waits : Bool) (cur : ℕ) (want : Option ℕ) (tasks : List Proc) (o : Option (Proc × List Proc))
    → Found cur want tasks o
    → Outcome waits cur want tasks (or_wait waits o)
unfolding Outcome
or_wait-Outcome waits cur want tasks (some (t, rest)) h = h
or_wait-Outcome true cur want tasks none h = (h, refl)
or_wait-Outcome false cur want tasks none h = (h, refl)

-- One look at the list of wait_task takes out the first dead child that is waited for and leaves the
-- others in their order; without one the caller waits when it has any child, also when none of
-- them is waited for, and gets -1 otherwise.
pub wait_check-Outcome :
    (cur : ℕ) (want : Option ℕ) (tasks : List Proc)
    → Outcome (has_child cur tasks) cur want tasks (wait_check cur want tasks)
unfolding wait_check
wait_check-Outcome cur want tasks =
    or_wait-Outcome (has_child cur tasks) cur want tasks (take_dead cur want tasks)
      (take_dead-Found cur want tasks)

-- wait_task_wnohang takes out the same child, and tells whether a child that is waited for is left.
pub wait_nohang-Outcome :
    (cur : ℕ) (want : Option ℕ) (tasks : List Proc)
    → Outcome (has_wanted cur want tasks) cur want tasks (wait_nohang cur want tasks)
unfolding wait_nohang
wait_nohang-Outcome cur want tasks =
    or_wait-Outcome (has_wanted cur want tasks) cur want tasks (take_dead cur want tasks)
      (take_dead-Found cur want tasks)
