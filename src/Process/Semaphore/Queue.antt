-- ===== src/Process/Semaphore/Queue.antt =====
-- kernel/process/semaphore.c: a semaphore is a number and a queue.
use char_os.Base.{
  ℕ, zero, suc, ◌+◌, ◌-◌, ◌<◌, ◌≡◌, true, inl, inr, List, [], ◌∷◌, ◌++◌, ltb, leb, if◌then◌else◌,
  update, update_here, update_away, copy, copy-put, copy-cong, length-copy, length, arith, refl, ap,
  sym, ◌∙◌, Bool-cases, ltb→lt, nil_of_length,
}
use char_os.Process.Task.{TaskState, ready}
use char_os.Process.Semaphore.{
  Sem, Sys, Outcome, refused, done, sleeps, wait_max, wait_section, shift, post, destroy, wake_all,
}

-- The tasks in the queue, the first to wake first.
abbrev pub queue : Sem → List ℕ
queue m = copy m.wait_queue 0 m.wait_count

-- What a semaphore is to its users.
pub record Counter : Type 0 where
  pub value : ℕ
  pub waiting : List ℕ

abbrev pub counter : Sem → Counter
counter m = record { value = m.value; waiting = queue m }

-- Taking one, or lining up behind the others while there are fewer than sixteen.
unfoldable pub take_or_wait : Counter → ℕ → Counter × Outcome
take_or_wait c me =
    if ltb 0 c.value
    then (record c { value = c.value - 1 }, done)
    else if leb wait_max (length c.waiting)
    then (c, refused)
    else (record c { waiting = c.waiting ++ (me ∷ []) }, sleeps)

abbrev pub tail_of : List ℕ → List ℕ
tail_of [] = []
tail_of (t ∷ ts) = ts

-- Giving one back lets the first of the queue go.
abbrev pub give : Counter → Counter
give c = record { value = c.value + 1; waiting = tail_of c.waiting }

shift-below : (q : ℕ → ℕ) (i n k : ℕ) → k + 1 < i → shift q i n k ≡ q k
unfolding shift
shift-below q i zero k h = refl
shift-below q i (suc n) k h =
    shift-below (update q (i - 1) (q i)) (i + 1) n k (omega arith)
    ∙ update_away q (i - 1) k (q i) (omega arith)

pub shift-at : (q : ℕ → ℕ) (i n k : ℕ) → 0 < i → k < n → shift q i n (i - 1 + k) ≡ q (i + k)
unfolding shift
shift-at q i zero k pos h = absurd (omega arith)
shift-at q i (suc n) zero pos h =
    shift-below (update q (i - 1) (q i)) (i + 1) n (i - 1 + 0) (omega arith)
    ∙ update_here q (i - 1) (i - 1 + 0) (q i) (omega arith)
    ∙ ap q (omega arith)
shift-at q i (suc n) (suc k) pos h =
    let r = update q (i - 1) (q i) in
    ap (shift r (i + 1) n) (omega arith)
    ∙ shift-at r (i + 1) n k (omega arith) (omega arith)
    ∙ ap r (omega arith)
    ∙ update_away q (i - 1) (i + suc k) (q i) (omega arith)

-- Shifting drops the first of the queue.
copy-shift : (q : ℕ → ℕ) (n : ℕ) → 0 < n → copy q 0 n ≡ q 0 ∷ copy (shift q 1 (n - 1)) 0 (n - 1)
unfolding copy
copy-shift q zero pos = absurd (omega arith)
copy-shift q (suc n) pos =
    ap (λ l. q 0 ∷ l)
      (copy-cong q (shift q 1 n) 1 0 n (λ k h. sym (shift-at q 1 n k (omega arith) h))
        ∙ ap (λ k. copy (shift q 1 k) 0 k) (omega arith))

abbrev pub wake_first : (ℕ → TaskState) → List ℕ → ℕ → TaskState
wake_first tasks [] = tasks
wake_first tasks (t ∷ ts) = update tasks t ready

wait_section-counter :
    (s : Sys) (me : ℕ)
    → s.sem.valid ≡ true
    → ((counter (wait_section s me).0.sem, (wait_section s me).1) ≡ take_or_wait (counter s.sem) me)
unfolding wait_section take_or_wait
wait_section-counter s me alive = ground (
  arith,
  length-copy s.sem.wait_queue 0 s.sem.wait_count,
  copy-put s.sem.wait_queue s.sem.wait_count me,
)

post-counter :
    (s : Sys)
    → s.sem.valid ≡ true
    → (counter (post s).0.sem ≡ give (counter s.sem))
      × ((post s).0.tasks ≡ wake_first s.tasks (queue s.sem))
unfolding post
post-counter s alive = elim (Bool-cases (ltb 0 s.sem.wait_count)) [
  | inl some_wait ↦
      rw (some_wait, alive)
        (let first = copy-shift s.sem.wait_queue s.sem.wait_count (ltb→lt _ _ some_wait) in
          rw first (refl, refl))
  | inr none_wait ↦
      rw (none_wait, alive)
        (let nobody =
            nil_of_length (queue s.sem)
              (ground (arith, length-copy s.sem.wait_queue 0 s.sem.wait_count)) in
          rw nobody (refl, refl))
]

-- A semaphore that exists is a counter with a queue: a try takes one or joins the queue, or is
-- refused if it finds 0 and sixteen tasks waiting; a post gives one back and wakes the task at the
-- front of the queue and no other.
pub semaphore-counter :
    (s : Sys) (me : ℕ)
    → s.sem.valid ≡ true
    → ((counter (wait_section s me).0.sem, (wait_section s me).1) ≡ take_or_wait (counter s.sem) me)
      × (counter (post s).0.sem ≡ give (counter s.sem))
      × ((post s).0.tasks ≡ wake_first s.tasks (queue s.sem))
semaphore-counter s me alive =
    let (counts, wakes) = post-counter s alive in (wait_section-counter s me alive, counts, wakes)

-- A task that is ready stays so, also when it is woken again.
wake_all-ready :
    (tasks : ℕ → TaskState) (q : ℕ → ℕ) (i n x : ℕ)
    → tasks x ≡ ready
    → wake_all tasks q i n x ≡ ready
unfolding wake_all
wake_all-ready tasks q i zero x h = h
wake_all-ready tasks q i (suc n) x h =
    wake_all-ready (update tasks (q i) ready) q (i + 1) n x (ground (arith, h))

wake_all-wakes :
    (tasks : ℕ → TaskState) (q : ℕ → ℕ) (i n k : ℕ)
    → k < n
    → wake_all tasks q i n (q (i + k)) ≡ ready
unfolding wake_all
wake_all-wakes tasks q i zero k h = absurd (omega arith)
wake_all-wakes tasks q i (suc n) zero h =
    wake_all-ready (update tasks (q i) ready) q (i + 1) n (q (i + 0))
      (update_here tasks (q i) (q (i + 0)) ready (ap q (omega arith)))
wake_all-wakes tasks q i (suc n) (suc k) h =
    ap (λ j. wake_all (update tasks (q i) ready) q (i + 1) n (q j)) (omega arith)
    ∙ wake_all-wakes (update tasks (q i) ready) q (i + 1) n k (omega arith)

-- Destroying a semaphore makes every task in its queue ready, and each later try on it, also theirs,
-- is refused and changes nothing.
pub destroy-wakes :
    (s : Sys) (k me : ℕ)
    → s.sem.valid ≡ true
    → k < s.sem.wait_count
    → let (t, out) = destroy s in
      (out ≡ done) × (t.tasks (s.sem.wait_queue k) ≡ ready) × (wait_section t me ≡ (t, refused))
unfolding destroy wait_section
destroy-wakes s k me alive waits = rw alive (
  refl,
  ap (λ j. wake_all s.tasks s.sem.wait_queue 0 s.sem.wait_count (s.sem.wait_queue j)) (omega arith)
      ∙ wake_all-wakes s.tasks s.sem.wait_queue 0 s.sem.wait_count k waits,
  refl,
)
