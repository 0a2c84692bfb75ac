-- ===== src/Process/Futex/Wake.antt =====
-- kernel/process/futex.c: how many a wake wakes, and whom.
use char_os.Base.{
  ℕ, zero, suc, ◌+◌, ◌-◌, ◌≤◌, ◌<◌, ◌≡◌, min, Bool, true, false, not, ◌||◌, Option, none, some,
  ◌==◌, ltb, if◌then◌else◌, update_away, arith, refl, ap, ◌∙◌, inl, inr, Bool-cases,
}
use char_os.Process.Task.{TaskState, ready, running, blocked, dead, set_ready}
use char_os.Process.Futex.{Slot, Futexes, futex_max, waits_on, wake_slot, wake_from, answered, wake}

-- How many of the `k` slots from `i` on hold a task that waits on the word.
unfoldable pub waiting : Futexes → ℕ → ℕ → ℕ → ℕ → ℕ
waiting s uaddr asid i zero = 0
waiting s uaddr asid i (suc k) =
    (if waits_on s uaddr asid i then 1 else 0) + waiting s uaddr asid (i + 1) k

-- Waking a slot does not show in the slots behind it.
waiting-wake_slot :
    (s : Futexes) (uaddr asid j i k : ℕ)
    → j < i
    → waiting (wake_slot s j) uaddr asid i k ≡ waiting s uaddr asid i k
unfolding waiting
waiting-wake_slot s uaddr asid j i zero h = refl
waiting-wake_slot s uaddr asid j i (suc k) h =
    ground (arith, waiting-wake_slot s uaddr asid j (i + 1) k)

waiting-bound : (s : Futexes) (uaddr asid i k : ℕ) → waiting s uaddr asid i k ≤ k
unfolding waiting
waiting-bound s uaddr asid i zero = omega arith
waiting-bound s uaddr asid i (suc k) = ground (arith, waiting-bound s uaddr asid (i + 1) k)

abbrev pub is_ready : TaskState → Bool
is_ready ready = true
is_ready running = false
is_ready blocked = false
is_ready dead = false

abbrev pub ready_in : Option ℕ → (ℕ → TaskState) → Bool
ready_in none tasks = true
ready_in (some t) tasks = is_ready (tasks t)

-- If slot `j` held a task that waits on the word and does not any more, then its task is ready.
abbrev pub roused : Futexes → Futexes → ℕ → ℕ → ℕ → Bool
roused s t uaddr asid j =
    not (waits_on s uaddr asid j) || waits_on t uaddr asid j || ready_in (s.slots j).waiter t.tasks

set_ready-keeps :
    (w : Option ℕ) (tasks : ℕ → TaskState) (x : ℕ)
    → is_ready (tasks x) ≡ true
    → is_ready (set_ready w tasks x) ≡ true
set_ready-keeps none tasks x h = h
set_ready-keeps (some t) tasks x h = ground (arith, h)

set_ready-readies :
    (w : Option ℕ) (tasks later : ℕ → TaskState)
    → ((x : ℕ) → is_ready (set_ready w tasks x) ≡ true → is_ready (later x) ≡ true)
    → ready_in w later ≡ true
set_ready-readies none tasks later h = refl
set_ready-readies (some t) tasks later h = h t (ground arith)

-- What the rounds from `i` on come to.
record Woken (s : Futexes) (uaddr asid n woken i k : ℕ) (r : Futexes × ℕ) : Type 0 where
  count : r.1 ≡ woken + min (n - woken) (waiting s uaddr asid i k)
  before : (j : ℕ) → j < i → r.0.slots j ≡ s.slots j
  left : waiting r.0 uaddr asid i k + r.1 ≡ waiting s uaddr asid i k + woken
  stays : (x : ℕ) → is_ready (s.tasks x) ≡ true → is_ready (r.0.tasks x) ≡ true
  rouses : (j : ℕ) → j < i + k → roused s r.0 uaddr asid j ≡ true

-- A slot that is as before rouses nobody.
roused-same :
    (s t : Futexes) (uaddr asid j : ℕ) → t.slots j ≡ s.slots j → roused s t uaddr asid j ≡ true
roused-same s t uaddr asid j e = ground (arith, e)

-- The round that wakes slot `i`, and the rounds behind it.
roused-wake_slot :
    (s r : Futexes) (uaddr asid i j : ℕ)
    → r.slots i ≡ (wake_slot s i).slots i
    → ((x : ℕ) → is_ready ((wake_slot s i).tasks x) ≡ true → is_ready (r.tasks x) ≡ true)
    → roused (wake_slot s i) r uaddr asid j ≡ true
    → roused s r uaddr asid j ≡ true
roused-wake_slot s r uaddr asid i j same stays rest = elim (Bool-cases (j == i)) [
  | inl here ↦
      let e : j ≡ i = ground arith in
      let on : ready_in (s.slots i).waiter r.tasks ≡ true =
        set_ready-readies (s.slots i).waiter s.tasks r.tasks stays in
      rw e (ground (arith, on))
  | inr other ↦ ground (arith, rest)
]

wake_from-Woken :
    (k : ℕ) (s : Futexes) (uaddr asid n woken i : ℕ)
    → Woken s uaddr asid n woken i k (wake_from s uaddr asid n woken i k)
unfolding wake_from waiting
wake_from-Woken zero s uaddr asid n woken i = record {
  count = omega arith;
  before = λ j h. refl;
  left = refl;
  stays = λ x h. h;
  rouses = λ j h. roused-same s s uaddr asid j refl;
}
wake_from-Woken (suc k) s uaddr asid n woken i = elim (Bool-cases (ltb woken n)) [
  | inr enough ↦ rw enough (record {
    count = ground arith;
    before = λ j h. refl;
    left = refl;
    stays = λ x h. h;
    rouses = λ j h. roused-same s s uaddr asid j refl;
  })
  | inl more ↦ elim (Bool-cases (waits_on s uaddr asid i)) [
    | inl this ↦
        let w = wake_from-Woken k (wake_slot s i) uaddr asid n (woken + 1) (i + 1) in
        rw (more, this)
          (record {
            count = ground (arith, w.count, waiting-wake_slot s uaddr asid i (i + 1) k);
            before = λ j h. w.before j (omega arith) ∙ update_away s.slots i j _ (omega arith);
            left = ground (
              arith,
              w.left,
              waiting-wake_slot s uaddr asid i (i + 1) k,
              ap Slot.used (w.before i (omega arith)),
            );
            stays = λ x h. w.stays x (set_ready-keeps (s.slots i).waiter s.tasks x h);
            rouses = λ j h.
                roused-wake_slot s (wake_from (wake_slot s i) uaddr asid n (woken + 1) (i + 1) k).0
                  uaddr asid i j (w.before i (omega arith)) w.stays (w.rouses j (omega arith));
          })
    | inr other ↦
        let w = wake_from-Woken k s uaddr asid n woken (i + 1) in
        rw (more, other)
          (record {
            count = ground (arith, w.count);
            before = λ j h. w.before j (omega arith);
            left = ground (arith, w.left, w.before i (omega arith));
            stays = w.stays;
            rouses = λ j h. w.rouses j (omega arith);
          })
  ]
]

wake-loop :
    (s : Futexes) (uaddr asid n : ℕ)
    → s.on ≡ true
    → 0 < uaddr
    → 0 < n
    → wake s uaddr asid n ≡ answered (wake_from s uaddr asid (min n futex_max) 0 0 futex_max)
unfolding wake
wake-loop s uaddr asid n on pos some_asked =
    guarded (n == 0) (not s.on || (uaddr == 0)) (ground arith) (ground arith)
  where
    guarded :
        (none_asked off : Bool)
        → none_asked ≡ false
        → off ≡ false
        → (if◌then◌else◌ {A = Futexes × Option ℕ} none_asked
            (s, none)
            (if off
              then (s, some 0)
              else answered (wake_from s uaddr asid (min n futex_max) 0 0 futex_max)))
          ≡ answered (wake_from s uaddr asid (min n futex_max) 0 0 futex_max)
    guarded true off e f = cc
    guarded false true e f = cc
    guarded false false e f = refl

-- A wake of at least one, on a word that is not null, wakes as many tasks as it is asked to or as
-- wait on the word in the address space: it returns this number, so many fewer wait on the word then,
-- and each task in a slot that no longer waits on it is ready.
pub wake-count :
    (s : Futexes) (uaddr asid n j : ℕ)
    → s.on ≡ true
    → 0 < uaddr
    → 0 < n
    → j < futex_max
    → let (t, out) = wake s uaddr asid n in
      let all = waiting s uaddr asid 0 futex_max in
      (out ≡ some (min n all))
      × (waiting t uaddr asid 0 futex_max ≡ all - min n all)
      × (roused s t uaddr asid j ≡ true)
wake-count s uaddr asid n j on pos some_asked slot =
    let w = wake_from-Woken futex_max s uaddr asid (min n futex_max) 0 0 in
    let bound = waiting-bound s uaddr asid 0 futex_max in
    rw (wake-loop s uaddr asid n on pos some_asked)
      (ap some (omega (arith, w.count)), omega (arith, w.count, w.left), w.rouses j (omega arith))
