-- ===== src/Process/Futex.antt =====
-- kernel/process/futex.c: waiting on the value of a user word, under one lock. Which addresses are
-- mapped (kernel/memory/paging.c) and the words there, while the lock is held, are the functions
-- `mapped` and `load`. A task is its `pid`, with its address space `cr3`.
pub mod Wake
mod Tests
use char_os.Base.{
  ℕ, zero, suc, ◌+◌, ◌-◌, ◌%◌, ◌^◌, Bool, true, false, not, ◌&&◌, ◌||◌, Option, none, some, ◌==◌,
  ltb, leb, if◌then◌else◌, update, scan, min,
}
use char_os.Process.Task.{TaskState, ready, blocked, set_ready}

abbrev pub futex_max : ℕ
futex_max = 16

-- `struct futex_slot`
pub record Slot : Type 0 where
  pub used : Bool
  pub uaddr : ℕ
  pub asid : ℕ
  pub waiter : Option ℕ

pub record Futexes : Type 0 where
  pub slots : ℕ → Slot
  pub on : Bool
  pub tasks : ℕ → TaskState

abbrev pub futex_init : (ℕ → TaskState) → Futexes
futex_init tasks = record {
  slots = λ i. record { used = false; uaddr = 0; asid = 0; waiter = none };
  on = true;
  tasks = tasks;
}

-- The caller sleeps in slot `i`.
abbrev pub sleep_in : Futexes → ℕ → ℕ → ℕ → Option ℕ → Futexes × Bool
sleep_in s me cr3 uaddr none = (s, false)
sleep_in s me cr3 uaddr (some i) = (
  record s {
    slots = update s.slots i (record { used = true; uaddr = uaddr; asid = cr3; waiter = some me });
    tasks = update s.tasks me blocked;
  },
  true,
)

abbrev pub is_val : Option ℕ → ℕ → Bool
is_val none val = false
is_val (some v) val = v == val

-- `futex_get_user`
unfoldable pub get_user : (ℕ → Bool) → (ℕ → ℕ) → ℕ → Option ℕ
get_user mapped load uaddr =
    if (uaddr == 0) || not (mapped uaddr) || not (mapped ((uaddr + 3) % 2 ^ 32))
    then none
    else some (load uaddr)

-- `futex_wait` of the task `me` up to its sleep: whether it sleeps, and returns 0 when woken; else it
-- returns -1.
unfoldable pub wait : (ℕ → Bool) → (ℕ → ℕ) → Futexes → ℕ → ℕ → ℕ → ℕ → Futexes × Bool
unfolding get_user
wait mapped load s me cr3 uaddr val =
    if not s.on || (uaddr == 0) || not (is_val (get_user mapped load uaddr) val)
    then (s, false)
    else sleep_in s me cr3 uaddr (scan (λ i. not (s.slots i).used) 0 futex_max)

abbrev pub is_some : Option ℕ → Bool
is_some none = false
is_some (some t) = true

-- The test on a slot in the loop of `futex_wake`.
abbrev pub waits_on : Futexes → ℕ → ℕ → ℕ → Bool
waits_on s uaddr asid i =
    (s.slots i).used
    && ((s.slots i).uaddr == uaddr)
    && ((s.slots i).asid == asid)
    && is_some (s.slots i).waiter

-- Waking the task in slot `i`, which empties the slot.
abbrev pub wake_slot : Futexes → ℕ → Futexes
wake_slot s i = record s {
  slots = update s.slots i (record (s.slots i) { waiter = none; used = false });
  tasks = set_ready (s.slots i).waiter s.tasks;
}

-- `for (; i < FUTEX_MAX && woken < n; i++)` with the rounds left.
pub wake_from : Futexes → ℕ → ℕ → ℕ → ℕ → ℕ → ℕ → Futexes × ℕ
wake_from s uaddr asid n woken i zero = (s, woken)
wake_from s uaddr asid n woken i (suc k) =
    let skip = wake_from s uaddr asid n woken (i + 1) k in
    let take_it = wake_from (wake_slot s i) uaddr asid n (woken + 1) (i + 1) k in
    if not (ltb woken n) then (s, woken) else if waits_on s uaddr asid i then take_it else skip

abbrev pub answered : Futexes × ℕ → Futexes × Option ℕ
answered r = (r.0, some r.1)

-- `futex_wake` in the address space `asid`; a count that is not above 0 gives `none`, which is -1.
unfoldable pub wake : Futexes → ℕ → ℕ → ℕ → Futexes × Option ℕ
unfolding wake_from
wake s uaddr asid n =
    if n == 0
    then (s, none)
    else if not s.on || (uaddr == 0)
    then (s, some 0)
    else answered (wake_from s uaddr asid (min n futex_max) 0 0 futex_max)
