-- ===== src/Storage/Journal.antt =====
-- kernel/arch/x86_64/journal64.c: the write-ahead journal. A block's 1024 bytes are one list, which
-- the copying loops copy whole. The function that writes to the disk is set from outside: the calls
-- of it are kept in order in `calls`, each with its block and data.
pub mod Slots
pub mod Stage
pub mod Commit
pub mod Recover
mod Tests
use char_os.Base.{
  ℕ, zero, suc, ◌+◌, ◌-◌, ◌%◌, ◌^◌, Bool, true, false, not, ◌&&◌, Option, none, some, List, [], ◌∷◌,
  ◌++◌, ◌==◌, ltb, if◌then◌else◌, update, scan,
}

abbrev pub journal_max : ℕ
journal_max = 32

-- `struct journal64_entry`
pub record Entry : Type 0 where
  pub used : Bool
  pub block : ℕ
  pub bytes : List ℕ

pub record Journal : Type 0 where
  pub stage : ℕ → Entry
  pub committed : ℕ → Entry
  pub nstage : ℕ
  pub ncommitted : ℕ
  pub active : Bool
  pub sequence : ℕ
  pub has_backend : Bool
  pub calls : List (ℕ × List ℕ)

-- `for (i = 0; i < JOURNAL64_MAX; i++) journal64_stage[i].used = 0`
abbrev pub unstaged : (ℕ → Entry) → ℕ → Entry
unstaged stage i = if ltb i journal_max then record (stage i) { used = false } else stage i

-- `none` is a negative result: here -1, the transaction is in another one.
unfoldable pub begin : Journal → Journal × Option ℕ
begin s =
    if s.active
    then (s, none)
    else (record s { stage = unstaged s.stage; nstage = 0; active = true }, some 0)

pub data Written : Type 0 where
  -- 0
  stored : Written
  -- -1
  idle : Written
  -- -2
  full : Written

-- `journal64_write` of data that is not null.
unfoldable pub write : Journal → ℕ → List ℕ → Journal × Written
write s block bytes =
    if not s.active
    then (s, idle)
    else elim (scan (λ i. (s.stage i).used && ((s.stage i).block == block)) 0 journal_max) [
      | some i ↦
          (record s { stage = update s.stage i (record (s.stage i) { bytes = bytes }) }, stored)
      | none ↦ elim (scan (λ i. not (s.stage i).used) 0 journal_max) [
        | some i ↦ (
          record s {
            stage = update s.stage i (record { used = true; block = block; bytes = bytes });
            nstage = s.nstage + 1;
          },
          stored,
        )
        | none ↦ (s, full)
      ]
    ]

-- A null pointer takes the backend away.
abbrev pub set_backend : Journal → Bool → Journal
set_backend s is_set = record s { has_backend = is_set }

-- A call of the backend, if there is one.
abbrev pub backend_wr : Journal → Entry → Journal
backend_wr s e =
    if s.has_backend then record s { calls = s.calls ++ ((e.block, e.bytes) ∷ []) } else s

-- The copy of an entry that a recovery will replay.
unfoldable pub keep_copy : Journal → Entry → Journal
keep_copy s e =
    if ltb s.ncommitted journal_max
    then elim (scan (λ k. not (s.committed k).used) 0 journal_max) [
      | none ↦ s
      | some k ↦ record s {
        committed = update s.committed k (record { used = true; block = e.block; bytes = e.bytes });
        ncommitted = s.ncommitted + 1;
      }
    ]
    else s

-- One round of the loop of `journal64_commit`.
unfoldable pub commit_one : Journal → ℕ → Journal
unfolding keep_copy
commit_one s i =
    if not (s.stage i).used
    then s
    else (let t = keep_copy (backend_wr s (s.stage i)) (s.stage i) in
        record t { stage = update t.stage i (record (t.stage i) { used = false }) })

pub commit_from : Journal → ℕ → ℕ → Journal
unfolding commit_one
commit_from s i zero = s
commit_from s i (suc n) = commit_from (commit_one s i) (i + 1) n

abbrev pub finish : Journal → Journal
finish t = record t { nstage = 0; active = false; sequence = (t.sequence + 1) % 2 ^ 64 }

-- The low 32 bits of the sequence number, as an `int`; 0 or more here.
abbrev pub commit_result : Journal → Option ℕ
commit_result t = some ((finish t).sequence % 2 ^ 32)

unfoldable pub commit : Journal → Journal × Option ℕ
unfolding commit_from
commit s =
    if not s.active
    then (s, none)
    else (finish (commit_from s 0 journal_max), commit_result (commit_from s 0 journal_max))

unfoldable pub abort : Journal → Journal × Option ℕ
abort s =
    if not s.active
    then (s, none)
    else (record s { stage = unstaged s.stage; nstage = 0; active = false }, some 0)

-- The loop of `journal64_recover`: what was replayed and how much.
pub replay_from : Journal → ℕ → ℕ → Journal × ℕ
replay_from s i zero = (s, 0)
replay_from s i (suc n) =
    if not (s.committed i).used
    then replay_from s (i + 1) n
    else (let (t, k) = replay_from (backend_wr s (s.committed i)) (i + 1) n in (t, k + 1))

unfoldable pub recover : Journal → Journal × Option ℕ
unfolding replay_from
recover s =
    if not s.has_backend
    then (s, none)
    else (let (t, k) = replay_from s 0 journal_max in (t, some k))
