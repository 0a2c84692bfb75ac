-- ===== src/Storage/Journal/Recover.antt =====
-- kernel/arch/x86_64/journal64.c: replaying the kept entries, and what the disk holds then.
use mathlib.Core.List.{append_assoc, append-nil}
use char_os.Base.{
  ℕ, zero, suc, ◌+◌, ◌-◌, ◌≤◌, ◌<◌, ◌≡◌, true, false, not, Option, none, some, List, [], ◌∷◌, ◌++◌,
  ◌==◌, ltb, if◌then◌else◌, copy, copy_zero, length-copy, take_full, inl, inr, arith, refl, ap, ap₂,
  sym, ◌∙◌, Bool-cases, ltb→lt,
}
use char_os.Storage.Journal.{Journal, journal_max, backend_wr, commit, replay_from, recover}
use char_os.Storage.Journal.Slots.{IsPacked, item, items}
use char_os.Storage.Journal.Commit.{IsValid, replay, staged, commit-IsCommitted}

abbrev pub or_else : Option (List ℕ) → Option (List ℕ) → Option (List ℕ)
or_else (some x) y = some x
or_else none y = y

-- What the last write to a block left there.
abbrev pub latest : List (ℕ × List ℕ) → ℕ → Option (List ℕ)
latest [] b = none
latest (e ∷ l) b = or_else (latest l b) (if e.0 == b then some e.1 else none)

or_else_assoc : (x y z : Option (List ℕ)) → or_else (or_else x y) z ≡ or_else x (or_else y z)
or_else_assoc none y z = refl
or_else_assoc (some x) y z = refl

or_else-none : (x : Option (List ℕ)) → or_else x none ≡ x
or_else-none none = refl
or_else-none (some x) = refl

or_else-twice : (x : Option (List ℕ)) → or_else x x ≡ x
or_else-twice none = refl
or_else-twice (some x) = refl

latest-append :
    (l m : List (ℕ × List ℕ)) (b : ℕ) → latest (l ++ m) b ≡ or_else (latest m b) (latest l b)
latest-append [] m b = sym (or_else-none (latest m b))
latest-append (e ∷ l) m b =
    ap (λ x. or_else x (if e.0 == b then some e.1 else none)) (latest-append l m b)
    ∙ or_else_assoc (latest m b) (latest l b) (if e.0 == b then some e.1 else none)

-- The kept entries from slot `i` to slot `m`.
abbrev kept : Journal → ℕ → ℕ → List (ℕ × List ℕ)
kept s i m = copy (λ k. item (s.committed k)) i (m - i)

kept-none : (s : Journal) (i m : ℕ) → m ≤ i → kept s i m ≡ []
kept-none s i m h =
    ap (copy (λ k. item (s.committed k)) i) (omega arith) ∙ copy_zero (λ k. item (s.committed k)) i

kept-some : (s : Journal) (i m : ℕ) → i < m → kept s i m ≡ item (s.committed i) ∷ kept s (i + 1) m
unfolding copy
kept-some s i m h =
    let one_more : m - i ≡ suc (m - (i + 1)) = omega arith in
    ap (copy (λ k. item (s.committed k)) i) one_more

abbrev replayed : Journal → ℕ → Journal
replayed s i = record s { calls = s.calls ++ (item (s.committed i) ∷ []) }

replay_from-used :
    (s : Journal) (i n : ℕ)
    → (s.committed i).used ≡ true
    → s.has_backend ≡ true
    → replay_from s i (suc n) ≡ (let (t, k) = replay_from (replayed s i) (i + 1) n in (t, k + 1))
unfolding replay_from
replay_from-used s i n h b =
    ap
      (λ u.
        if◌then◌else◌ {A = Journal × ℕ} (not u) (replay_from s (i + 1) n)
          (let (t, k) = replay_from (backend_wr s (s.committed i)) (i + 1) n in (t, k + 1)))
      h
    ∙ ap (λ c. (let (t, k) = replay_from (if c then replayed s i else s) (i + 1) n in (t, k + 1))) b

replay_from-unused :
    (s : Journal) (i n : ℕ)
    → (s.committed i).used ≡ false
    → replay_from s i (suc n) ≡ replay_from s (i + 1) n
unfolding replay_from
replay_from-unused s i n h =
    ap
      (λ u.
        if◌then◌else◌ {A = Journal × ℕ} (not u) (replay_from s (i + 1) n)
          (let (t, k) = replay_from (backend_wr s (s.committed i)) (i + 1) n in (t, k + 1)))
      h

replay_from-calls :
    (n : ℕ) (s : Journal) (i m : ℕ)
    → i + n ≡ journal_max
    → s.has_backend ≡ true
    → IsPacked s.committed m
    → replay_from s i n ≡ (record s { calls = s.calls ++ kept s i m }, m - i)
replay_from-calls zero s i m e b v =
    unfold replay_from in
    ap₂ (λ l k. (record s { calls = l }, k))
      (sym (ap (λ l. s.calls ++ l) (kept-none s i m (omega (arith, v.small))) ∙ append-nil s.calls))
      (omega (arith, v.small))
replay_from-calls (suc n) s i m e b v = elim (Bool-cases (ltb i m)) [
  | inl more ↦
      replay_from-used s i n (ground (arith, v.used_iff i)) b
      ∙ ap (λ r. (r.0, r.1 + 1)) (replay_from-calls n (replayed s i) (i + 1) m (omega arith) b v)
      ∙ ap₂ (λ l k. (record s { calls = l }, k))
          (append_assoc s.calls (item (s.committed i) ∷ []) (kept s (i + 1) m)
            ∙ ap (λ l. s.calls ++ l) (sym (kept-some s i m (ltb→lt _ _ more))))
          (ground arith)
  | inr no_more ↦
      replay_from-unused s i n (ground (arith, v.used_iff i))
      ∙ replay_from-calls n s (i + 1) m (omega arith) b v
      ∙ ap₂ (λ l k. (record s { calls = s.calls ++ l }, k))
          (kept-none s (i + 1) m (ground arith) ∙ sym (kept-none s i m (ground arith)))
          (ground arith)
]

recover-calls :
    (s : Journal)
    → s.has_backend ≡ true
    → IsValid s
    → recover s ≡ (record s { calls = s.calls ++ replay s }, some s.ncommitted)
unfolding recover
recover-calls s b v =
    ap
      (λ c.
        if◌then◌else◌ {A = Journal × Option ℕ} (not c) (s, none)
          (let (t, k) = replay_from s 0 journal_max in (t, some k)))
      b
    ∙ ap (λ r. (r.0, some r.1))
        (replay_from-calls journal_max s 0 s.ncommitted (omega arith) b v.committed_packed)
    ∙ ap (λ m. (record s { calls = s.calls ++ items s.committed m }, some m)) (omega arith)

-- With a backend, recovering replays all kept entries and returns their number: a block that a kept
-- entry is of holds the last data kept for it, whatever was written there, and every other block is as
-- before.  Recovering once more, as after a failure, changes no block.
pub recover-latest :
    (s : Journal) (b : ℕ)
    → s.has_backend ≡ true
    → IsValid s
    → let (t, out) = recover s in
      (out ≡ some s.ncommitted)
      × (latest t.calls b ≡ or_else (latest (replay s) b) (latest s.calls b))
      × (latest (recover t).0.calls b ≡ latest t.calls b)
recover-latest s b connected v =
    let once = recover-calls s connected v in
    let t : Journal = record s { calls = s.calls ++ replay s } in
    let first = latest-append s.calls (replay s) b in
    let twice =
      recover-calls t connected
        (record { stage_packed = v.stage_packed; committed_packed = v.committed_packed }) in
    (
      ap (λ r. r.1) once,
      ap (λ r. latest r.0.calls b) once ∙ first,
      ap (λ r. latest (recover r.0).0.calls b) once
          ∙ ap (λ r. latest r.0.calls b) twice
          ∙ latest-append t.calls (replay s) b
          ∙ ap (or_else (latest (replay s) b)) first
          ∙ sym (or_else_assoc (latest (replay s) b) (latest (replay s) b) (latest s.calls b))
          ∙ ap (λ x. or_else x (latest s.calls b)) (or_else-twice (latest (replay s) b))
          ∙ sym (ap (λ r. latest r.0.calls b) once ∙ first),
    )

-- Once 32 entries are kept, a commit is not kept any more: a block that an older kept entry wrote, and
-- that the transaction wrote anew, holds the new data after the commit and the old data after a
-- recovery.
pub commit-recover_stale :
    (s : Journal) (b : ℕ) (old new : List ℕ)
    → s.active ≡ true
    → s.has_backend ≡ true
    → IsValid s
    → s.ncommitted ≡ journal_max
    → latest (staged s) b ≡ some new
    → latest (replay s) b ≡ some old
    → let t = (commit s).0 in
      (latest t.calls b ≡ some new) × (latest (recover t).0.calls b ≡ some old)
commit-recover_stale s b old new running connected v full written kept_old =
    let t = (commit s).0 in
    let c = commit-IsCommitted s running connected v in
    let unchanged : replay t ≡ replay s =
      c.replays
      ∙ take_full journal_max (replay s) (staged s)
          (length-copy (λ k. item (s.committed k)) 0 s.ncommitted ∙ full) in
    (
      ap (λ l. latest l b) c.calls
          ∙ latest-append s.calls (staged s) b
          ∙ ap (λ x. or_else x (latest s.calls b)) written,
      ap (λ r. latest r.0.calls b) (recover-calls t c.connected c.valid)
          ∙ latest-append t.calls (replay t) b
          ∙ ap (λ l. or_else (latest l b) (latest t.calls b)) unchanged
          ∙ ap (λ x. or_else x (latest t.calls b)) kept_old,
    )
