-- ===== src/Storage/Journal/Commit.antt =====
-- kernel/arch/x86_64/journal64.c: committing a transaction.
use mathlib.Core.List.{append_assoc, append-nil}
use char_os.Base.{
  ℕ, zero, suc, ◌+◌, ◌-◌, ◌%◌, ◌^◌, ◌≤◌, ◌<◌, ◌≡◌, true, false, not, Option, none, List, [], ◌∷◌,
  ◌++◌, ltb, if◌then◌else◌, update, update_away, copy, copy-cong, copy_zero, length, length-copy,
  take, take_all, take_full, length-append, subst, inl, inr, arith, refl, ap, sym, ◌∙◌, Bool-cases,
  ltb→lt, take-append-take,
}
use char_os.Storage.Journal.{
  Entry, Journal, journal_max, backend_wr, keep_copy, commit_one, commit_from, commit, finish,
  commit_result,
}
use char_os.Storage.Journal.Slots.{
  IsPacked, item, items, scan_unused-room, fill-IsPacked, items-fill, none-IsPacked,
}

-- The entries that a recovery replays.
abbrev pub replay : Journal → List (ℕ × List ℕ)
replay s = items s.committed s.ncommitted

abbrev pub staged : Journal → List (ℕ × List ℕ)
staged s = items s.stage s.nstage

-- Both tables are packed.
pub record IsValid (s : Journal) : Type 0 where
  pub stage_packed : IsPacked s.stage s.nstage
  pub committed_packed : IsPacked s.committed s.ncommitted

keep_copy-room :
    (s : Journal) (e : Entry)
    → IsPacked s.committed s.ncommitted
    → s.ncommitted < journal_max
    → keep_copy s e ≡ record s {
      committed =
          update s.committed s.ncommitted
            (record { used = true; block = e.block; bytes = e.bytes });
      ncommitted = s.ncommitted + 1;
    }
unfolding keep_copy
keep_copy-room s e v room = rw (scan_unused-room s.committed s.ncommitted v room) (ground arith)

keep_copy-full : (s : Journal) (e : Entry) → journal_max ≤ s.ncommitted → keep_copy s e ≡ s
unfolding keep_copy
keep_copy-full s e h = ground arith

-- Keeping a copy adds it to what is replayed, up to 32 entries, and changes nothing else.
pub record Kept (s : Journal) (e : Entry) (t : Journal) : Type 0 where
  pub packed : IsPacked t.committed t.ncommitted
  pub adds : replay t ≡ take journal_max (replay s ++ (item e ∷ []))
  pub same_stage : t.stage ≡ s.stage
  pub same_calls : t.calls ≡ s.calls
  pub same_backend : t.has_backend ≡ s.has_backend
  pub same_sequence : t.sequence ≡ s.sequence

length-items : (a : ℕ → Entry) (n : ℕ) → length (items a n) ≡ n
length-items a n = length-copy (λ i. item (a i)) 0 n

keep_copy-Kept :
    (s : Journal) (e : Entry) → IsPacked s.committed s.ncommitted → Kept s e (keep_copy s e)
keep_copy-Kept s e v = elim (Bool-cases (ltb s.ncommitted journal_max)) [
  | inl room ↦ rw (keep_copy-room s e v (ltb→lt _ _ room)) (record {
    packed = fill-IsPacked s.committed s.ncommitted e.block e.bytes v (ltb→lt _ _ room);
    adds =
        items-fill s.committed s.ncommitted
          (record { used = true; block = e.block; bytes = e.bytes })
        ∙ sym (
            take_all journal_max (replay s ++ (item e ∷ [])) (
              ground (
                arith,
                length-append (replay s) (item e ∷ []),
                length-items s.committed s.ncommitted,
              )));
    same_stage = refl;
    same_calls = refl;
    same_backend = refl;
    same_sequence = refl;
  })
  | inr full ↦ rw (keep_copy-full s e (ground arith)) (record {
    packed = v;
    adds = sym (
        take_full journal_max (replay s) (item e ∷ [])
          (ground (arith, v.small, length-items s.committed s.ncommitted)));
    same_stage = refl;
    same_calls = refl;
    same_backend = refl;
    same_sequence = refl;
  })
]

-- The staged entries from slot `i` to slot `m`.
abbrev rest : Journal → ℕ → ℕ → List (ℕ × List ℕ)
rest s i m = copy (λ k. item (s.stage k)) i (m - i)

-- What the rounds from `i` on do to a stage whose slots below `m` are used, from `i` on.
pub record Committed (s : Journal) (i m : ℕ) (t : Journal) : Type 0 where
  pub packed : IsPacked t.committed t.ncommitted
  pub adds : replay t ≡ take journal_max (replay s ++ rest s i m)
  pub calls : t.calls ≡ s.calls ++ rest s i m
  pub cleared : (k : ℕ) → k < journal_max → (t.stage k).used ≡ false
  pub same_backend : t.has_backend ≡ s.has_backend
  pub same_sequence : t.sequence ≡ s.sequence

-- The slots below `i` are cleared, those from there on are used below `m`.
pub record IsPending (s : Journal) (i m : ℕ) : Type 0 where
  pub cleared : (k : ℕ) → k < i → (s.stage k).used ≡ false
  pub pending : (k : ℕ) → i ≤ k → k < journal_max → (s.stage k).used ≡ ltb k m

commit_one-unused : (s : Journal) (i : ℕ) → (s.stage i).used ≡ false → commit_one s i ≡ s
unfolding commit_one
commit_one-unused s i h = rw h refl

-- The journal after the backend is called for slot `i`, and a journal `k` with that slot cleared.
abbrev sent : Journal → ℕ → Journal
sent s i = record s { calls = s.calls ++ (item (s.stage i) ∷ []) }

abbrev emptied : Journal → ℕ → Journal
emptied k i = record k { stage = update k.stage i (record (k.stage i) { used = false }) }

commit_one-used :
    (s : Journal) (i : ℕ)
    → (s.stage i).used ≡ true
    → s.has_backend ≡ true
    → commit_one s i ≡ emptied (keep_copy (sent s i) (s.stage i)) i
unfolding commit_one
commit_one-used s i h b =
    ap (λ u. if not u then s else emptied (keep_copy (backend_wr s (s.stage i)) (s.stage i)) i) h
    ∙ ap (λ t. emptied (keep_copy (if t then sent s i else s) (s.stage i)) i) b

pub rest-none : (s : Journal) (i m : ℕ) → m ≤ i → rest s i m ≡ []
rest-none s i m h =
    ap (copy (λ k. item (s.stage k)) i) (omega arith) ∙ copy_zero (λ k. item (s.stage k)) i

rest-some : (s : Journal) (i m : ℕ) → i < m → rest s i m ≡ item (s.stage i) ∷ rest s (i + 1) m
unfolding copy
rest-some s i m h =
    let one_more : m - i ≡ suc (m - (i + 1)) = omega arith in
    ap (copy (λ k. item (s.stage k)) i) one_more

Committed-none :
    (s : Journal) (i m : ℕ)
    → m ≤ i
    → IsPacked s.committed s.ncommitted
    → ((k : ℕ) → k < journal_max → (s.stage k).used ≡ false)
    → Committed s i m s
Committed-none s i m h v none_used = record {
  packed = v;
  adds = sym (
      ap (λ l. take journal_max (replay s ++ l)) (rest-none s i m h)
      ∙ ap (take journal_max) (append-nil (replay s))
      ∙ take_all journal_max (replay s)
          (omega (arith, v.small, length-items s.committed s.ncommitted)));
  calls = sym (ap (λ l. s.calls ++ l) (rest-none s i m h) ∙ append-nil s.calls);
  cleared = none_used;
  same_backend = refl;
  same_sequence = refl;
}

Committed-skip : (s t : Journal) (i m : ℕ) → m ≤ i → Committed s (i + 1) m t → Committed s i m t
Committed-skip s t i m h c =
    let same = rest-none s (i + 1) m (omega arith) ∙ sym (rest-none s i m h) in
    record {
      packed = c.packed;
      adds = c.adds ∙ ap (λ l. take journal_max (replay s ++ l)) same;
      calls = c.calls ∙ ap (λ l. s.calls ++ l) same;
      cleared = c.cleared;
      same_backend = c.same_backend;
      same_sequence = c.same_sequence;
    }

rest-emptied :
    (s k : Journal) (i m : ℕ) → k.stage ≡ s.stage → rest (emptied k i) (i + 1) m ≡ rest s (i + 1) m
rest-emptied s k i m same =
    copy-cong (λ j. item ((emptied k i).stage j)) (λ j. item (s.stage j)) (i + 1) (i + 1)
      (m - (i + 1))
      (λ j h.
        ap item
          (update_away k.stage i (i + 1 + j) (record (k.stage i) { used = false }) (omega arith))
        ∙ ap (λ a. item (a (i + 1 + j))) same)

Committed-round :
    (s k t : Journal) (i m : ℕ)
    → i < m
    → Kept (sent s i) (s.stage i) k
    → Committed (emptied k i) (i + 1) m t
    → Committed s i m t
Committed-round s k t i m h kept c =
    let same = rest-emptied s k i m kept.same_stage in
    let first = item (s.stage i) ∷ [] in
    record {
      packed = c.packed;
      adds =
          c.adds
          ∙ ap (λ l. take journal_max (replay k ++ l)) same
          ∙ ap (λ l. take journal_max (l ++ rest s (i + 1) m)) kept.adds
          ∙ take-append-take journal_max (replay s ++ first) (rest s (i + 1) m)
          ∙ ap (take journal_max) (append_assoc (replay s) first (rest s (i + 1) m))
          ∙ ap (λ l. take journal_max (replay s ++ l)) (sym (rest-some s i m h));
      calls =
          c.calls
          ∙ ap (λ l. k.calls ++ l) same
          ∙ ap (λ l. l ++ rest s (i + 1) m) kept.same_calls
          ∙ append_assoc s.calls first (rest s (i + 1) m)
          ∙ ap (λ l. s.calls ++ l) (sym (rest-some s i m h));
      cleared = c.cleared;
      same_backend = c.same_backend ∙ kept.same_backend;
      same_sequence = c.same_sequence ∙ kept.same_sequence;
    }

IsPending-round :
    (s k : Journal) (i m : ℕ)
    → k.stage ≡ s.stage
    → IsPending s i m
    → IsPending (emptied k i) (i + 1) m
IsPending-round s k i m same p = record {
  cleared = λ j h. ground (arith, p.cleared j, ap (λ a. (a j).used) same);
  pending = λ j lo hi. ground (arith, p.pending j, ap (λ a. (a j).used) same);
}

IsPending-skip :
    (s : Journal) (i m : ℕ) → m ≤ i → i < journal_max → IsPending s i m → IsPending s (i + 1) m
IsPending-skip s i m h lt p = record {
  cleared = λ j below. ground (arith, p.cleared j, p.pending j);
  pending = λ j lo hi. p.pending j (omega arith) hi;
}

commit_from-Committed :
    (n : ℕ) (s : Journal) (i m : ℕ)
    → i + n ≡ journal_max
    → m ≤ journal_max
    → s.has_backend ≡ true
    → IsPacked s.committed s.ncommitted
    → IsPending s i m
    → Committed s i m (commit_from s i n)
unfolding commit_from
commit_from-Committed zero s i m e h b v p =
    Committed-none s i m (omega arith) v (λ k lt. p.cleared k (omega arith))
commit_from-Committed (suc n) s i m e h b v p = elim (Bool-cases (ltb i m)) [
  | inl some_left ↦
      let kept = keep_copy-Kept (sent s i) (s.stage i) v in
      let k = keep_copy (sent s i) (s.stage i) in
      rw (commit_one-used s i (ground (arith, p.pending i)) b) (
        Committed-round s k (commit_from (emptied k i) (i + 1) n) i m (ltb→lt _ _ some_left) kept (
          commit_from-Committed n (emptied k i) (i + 1) m (omega arith) h (kept.same_backend ∙ b)
            kept.packed (IsPending-round s k i m kept.same_stage p)))
  | inr none_left ↦ rw (commit_one-unused s i (ground (arith, p.pending i))) (
      Committed-skip s (commit_from s (i + 1) n) i m (ground arith) (
        commit_from-Committed n s (i + 1) m (omega arith) h b v
          (IsPending-skip s i m (ground arith) (omega arith) p)))
]

-- What a commit makes of a journal.
pub record IsCommitted (s t : Journal) : Type 0 where
  pub valid : IsValid t
  pub calls : t.calls ≡ s.calls ++ staged s
  pub replays : replay t ≡ take journal_max (replay s ++ staged s)
  pub emptied_stage : staged t ≡ []
  pub ended : t.active ≡ false
  pub counted : t.sequence ≡ (s.sequence + 1) % 2 ^ 64
  pub connected : t.has_backend ≡ true

commit-active :
    (s : Journal) → s.active ≡ true → finish (commit_from s 0 journal_max) ≡ (commit s).0
unfolding commit
commit-active s running =
    ap
      (λ a.
        (if◌then◌else◌ {A = Journal × Option ℕ} (not a) (s, none)
          (finish (commit_from s 0 journal_max), commit_result (commit_from s 0 journal_max))).0)
      (sym running)

finish-IsCommitted :
    (s t : Journal) → Committed s 0 s.nstage t → s.has_backend ≡ true → IsCommitted s (finish t)
finish-IsCommitted s t c b =
    let all : rest s 0 s.nstage ≡ staged s = ap (items s.stage) (omega arith) in
    record {
      valid = record {
        stage_packed = none-IsPacked t.stage c.cleared;
        committed_packed = c.packed;
      };
      calls = c.calls ∙ ap (λ l. s.calls ++ l) all;
      replays = c.adds ∙ ap (λ l. take journal_max (replay s ++ l)) all;
      emptied_stage = copy_zero (λ k. item (t.stage k)) 0;
      ended = refl;
      counted = ap (λ n. (n + 1) % 2 ^ 64) c.same_sequence;
      connected = c.same_backend ∙ b;
    }

-- Committing a transaction hands its writes to the disk in the order of their slots, keeps as many of
-- them for a recovery as 32 entries in all allow, and leaves an empty, inactive transaction.
pub commit-IsCommitted :
    (s : Journal) → s.active ≡ true → s.has_backend ≡ true → IsValid s → IsCommitted s (commit s).0
commit-IsCommitted s running b v =
    let start : IsPending s 0 s.nstage = record {
      cleared = λ k h. absurd (omega arith);
      pending = λ k lo hi. v.stage_packed.used_iff k hi;
    } in
    let c =
      commit_from-Committed journal_max s 0 s.nstage (omega arith) v.stage_packed.small b
        v.committed_packed start in
    subst (IsCommitted s) (commit-active s running)
      (finish-IsCommitted s (commit_from s 0 journal_max) c b)
