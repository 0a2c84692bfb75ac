-- ===== src/Storage/Journal/Tests.antt =====
-- Runs of the journal, and the theorems about it at concrete states.
use char_os.Base.{scan, ◌≡◌, some, true, false, [], ◌∷◌, ltb, update, refl, arith}
use char_os.Storage.Journal.{Entry, Journal, begin, write, commit, recover}
use char_os.Storage.Journal.Commit.{IsValid, replay, IsCommitted, commit-IsCommitted}
use char_os.Storage.Journal.Recover.{latest, or_else, recover-latest}

abbrev unused : Entry
unused = record { used = false; block = 0; bytes = [] }

abbrev blank : Journal
blank = record {
  stage = λ i. unused;
  committed = λ i. unused;
  nstage = 0;
  ncommitted = 0;
  active = false;
  sequence = 0;
  has_backend = true;
  calls = [];
}

-- Blocks 7 and 8 are staged.
abbrev open_two : Journal
open_two = record blank {
  stage =
      update (update (λ i. unused) 0 (record { used = true; block = 7; bytes = 1 ∷ [] })) 1
        (record { used = true; block = 8; bytes = 2 ∷ [] });
  nstage = 2;
  active = true;
}

writes_twice :
    (commit (write (write (write (begin blank).0 7 (5 ∷ [])).0 8 (2 ∷ [])).0 7 (1 ∷ [])).0).0.calls
    ≡ (7, 1 ∷ []) ∷ (8, 2 ∷ []) ∷ []
unfolding commit write begin scan
writes_twice = refl

open_two-IsValid : IsValid open_two
open_two-IsValid = record {
  stage_packed = record { small = omega arith; used_iff = λ i h. ground arith };
  committed_packed = record { small = omega arith; used_iff = λ i h. ground arith };
}

commit-IsCommitted_example : IsCommitted open_two (commit open_two).0
commit-IsCommitted_example = commit-IsCommitted open_two refl refl open_two-IsValid

-- One write was committed and kept, and block 7 was overwritten since.
abbrev kept_one : Journal
kept_one = record blank {
  committed = update (λ i. unused) 0 (record { used = true; block = 7; bytes = 1 ∷ [] });
  ncommitted = 1;
  calls = (7, 1 ∷ []) ∷ (7, 0 ∷ []) ∷ [];
}

kept_one-IsValid : IsValid kept_one
kept_one-IsValid = record {
  stage_packed = record { small = omega arith; used_iff = λ i h. ground arith };
  committed_packed = record { small = omega arith; used_iff = λ i h. ground arith };
}

recover-latest_example :
    let (t, out) = recover kept_one in
    (out ≡ some 1)
    × (latest t.calls 7 ≡ or_else (latest (replay kept_one) 7) (latest kept_one.calls 7))
    × (latest (recover t).0.calls 7 ≡ latest t.calls 7)
recover-latest_example = recover-latest kept_one 7 refl kept_one-IsValid

-- Thirty-two writes are kept, of the blocks 0 to 31, and block 7 is staged anew.
abbrev kept_many : Journal
kept_many = record blank {
  stage = update (λ i. unused) 0 (record { used = true; block = 7; bytes = 9 ∷ [] });
  nstage = 1;
  committed = λ i. record { used = ltb i 32; block = i; bytes = i ∷ [] };
  ncommitted = 32;
  active = true;
}

kept_many-IsValid : IsValid kept_many
kept_many-IsValid = record {
  stage_packed = record { small = omega arith; used_iff = λ i h. ground arith };
  committed_packed = record { small = omega arith; used_iff = λ i h. ground arith };
}
