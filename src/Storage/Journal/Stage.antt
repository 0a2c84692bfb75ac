-- ===== src/Storage/Journal/Stage.antt =====
-- kernel/arch/x86_64/journal64.c: beginning and giving up a transaction.
use char_os.Base.{ℕ, ◌≡◌, true, some, [], copy_zero, arith, refl}
use char_os.Storage.Journal.{Entry, Journal, begin, abort, unstaged}
use char_os.Storage.Journal.Slots.{IsPacked, item, none-IsPacked}
use char_os.Storage.Journal.Commit.{IsValid, replay, staged}

unstaged-IsPacked : (a : ℕ → Entry) → IsPacked (unstaged a) 0
unstaged-IsPacked a = none-IsPacked (unstaged a) (λ i h. ground arith)

-- Giving up a transaction leaves no trace of it: no call of the backend, the same entries for a
-- recovery, an empty stage, and the next transaction can begin.
pub abort-begin :
    (s : Journal)
    → s.active ≡ true
    → IsValid s
    → let t = (abort s).0 in
      IsValid t
      × (t.calls ≡ s.calls)
      × (replay t ≡ replay s)
      × (staged t ≡ [])
      × ((begin t).1 ≡ some 0)
      × (staged (begin t).0 ≡ [])
unfolding abort begin
abort-begin s running v = rw running (
  record { stage_packed = unstaged-IsPacked s.stage; committed_packed = v.committed_packed },
  refl,
  refl,
  copy_zero (λ k. item (unstaged s.stage k)) 0,
  refl,
  copy_zero (λ k. item (unstaged (unstaged s.stage) k)) 0,
)
