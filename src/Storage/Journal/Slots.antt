-- ===== src/Storage/Journal/Slots.antt =====
-- kernel/arch/x86_64/journal64.c: tables whose used slots stand before the unused ones.
use char_os.Base.{
  ℕ, ◌+◌, ◌≤◌, ◌<◌, ◌≡◌, true, false, not, none, some, List, [], ◌∷◌, ◌++◌, ltb, update, scan,
  scan-first, scan_all_fail, copy, copy-put, copy-cong, arith, ◌∙◌,
}
use char_os.Storage.Journal.{Entry, journal_max}

-- The first `n` of the 32 slots are used, and no other.
pub record IsPacked (a : ℕ → Entry) (n : ℕ) : Type 0 where
  pub small : n ≤ journal_max
  pub used_iff : (i : ℕ) → i < journal_max → (a i).used ≡ ltb i n

abbrev pub item : Entry → ℕ × List ℕ
item e = (e.block, e.bytes)

-- What the first `n` slots hold.
abbrev pub items : (ℕ → Entry) → ℕ → List (ℕ × List ℕ)
items a n = copy (λ i. item (a i)) 0 n

-- The first unused slot is the one after the used ones.
pub scan_unused-room :
    (a : ℕ → Entry) (n : ℕ)
    → IsPacked a n
    → n < journal_max
    → scan (λ k. not (a k).used) 0 journal_max ≡ some n
scan_unused-room a n v room =
    scan-first (λ k. not (a k).used) 0 journal_max n
      (record {
        from = omega arith;
        below = room;
        passes = ground (arith, v.used_iff n);
        first = λ j lo hi. ground (arith, v.used_iff j);
      })

pub scan_unused-full :
    (a : ℕ → Entry) → IsPacked a journal_max → scan (λ k. not (a k).used) 0 journal_max ≡ none
scan_unused-full a v =
    scan_all_fail (λ k. not (a k).used) 0 journal_max (λ j lo hi. ground (arith, v.used_iff j))

-- Filling the slot after the used ones.
pub fill-IsPacked :
    (a : ℕ → Entry) (n block : ℕ) (bytes : List ℕ)
    → IsPacked a n
    → n < journal_max
    → IsPacked (update a n (record { used = true; block = block; bytes = bytes })) (n + 1)
fill-IsPacked a n block bytes v room = record {
  small = omega arith;
  used_iff = λ i h. ground (arith, v.used_iff i);
}

pub items-fill :
    (a : ℕ → Entry) (n : ℕ) (e : Entry) → items (update a n e) (n + 1) ≡ items a n ++ (item e ∷ [])
items-fill a n e =
    copy-cong (λ i. item (update a n e i)) (update (λ i. item (a i)) n (item e)) 0 0 (n + 1)
      (λ k h. ground arith)
    ∙ copy-put (λ i. item (a i)) n (item e)

-- A table with no used slot.
pub none-IsPacked :
    (a : ℕ → Entry) → ((i : ℕ) → i < journal_max → (a i).used ≡ false) → IsPacked a 0
none-IsPacked a h = record { small = omega arith; used_iff = λ i lt. ground (arith, h i) }
