-- ===== src/Process/Cap/Audit.antt =====
-- kernel/process/cap.c: the ring of decisions answers as the list of all decisions, newest first.
use char_os.Base.{
  ℕ, zero, suc, ◌-◌, ◌%◌, ◌^◌, ◌<◌, ◌≡◌, none, some, List, [], ◌∷◌, ◌==◌, ltb, if◌then◌else◌,
  update_here, update_away, length, get_elem?, get_elem?_past, arith, refl, ap, ◌∙◌,
}
use char_os.Process.Cap.{Entry, Ring, audit_len, cap_audit, cap_audit_read}

-- What is stored of a decision.
abbrev pub entry : ℕ → ℕ → Entry
entry cap granted = record { cap = cap; granted = if granted == 0 then 0 else 1 }

abbrev pub entries_of : List (ℕ × ℕ) → List Entry
entries_of [] = []
entries_of ((c, g) ∷ older) = entry c g ∷ entries_of older

length-entries_of : (log : List (ℕ × ℕ)) → length (entries_of log) ≡ length log
length-entries_of [] = refl
length-entries_of ((c, g) ∷ older) = ap suc (length-entries_of older)

-- The ring after these decisions, the newest first, from the one that the program starts with.
pub after : List (ℕ × ℕ) → Ring
after [] = record { entries = λ i. record { cap = 0; granted = 0 }; pos = 0 }
after ((c, g) ∷ older) = cap_audit (after older) c g

pos-after : (log : List (ℕ × ℕ)) → length log < 2 ^ 32 → (after log).pos ≡ length log
unfolding after cap_audit
pos-after [] h = refl
pos-after ((c, g) ∷ older) h = omega (arith, pos-after older (omega arith))

entries-after :
    (log : List (ℕ × ℕ)) (i : ℕ)
    → length log < 2 ^ 32
    → i < audit_len
    → i < length log
    → some ((after log).entries ((length log - 1 - i) % audit_len)) ≡ get_elem? (entries_of log) i
unfolding after cap_audit
entries-after [] i h lt in_log = absurd (omega arith)
entries-after ((c, g) ∷ older) zero h lt in_log = ap some (
    update_here (after older).entries ((after older).pos % audit_len) _ (entry c g)
      (ap (λ n. n % audit_len) (omega (arith, pos-after older (omega arith)))))
entries-after ((c, g) ∷ older) (suc i) h lt in_log =
    ap some (
      update_away (after older).entries ((after older).pos % audit_len) _ (entry c g)
        (omega (arith, pos-after older (omega arith))))
    ∙ ap (λ n. some ((after older).entries (n % audit_len))) (omega arith)
    ∙ entries-after older i (omega arith) (omega arith) (omega arith)

-- After fewer than 2 ^ 32 decisions, reading index `i` gives the i-th newest of them while `i` is
-- below sixteen and there are so many, and fails otherwise.
pub cap_audit_read-after :
    (log : List (ℕ × ℕ)) (i : ℕ)
    → length log < 2 ^ 32
    → cap_audit_read (after log) i
      ≡ (if ltb i audit_len then get_elem? (entries_of log) i else none)
unfolding cap_audit_read
cap_audit_read-after log i h = ground (
  arith,
  pos-after log h,
  entries-after log i h,
  get_elem?_past (entries_of log) i,
  length-entries_of log,
)
