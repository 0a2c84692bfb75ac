-- ===== src/Storage/Packages/Apply.antt =====
-- kernel/arch/x86_64/txn64.c: what is installed after a transaction of one package.
use char_os.Base.{
  ℕ, ◌<◌, ◌≡◌, ◌⊎◌, true, false, not, ◌&&◌, Option, none, some, List, [], ◌∷◌, update, update_here,
  take_all, length, arith, refl, ap, sym, ◌∙◌, subst, inl, inr, Option-cases, scan, scan-first,
  scan-some, scan-none, Found,
}
use char_os.Storage.Packages.{Package, Db, str_copy, str_eq, find, apply_install, put, max_db}

str_eq_self : (l : List ℕ) → str_eq l l ≡ true
str_eq_self [] = refl
str_eq_self (x ∷ xs) = ground (arith, str_eq_self xs)

-- Where a name is found after the entry `e` was written with it.
find-update :
    (db : Db) (name : List ℕ) (e : ℕ) (x : Package)
    → e < max_db
    → (x.used && str_eq x.name name) ≡ true
    → ((j : ℕ) → j < e → ((db j).used && str_eq (db j).name name) ≡ false)
    → find (update db e x) name ≡ some e
unfolding find
find-update db name e x lt fits none_before =
    scan-first (λ i. (update db e x i).used && str_eq (update db e x i).name name) 0 max_db e
      (record {
        from = omega arith;
        below = lt;
        passes = ground (arith, fits);
        first = λ j lo hi. ground (arith, none_before j);
      })

find-some :
    (db : Db) (name : List ℕ) (e : ℕ)
    → find db name ≡ some e
    → Found (λ i. (db i).used && str_eq (db i).name name) 0 max_db e
unfolding find
find-some db name e h = scan-some (λ i. (db i).used && str_eq (db i).name name) 0 max_db e h

find-none :
    (db : Db) (name : List ℕ) (j : ℕ)
    → find db name ≡ none
    → j < max_db
    → ((db j).used && str_eq (db j).name name) ≡ false
unfolding find
find-none db name j h lt =
    scan-none (λ i. (db i).used && str_eq (db i).name name) 0 max_db h j (omega arith) (omega arith)

abbrev Holds : Db → List ℕ → List ℕ → Type 0
Holds db name ver = (e : ℕ) × (find db name ≡ some e) × ((db e).ver ≡ ver)

put_old :
    (db : Db) (name ver : List ℕ) (e : ℕ) (free : Option ℕ)
    → length ver < 16
    → find db name ≡ some e
    → Holds (put db name ver (some e) free) name ver
put_old db name ver e free short there =
    let f = find-some db name e there in
    let x : Package = record (db e) { ver = str_copy 16 ver } in
    (
      e,
      find-update db name e x f.below f.passes (λ j lt. f.first j (omega arith) lt),
      ap Package.ver (update_here db e e x refl) ∙ take_all 15 ver (omega arith),
    )

put_new :
    (db : Db) (name ver : List ℕ) (i : ℕ)
    → length name < 32
    → length ver < 16
    → find db name ≡ none
    → i < max_db
    → Holds (put db name ver none (some i)) name ver
put_new db name ver i fits short new lt =
    let x : Package = record { used = true; name = str_copy 32 name; ver = str_copy 16 ver } in
    let same = ap (λ n. str_eq n name) (take_all 31 name (omega arith)) ∙ str_eq_self name in
    (
      i,
      find-update db name i x lt same (λ j below. find-none db name j new (omega arith)),
      ap Package.ver (update_here db i i x refl) ∙ take_all 15 ver (omega arith),
    )

-- Installing a package whose name and version fit their fields, over an older version or into a free
-- entry, is found afterwards with its version; with neither, all is left as it was.
pub apply_install-find :
    (db : Db) (name ver : List ℕ)
    → length name < 32
    → length ver < 16
    → let db' = apply_install db name ver in
      let free = scan (λ i. not (db i).used) 0 max_db in
      ((e : ℕ) × (find db' name ≡ some e) × ((db' e).ver ≡ ver))
      ⊎ ((find db name ≡ none) × (free ≡ none) × (db' ≡ db))
unfolding apply_install
apply_install-find db name ver fits short = elim (Option-cases (find db name)) [
  | inr (e, there) ↦ inl (
      subst (λ f. Holds (put db name ver f (scan (λ i. not (db i).used) 0 max_db)) name ver)
        (sym there) (put_old db name ver e (scan (λ i. not (db i).used) 0 max_db) short there))
  | inl new ↦ elim (Option-cases (scan (λ i. not (db i).used) 0 max_db)) [
    | inr (i, free) ↦
        let f = scan-some (λ i. not (db i).used) 0 max_db i free in
        inl (rw (new, free) (put_new db name ver i fits short new f.below))
    | inl full ↦ inr (new, full, rw (new, full) refl)
  ]
]
