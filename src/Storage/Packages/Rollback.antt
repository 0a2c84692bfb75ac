-- ===== src/Storage/Packages/Rollback.antt =====
-- kernel/arch/x86_64/txn64.c: giving up a transaction.
use char_os.Base.{
  ℕ, zero, suc, ◌+◌, ◌<◌, ◌≡◌, Bool, true, false, not, ◌&&◌, ◌||◌, ◌==◌, Option, none, some, List,
  [], ◌∷◌, leb, ltb, if◌then◌else◌, update, update_here, take, take_all, length, arith, refl, ap,
  sym, ◌∙◌, subst, inl, inr, Bool-cases, ltb→lt,
}
use char_os.Storage.Packages.{
  Package, Op, Db, Txn, find, is_some, ver_of, log, install, install_op, remove, put, drop_entry,
  apply_install, apply_remove, undo_op, undo_down, rollback, begin, log_remove, ended, max_ops,
}

-- An operation that was logged against the packages as they are.
pub record IsLogged (db : Db) (o : Op) : Type 0 where
  pub old : o.had_old ≡ is_some (find db o.name)
  pub oldver : o.oldver ≡ ver_of db (find db o.name)
  pub short : length o.oldver < 16
  pub removed : o.removes ≡ true → o.had_old ≡ true

-- The transaction is active only with operations that were logged against its packages.
pub record IsOpen (s : Txn) : Type 0 where
  pub active : s.active ≡ true
  pub logged : (i : ℕ) → i < s.nops → IsLogged s.db (s.ops i)

update_same : (db : Db) (e : ℕ) → update db e (db e) ≡ db
update_same db e = λ 𝕚 j. same j 𝕚
  where
    same : (j : ℕ) → update db e (db e) j ≡ db j
    same j = ground arith

put_same :
    (db : Db) (name ver : List ℕ) (found free : Option ℕ)
    → is_some found ≡ true
    → ver ≡ ver_of db found
    → length ver < 16
    → put db name ver found free ≡ db
put_same db name ver none free there same short = cc
put_same db name ver (some e) free there same short =
    ap (λ v. update db e (record (db e) { ver = v })) (take_all 15 ver (omega arith) ∙ same)
    ∙ update_same db e

apply_install-old :
    (db : Db) (o : Op) → IsLogged db o → o.had_old ≡ true → apply_install db o.name o.oldver ≡ db
unfolding apply_install
apply_install-old db o l old =
    put_same db o.name o.oldver (find db o.name) _ (sym l.old ∙ old) l.oldver l.short

drop_entry-none : (db : Db) (found : Option ℕ) → is_some found ≡ false → drop_entry db found ≡ db
drop_entry-none db none h = refl
drop_entry-none db (some e) h = cc

undo_op-IsLogged : (db : Db) (o : Op) → IsLogged db o → undo_op db o ≡ db
unfolding undo_op apply_remove
undo_op-IsLogged db o l = elim (Bool-cases o.had_old) [
  | inl old ↦ elim (Bool-cases o.removes) [
    | inl removes ↦ rw removes (apply_install-old db o l old)
    | inr installs ↦ rw (installs, old) (apply_install-old db o l old)
  ]
  | inr new ↦ elim (Bool-cases o.removes) [
    | inl removes ↦ cc (l.removed removes)
    | inr installs ↦ rw (installs, new) (drop_entry-none db (find db o.name) (sym l.old ∙ new))
  ]
]

undo_down-IsLogged :
    (n : ℕ) (db : Db) (ops : ℕ → Op)
    → ((i : ℕ) → i < n → IsLogged db (ops i))
    → undo_down db ops n ≡ db
unfolding undo_down
undo_down-IsLogged zero db ops l = refl
undo_down-IsLogged (suc n) db ops l =
    ap (λ d. undo_down d ops n) (undo_op-IsLogged db (ops n) (l n (omega arith)))
    ∙ undo_down-IsLogged n db ops (λ i lt. l i (omega arith))

-- Every version is short enough for its field.
pub record IsShort (db : Db) : Type 0 where
  pub versions : (i : ℕ) → length (db i).ver < 16

ver_of-short : (db : Db) (found : Option ℕ) → IsShort db → length (ver_of db found) < 16
ver_of-short db none v = omega arith
ver_of-short db (some e) v = v.versions e

log-IsOpen : (s : Txn) (o : Op) → IsOpen s → IsLogged s.db o → IsOpen (log s o)
log-IsOpen s o v l = record { active = v.active; logged = logged }
  where
    logged : (i : ℕ) → i < s.nops + 1 → IsLogged s.db (update s.ops s.nops o i)
    logged i lt = elim (Bool-cases (i == s.nops)) [
      | inl e ↦ rw e l
      | inr ne ↦ rw ne (v.logged i (ground arith))
    ]

install-IsOpen :
    (s : Txn) (name ver : List ℕ)
    → IsOpen s
    → IsShort s.db
    → length name < 32
    → IsOpen (install s name ver).0
unfolding install
install-IsOpen s name ver v short fits = elim (Bool-cases (not s.active || leb max_ops s.nops)) [
  | inl refused ↦ rw refused v
  | inr fine ↦
      let cut = take_all 31 name (omega arith) in
      let small = ver_of-short s.db (find s.db name) short in
      let whole = take_all 15 (ver_of s.db (find s.db name)) (omega (arith, small)) in
      rw fine (
        log-IsOpen s _ v (record {
          old = ap (λ n. is_some (find s.db n)) (sym cut);
          oldver = whole ∙ ap (λ n. ver_of s.db (find s.db n)) (sym cut);
          short = subst (λ l. length l < 16) (sym whole) small;
          removed = λ e. cc;
        }))
]

log_remove-IsOpen :
    (s : Txn) (name : List ℕ) (found : Option ℕ)
    → find s.db name ≡ found
    → IsOpen s
    → IsShort s.db
    → length name < 32
    → IsOpen (log_remove s name found).0
log_remove-IsOpen s name none e v short fits = v
log_remove-IsOpen s name (some k) e v short fits = elim (Bool-cases (leb max_ops s.nops)) [
  | inl refused ↦ rw refused v
  | inr fine ↦
      let cut = ap (find s.db) (take_all 31 name (omega arith)) ∙ e in
      let whole = take_all 15 (s.db k).ver (omega (arith, short.versions k)) in
      rw fine (
        log-IsOpen s _ v (record {
          old = ap is_some (sym cut);
          oldver = whole ∙ ap (ver_of s.db) (sym cut);
          short = subst (λ l. length l < 16) (sym whole) (short.versions k);
          removed = λ r. refl;
        }))
]

remove-IsOpen :
    (s : Txn) (name : List ℕ)
    → IsOpen s
    → IsShort s.db
    → length name < 32
    → IsOpen (remove s name).0
unfolding remove
remove-IsOpen s name v short fits =
    subst
      (λ a.
        IsOpen
          (if◌then◌else◌ {A = Txn × Option ℕ} (not a) (s, none)
            (log_remove s name (find s.db name))).0)
      (sym v.active) (log_remove-IsOpen s name (find s.db name) refl v short fits)

-- A request to install a version or to remove.
pub data Request : Type 0 where
  installs : List ℕ → List ℕ → Request
  uninstalls : List ℕ → Request

abbrev pub named : Request → List ℕ
named (installs name ver) = name
named (uninstalls name) = name

pub request : Txn → Request → Txn
unfolding install remove
request s (installs name ver) = (install s name ver).0
request s (uninstalls name) = (remove s name).0

pub requests : Txn → List Request → Txn
requests s [] = s
requests s (r ∷ rs) = requests (request s r) rs

unfoldable pub all_short : List Request → Bool
all_short [] = true
all_short (r ∷ rs) = ltb (length (named r)) 32 && all_short rs

install-db : (s : Txn) (name ver : List ℕ) → (install s name ver).0.db ≡ s.db
unfolding install
install-db s name ver = elim (Bool-cases (not s.active || leb max_ops s.nops)) [
  | inl refused ↦ rw refused refl
  | inr fine ↦ rw fine refl
]

log_remove-db : (s : Txn) (name : List ℕ) (found : Option ℕ) → (log_remove s name found).0.db ≡ s.db
log_remove-db s name none = refl
log_remove-db s name (some e) = elim (Bool-cases (leb max_ops s.nops)) [
  | inl refused ↦ rw refused refl
  | inr fine ↦ rw fine refl
]

remove-db : (s : Txn) (name : List ℕ) → (remove s name).0.db ≡ s.db
unfolding remove
remove-db s name = elim (Bool-cases (not s.active)) [
  | inl refused ↦ rw refused refl
  | inr fine ↦ rw fine (log_remove-db s name (find s.db name))
]

begin-IsOpen : (s : Txn) → s.active ≡ false → IsOpen (begin s).0 × ((begin s).0.db ≡ s.db)
unfolding begin
begin-IsOpen s idle =
    rw idle (record { active = refl; logged = λ i lt. absurd (omega arith) }, refl)

request-IsOpen :
    (s : Txn) (r : Request)
    → IsOpen s
    → IsShort s.db
    → length (named r) < 32
    → IsOpen (request s r) × ((request s r).db ≡ s.db)
unfolding request
request-IsOpen s (installs name ver) v short fits =
    (install-IsOpen s name ver v short fits, install-db s name ver)
request-IsOpen s (uninstalls name) v short fits =
    (remove-IsOpen s name v short fits, remove-db s name)

split_and : (a b : Bool) → (a && b) ≡ true → (a ≡ true) × (b ≡ true)
split_and a b h = ground arith

requests-IsOpen :
    (s : Txn) (rs : List Request)
    → IsOpen s
    → IsShort s.db
    → all_short rs ≡ true
    → IsOpen (requests s rs) × ((requests s rs).db ≡ s.db)
unfolding requests all_short
requests-IsOpen s [] v short fits = (v, refl)
requests-IsOpen s (r ∷ rs) v short fits =
    let (this, others) = split_and (ltb (length (named r)) 32) (all_short rs) fits in
    let (still, same) = request-IsOpen s r v short (ltb→lt _ _ this) in
    let (end, all) =
      requests-IsOpen (request s r) rs still (subst IsShort (sym same) short) others in
    (end, all ∙ same)

-- A transaction that installs and removes packages whose names have fewer than 32 characters, over
-- versions of fewer than 16, and that is given up, succeeds in that and leaves every package as it
-- was.
pub rollback-requests :
    (s : Txn) (rs : List Request)
    → s.active ≡ false
    → IsShort s.db
    → all_short rs ≡ true
    → let t = requests (begin s).0 rs in
      ((rollback t).1 ≡ some 0) × ((rollback t).0.db ≡ s.db) × ((rollback t).0.active ≡ false)
unfolding rollback
rollback-requests s rs idle short fits =
    let b = (begin s).0 in
    let started = begin-IsOpen s idle in
    let (v, same) = requests-IsOpen b rs started.0 (subst IsShort (sym started.1) short) fits in
    let t = requests b rs in
    rw v.active (refl, undo_down-IsLogged t.nops t.db t.ops v.logged ∙ same ∙ started.1, refl)

undo_op-new :
    (db : Db) (o : Op) (e : ℕ)
    → o.removes ≡ false
    → o.had_old ≡ false
    → find db o.name ≡ some e
    → undo_op db o ≡ drop_entry db (some e)
unfolding undo_op apply_remove
undo_op-new db o e kind new other = rw (kind, new) (ap (drop_entry db) other)

-- A name of 32 characters or more that is not installed but is the same as an installed one in its
-- first 31: installing it and giving that up removes the installed package.
pub rollback_removes_other :
    (s : Txn) (name ver : List ℕ) (e : ℕ)
    → s.active ≡ false
    → find s.db name ≡ none
    → find s.db (take 31 name) ≡ some e
    → let t = (install (begin s).0 name ver).0 in
      ((rollback t).1 ≡ some 0) × (((rollback t).0.db e).used ≡ false)
rollback_removes_other s name ver e idle new other =
    let o = install_op s.db name ver in
    let b : Txn = record s { nops = 0; active = true } in
    let start : (begin s).0 ≡ b =
      unfold begin in
      ap (λ a. (if◌then◌else◌ {A = Txn × Option ℕ} a (s, none) (b, some 0)).0) idle in
    let logs : (install b name ver).0 ≡ log b o = unfold install in refl in
    let undone : undo_op s.db o ≡ drop_entry s.db (some e) =
      undo_op-new s.db o e refl (ap is_some new) other in
    let result : rollback (log b o) ≡ (ended (log b o) (undo_op s.db o), some 0) =
      unfold rollback undo_down in refl in
    let all : rollback (install (begin s).0 name ver).0
        ≡ (ended (log b o) (drop_entry s.db (some e)), some 0) =
      ap (λ t. rollback (install t name ver).0) start
      ∙ ap rollback logs
      ∙ result
      ∙ ap (λ d. (ended (log b o) d, some 0)) undone in
    (
      ap (λ r. r.1) all,
      ap (λ r. (r.0.db e).used) all
          ∙ ap Package.used (update_here s.db e e (record (s.db e) { used = false }) refl),
    )
