-- ===== src/Storage/Packages.antt =====
-- kernel/arch/x86_64/txn64.c: installing and removing packages in a transaction. A string is the list
-- of its characters before the 0; what is copied into a field of `n` characters is cut to `n - 1`.
-- Arguments that are null are left out.
pub mod Rollback
pub mod Apply
mod Tests
use char_os.Base.{
  ℕ, zero, suc, ◌+◌, ◌-◌, Bool, true, false, not, ◌&&◌, ◌||◌, Option, none, some, List, [], ◌∷◌,
  ◌==◌, ltb, leb, if◌then◌else◌, update, scan, take,
}

abbrev pub max_ops : ℕ
max_ops = 64

abbrev pub max_db : ℕ
max_db = 128

-- `struct txn64_db_entry`
pub record Package : Type 0 where
  pub used : Bool
  pub name : List ℕ
  pub ver : List ℕ

-- `struct txn64_op`; `removes` is its kind.
pub record Op : Type 0 where
  pub removes : Bool
  pub name : List ℕ
  pub ver : List ℕ
  pub oldver : List ℕ
  pub had_old : Bool

abbrev pub Db : Type 0
Db = ℕ → Package

pub record Txn : Type 0 where
  pub db : Db
  pub ops : ℕ → Op
  pub nops : ℕ
  pub active : Bool

abbrev pub str_copy : ℕ → List ℕ → List ℕ
str_copy n s = take (n - 1) s

abbrev pub str_eq : List ℕ → List ℕ → Bool
str_eq [] [] = true
str_eq [] (y ∷ ys) = false
str_eq (x ∷ xs) [] = false
str_eq (x ∷ xs) (y ∷ ys) = (x == y) && str_eq xs ys

unfoldable pub find : Db → List ℕ → Option ℕ
find db name = scan (λ i. (db i).used && str_eq (db i).name name) 0 max_db

unfoldable pub begin : Txn → Txn × Option ℕ
begin s = if s.active then (s, none) else (record s { nops = 0; active = true }, some 0)

-- The version that `find` gives, or an empty one.
abbrev pub ver_of : Db → Option ℕ → List ℕ
ver_of db none = []
ver_of db (some e) = (db e).ver

abbrev pub is_some : Option ℕ → Bool
is_some none = false
is_some (some e) = true

abbrev pub log : Txn → Op → Txn
log s o = record s { ops = update s.ops s.nops o; nops = s.nops + 1 }

-- What `txn64_install` logs.
abbrev pub install_op : Db → List ℕ → List ℕ → Op
install_op db name ver = record {
  removes = false;
  name = str_copy 32 name;
  ver = str_copy 16 ver;
  oldver = str_copy 16 (ver_of db (find db name));
  had_old = is_some (find db name);
}

-- `none` is a negative result.
unfoldable pub install : Txn → List ℕ → List ℕ → Txn × Option ℕ
unfolding find
install s name ver =
    if not s.active || leb max_ops s.nops
    then (s, none)
    else (log s (install_op s.db name ver), some 0)

abbrev pub log_remove : Txn → List ℕ → Option ℕ → Txn × Option ℕ
log_remove s name none = (s, none)
log_remove s name (some e) = if leb max_ops s.nops then (s, none) else (
  log s (record {
    removes = true;
    name = str_copy 32 name;
    ver = str_copy 16 (s.db e).ver;
    oldver = str_copy 16 (s.db e).ver;
    had_old = true;
  }),
  some 0,
)

unfoldable pub remove : Txn → List ℕ → Txn × Option ℕ
unfolding find
remove s name = if not s.active then (s, none) else log_remove s name (find s.db name)

abbrev pub put : Db → List ℕ → List ℕ → Option ℕ → Option ℕ → Db
put db name ver (some e) free = update db e (record (db e) { ver = str_copy 16 ver })
put db name ver none (some i) =
    update db i (record { used = true; name = str_copy 32 name; ver = str_copy 16 ver })
put db name ver none none = db

-- With no free entry the package is dropped.
unfoldable pub apply_install : Db → List ℕ → List ℕ → Db
unfolding find
apply_install db name ver = put db name ver (find db name) (scan (λ i. not (db i).used) 0 max_db)

abbrev pub drop_entry : Db → Option ℕ → Db
drop_entry db none = db
drop_entry db (some e) = update db e (record (db e) { used = false })

unfoldable pub apply_remove : Db → List ℕ → Db
unfolding find
apply_remove db name = drop_entry db (find db name)

unfoldable pub apply_op : Db → Op → Db
unfolding apply_install apply_remove
apply_op db o = if o.removes then apply_remove db o.name else apply_install db o.name o.ver

pub apply_from : Db → (ℕ → Op) → ℕ → ℕ → Db
unfolding apply_op
apply_from db ops i zero = db
apply_from db ops i (suc n) = apply_from (apply_op db (ops i)) ops (i + 1) n

abbrev pub ended : Txn → Db → Txn
ended s db = record s { db = db; nops = 0; active = false }

unfoldable pub commit : Txn → Txn × Option ℕ
unfolding apply_from
commit s = if not s.active then (s, none) else (ended s (apply_from s.db s.ops 0 s.nops), some 0)

unfoldable pub undo_op : Db → Op → Db
unfolding apply_install apply_remove
undo_op db o =
    if o.removes
    then apply_install db o.name o.oldver
    else if o.had_old
    then apply_install db o.name o.oldver
    else apply_remove db o.name

-- From the operation before `n` down to the first.
pub undo_down : Db → (ℕ → Op) → ℕ → Db
unfolding undo_op
undo_down db ops zero = db
undo_down db ops (suc n) = undo_down (undo_op db (ops n)) ops n

unfoldable pub rollback : Txn → Txn × Option ℕ
unfolding undo_down
rollback s = if not s.active then (s, none) else (ended s (undo_down s.db s.ops s.nops), some 0)

-- `txn64_installed` with an output of `max` characters, where `max` is above 0.
unfoldable pub installed : Txn → List ℕ → ℕ → Option (List ℕ)
unfolding find
installed s name max = elim (find s.db name) [
  | none ↦ none
  | some e ↦ some (str_copy max (s.db e).ver)
]
