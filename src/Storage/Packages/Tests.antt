-- ===== src/Storage/Packages/Tests.antt =====
-- Runs of transactions, and the theorems about them at concrete packages.
use char_os.Base.{ℕ, zero, suc, ◌≡◌, true, false, some, List, [], ◌∷◌, update, scan, refl, arith}
use char_os.Storage.Packages.{
  Package, Txn, find, begin, install, commit, rollback, installed, apply_install, apply_op,
}
use char_os.Storage.Packages.Rollback.{
  IsShort, Request, installs, uninstalls, requests, all_short, rollback-requests,
}

abbrev nothing : Package
nothing = record { used = false; name = []; ver = [] }

-- Package `a` in version `1`.
abbrev one : Txn
one = record {
  db = update (λ i. nothing) 0 (record { used = true; name = b'a' ∷ []; ver = b'1' ∷ [] });
  ops = λ i. record { removes = false; name = []; ver = []; oldver = []; had_old = false };
  nops = 0;
  active = false;
}

upgrades :
    installed (commit (install (begin one).0 (b'a' ∷ []) (b'2' ∷ [])).0).0 (b'a' ∷ []) 16
    ≡ some (b'2' ∷ [])
unfolding installed commit install begin find apply_install apply_op scan
upgrades = refl

one-IsShort : IsShort one.db
one-IsShort = record { versions = λ i. ground arith }

abbrev script : List Request
script =
    installs (b'a' ∷ []) (b'2' ∷ [])
    ∷ installs (b'b' ∷ []) (b'1' ∷ [])
    ∷ uninstalls (b'a' ∷ [])
    ∷ []

rollback-requests_example :
    let t = requests (begin one).0 script in
    ((rollback t).1 ≡ some 0) × ((rollback t).0.db ≡ one.db) × ((rollback t).0.active ≡ false)
rollback-requests_example = rollback-requests one script refl one-IsShort (unfold all_short in refl)

abbrev repeated : ℕ → List ℕ
repeated zero = []
repeated (suc n) = b'x' ∷ repeated n

-- A package whose name has 31 characters.
abbrev long : Txn
long = record one {
  db = update (λ i. nothing) 0 (record { used = true; name = repeated 31; ver = b'1' ∷ [] });
}
