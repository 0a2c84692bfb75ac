-- ===== src/Storage/Depsolve/Tests.antt =====
-- kernel/arch/x86_64/depsolve64.c: concrete runs.
use char_os.Base.{ℕ, ◌≡◌, refl, ◌≤◌, arith, true, List, [], ◌∷◌}
use char_os.Storage.Repo.{same_string, vercmp, vercmp_from, number}
use char_os.Storage.Depsolve.{
  World, parse_dep, solve, solve_visit, visit_deps, deps_of, have_ver, find_meta, dep_satisfies,
  marked, solved, failed, cycle,
}
use char_os.Storage.Depsolve.Ordered.{IsOrdered}
use char_os.Storage.Depsolve.Solve.{solve-IsOrdered}

abbrev app : List ℕ
app = b'a' ∷ b'p' ∷ b'p' ∷ []

abbrev lib : List ℕ
lib = b'l' ∷ b'i' ∷ b'b' ∷ []

-- "app" 2 needs "lib>=1.2"; the version of "lib" is 1.10.
abbrev world : World
world = record {
  metas =
      record {
        name = app;
        ver = b'2' ∷ [];
        deps = (b'l' ∷ b'i' ∷ b'b' ∷ b'>' ∷ b'=' ∷ b'1' ∷ b'.' ∷ b'2' ∷ []) ∷ [];
      }
      ∷ record { name = lib; ver = b'1' ∷ b'.' ∷ b'1' ∷ b'0' ∷ []; deps = [] }
      ∷ [];
  repo = [];
}

abbrev looped : World
looped = record {
  metas =
      record { name = app; ver = b'2' ∷ []; deps = lib ∷ [] }
      ∷ record { name = lib; ver = b'1' ∷ []; deps = app ∷ [] }
      ∷ [];
  repo = [];
}

solve-app : solve world app 8 ≡ solved (lib ∷ app ∷ [])
unfolding solve solve_visit visit_deps deps_of have_ver find_meta same_string dep_satisfies vercmp
    vercmp_from number marked parse_dep
solve-app = refl

solve-looped : solve looped app 8 ≡ failed cycle
unfolding solve solve_visit visit_deps deps_of have_ver find_meta same_string dep_satisfies vercmp
    vercmp_from number marked parse_dep
solve-looped = refl

solve-IsOrdered_example :
    IsOrdered world (lib ∷ app ∷ []) × (marked (lib ∷ app ∷ []) app ≡ true) × (2 ≤ 8)
solve-IsOrdered_example = solve-IsOrdered world app 8 (lib ∷ app ∷ []) (omega arith) solve-app
