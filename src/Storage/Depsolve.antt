-- ===== src/Storage/Depsolve.antt =====
-- kernel/arch/x86_64/depsolve64.c: the order in which packages are installed.  A C string is the
-- list of its characters before the end mark; the repository index is repo64.c's.
use char_os.Base.{
  ℕ, zero, suc, ◌+◌, ◌-◌, Bool, true, false, not, ◌&&◌, ◌||◌, Option, none, some, List, [], ◌∷◌,
  ◌++◌, ◌==◌, ltb, leb, if◌then◌else◌, length, take, drop,
}
use char_os.Storage.Repo.{
  RepoEntry, same_string, Comparison, is_lower, is_higher, vercmp, repo_find,
}
pub mod Ordered
pub mod Solve
mod Tests

abbrev pub max_deps : ℕ
max_deps = 16

abbrev pub max_out : ℕ
max_out = 64

abbrev pub max_meta : ℕ
max_meta = 64

-- dep_str_copy into a buffer of `n` bytes.
abbrev pub dep_str_copy : ℕ → List ℕ → List ℕ
dep_str_copy n s = take (n - 1) s

-- An entry of depsolve64_meta; `deps` holds its first `ndeps` strings.
pub record Meta : Type 0 where
  pub name : List ℕ
  pub ver : List ℕ
  pub deps : List (List ℕ)

-- The comparison a dependency asks for.
pub data Relation : Type 0 where
  any : Relation
  at_least : Relation
  at_most : Relation
  above : Relation
  below : Relation
  exactly : Relation

-- struct depsolve64_dep
pub record Dep : Type 0 where
  pub name : List ℕ
  pub op : Relation
  pub ver : List ℕ

abbrev pub is_op : ℕ → Bool
is_op c = c == b'>' || c == b'<' || c == b'='

-- The name at the front, of `n` characters at most, and what comes after it.
abbrev pub split_name : ℕ → List ℕ → List ℕ × List ℕ
split_name zero s = ([], s)
split_name (suc n) [] = ([], [])
split_name (suc n) (c ∷ s) =
    let rest : List ℕ × List ℕ = split_name n s in
    if is_op c then ([], c ∷ s) else (c ∷ rest.0, rest.1)

-- The comparison at the front, and what comes after it.
abbrev pub split_op : List ℕ → Relation × List ℕ
split_op [] = (any, [])
split_op (c ∷ s) =
    if c == b'>'
    then split_equal at_least above s
    else if c == b'<'
    then split_equal at_most below s
    else if c == b'='
    then (exactly, s)
    else (any, c ∷ s)
  where
    split_equal : Relation → Relation → List ℕ → Relation × List ℕ
    split_equal with_equal without [] = (without, [])
    split_equal with_equal without (d ∷ s) = if d == b'=' then (with_equal, s) else (without, d ∷ s)

-- depsolve64_parse_dep, which refuses null pointers only.
unfoldable pub parse_dep : List ℕ → Dep
parse_dep s =
    let front : List ℕ × List ℕ = split_name 31 s in
    let back : Relation × List ℕ = split_op front.1 in
    record { name = front.0; op = back.0; ver = take 15 back.1 }

abbrev pub agrees : Relation → Comparison → Bool
agrees any c = true
agrees at_least c = not (is_lower c)
agrees at_most c = not (is_higher c)
agrees above c = is_higher c
agrees below c = is_lower c
agrees exactly c = not (is_lower c) && not (is_higher c)

unfoldable pub dep_satisfies : List ℕ → Relation → List ℕ → Bool
dep_satisfies have op want = length want == 0 || agrees op (vercmp have want)

-- The tables the solver reads.
pub record World : Type 0 where
  pub metas : List Meta
  pub repo : List RepoEntry

unfoldable pub find_meta : List Meta → List ℕ → Option Meta
find_meta [] name = none
find_meta (m ∷ metas) name = if same_string m.name name then some m else find_meta metas name

-- solve_marked over `solve_out`, solve_in_stack over `solve_stack`.
unfoldable pub marked : List (List ℕ) → List ℕ → Bool
marked [] name = false
marked (x ∷ out) name = same_string x name || marked out name

abbrev pub or_find : World → List ℕ → Option Meta → Option (List ℕ)
or_find w name (some m) = some m.ver
or_find w name none = repo_find w.repo name [] 16

-- solve_ver_of, or else the highest version of the repository.
unfoldable pub have_ver : World → List ℕ → Option (List ℕ)
have_ver w name = or_find w name (find_meta w.metas name)

abbrev pub deps_in : Option Meta → List (List ℕ)
deps_in none = []
deps_in (some m) = m.deps

unfoldable pub deps_of : World → List ℕ → List (List ℕ)
deps_of w name = deps_in (find_meta w.metas name)

-- What solve_visit returns: 0 with `solve_out`, -2, -3, -5 or -6.
pub data Visited : Type 0 where
  visited : List (List ℕ) → Visited
  cycle : Visited
  too_deep : Visited
  not_found : Visited
  conflict : Visited

-- The version of a dependency, checked before it is visited.
abbrev pub if_satisfied : Dep → Option (List ℕ) → Visited → Visited
if_satisfied d none v = not_found
if_satisfied d (some have) v = if dep_satisfies have d.op d.ver then v else conflict

abbrev pub and_then : Visited → (List (List ℕ) → Visited) → Visited
and_then (visited out) next = next out
and_then cycle next = cycle
and_then too_deep next = too_deep
and_then not_found next = not_found
and_then conflict next = conflict

-- The loop over the dependencies; `visit` is solve_visit one level deeper.
unfoldable pub visit_deps :
    (List ℕ → List (List ℕ) → Visited) → World → List (List ℕ) → List (List ℕ) → Visited
visit_deps visit w [] out = visited out
visit_deps visit w (s ∷ deps) out =
    let d = parse_dep s in
    if_satisfied d (have_ver w d.name) (and_then (visit d.name out) (visit_deps visit w deps))

-- The package itself, behind its dependencies.
abbrev pub finish : List ℕ → List (List ℕ) → Visited
finish name out =
    if leb max_out (length out) then too_deep else visited (out ++ (dep_str_copy 32 name ∷ []))

abbrev pub enter : List (List ℕ) → List ℕ → List (List ℕ) → Visited → Visited
enter stack name out inside =
    if marked out name then visited out else if marked stack name then cycle else inside

-- solve_visit, with `n` places left on the stack: it starts with 64, and none left is the test of
-- `solve_depth`.
unfoldable pub solve_visit : ℕ → World → List (List ℕ) → List ℕ → List (List ℕ) → Visited
solve_visit zero w stack name out = enter stack name out too_deep
solve_visit (suc n) w stack name out = enter stack name out (
    and_then
      (visit_deps (solve_visit n w (stack ++ (dep_str_copy 32 name ∷ []))) w (deps_of w name) out)
      (finish name))

-- What depsolve64_solve returns: the order, a failed visit, or -7 (-1 for no room at all).
pub data Solved : Type 0 where
  solved : List (List ℕ) → Solved
  failed : Visited → Solved
  too_many : Solved
  bad_call : Solved

abbrev pub solved_within : ℕ → Visited → Solved
solved_within max (visited out) = if ltb max (length out) then too_many else solved out
solved_within max cycle = failed cycle
solved_within max too_deep = failed too_deep
solved_within max not_found = failed not_found
solved_within max conflict = failed conflict

unfoldable pub solve : World → List ℕ → ℕ → Solved
solve w name max =
    if max == 0 then bad_call else solved_within max (solve_visit max_out w [] name [])

-- What depsolve64_add_meta returns: 0, -1 or -2.
pub data MetaAdded : Type 0 where
  recorded : List Meta → MetaAdded
  bad_count : MetaAdded
  meta_full : MetaAdded

abbrev pub copy_deps : List (List ℕ) → List (List ℕ)
copy_deps [] = []
copy_deps (d ∷ deps) = dep_str_copy 48 d ∷ copy_deps deps

-- A new description replaces the one of the same name.
abbrev pub replaced : List Meta → List ℕ → List ℕ → List (List ℕ) → Option (List Meta)
replaced [] name ver deps = none
replaced (m ∷ metas) name ver deps =
    if same_string m.name name
    then some (record m { ver = dep_str_copy 16 ver; deps = copy_deps deps } ∷ metas)
    else put_before m (replaced metas name ver deps)
  where
    put_before : Meta → Option (List Meta) → Option (List Meta)
    put_before m none = none
    put_before m (some metas) = some (m ∷ metas)

abbrev pub or_append : List Meta → List ℕ → List ℕ → List (List ℕ) → Option (List Meta) → MetaAdded
or_append metas name ver deps (some new) = recorded new
or_append metas name ver deps none =
    if leb max_meta (length metas)
    then meta_full
    else recorded (
        metas
        ++ (record { name = dep_str_copy 32 name; ver = dep_str_copy 16 ver; deps = copy_deps deps }
            ∷ []))

unfoldable pub add_meta : List Meta → List ℕ → List ℕ → List (List ℕ) → MetaAdded
add_meta metas name ver deps =
    if ltb max_deps (length deps)
    then bad_count
    else or_append metas name ver deps (replaced metas name ver deps)
