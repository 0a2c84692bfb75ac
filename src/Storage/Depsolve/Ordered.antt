-- ===== src/Storage/Depsolve/Ordered.antt =====
-- kernel/arch/x86_64/depsolve64.c: dependencies come before what needs them.
use mathlib.Core.List.{append_assoc, append-nil}
use char_os.Base.{
  ℕ, zero, suc, ◌≡◌, ◌≤◌, refl, ap, sym, ◌∙◌, subst, arith, Bool, true, false, ◌&&◌, ◌||◌, Option,
  none, some, List, [], ◌∷◌, ◌++◌, if◌then◌else◌, length,
}
use char_os.Storage.Repo.{same_string}
use char_os.Storage.Depsolve.{
  World, Dep, Visited, visited, cycle, too_deep, not_found, conflict, parse_dep, split_name, is_op,
  have_ver, dep_satisfies, marked, deps_of, if_satisfied, and_then, visit_deps,
}

-- Whether a dependency is met by a version that is known.
abbrev pub is_met : Dep → Option (List ℕ) → Bool
is_met d none = false
is_met d (some have) = dep_satisfies have d.op d.ver

-- Whether all dependencies are in the list and met.
unfoldable pub resolved : World → List (List ℕ) → List (List ℕ) → Bool
resolved w out [] = true
resolved w out (s ∷ deps) =
    marked out (parse_dep s).name
    && is_met (parse_dep s) (have_ver w (parse_dep s).name)
    && resolved w out deps

-- Every package stands behind its dependencies, and no package stands twice.
pub data IsOrdered (w : World) : List (List ℕ) → Type 0 where
  empty : IsOrdered w []
  behind :
      (out : List (List ℕ)) (name : List ℕ)
      → IsOrdered w out
      → marked out name ≡ false
      → resolved w out (deps_of w name) ≡ true
      → IsOrdered w (out ++ (name ∷ []))

same_string_self : (s : List ℕ) → same_string s s ≡ true
unfolding same_string
same_string_self [] = refl
same_string_self (c ∷ s) = ground (arith, same_string_self s)

or_true : (a b : Bool) → b ≡ true → (a || b) ≡ true
or_true a b e = ground arith

pub marked-append :
    (out ext : List (List ℕ)) (x : List ℕ) → marked out x ≡ true → marked (out ++ ext) x ≡ true
unfolding marked
marked-append [] ext x e = absurd (ground arith)
marked-append (y ∷ out) ext x e = ground (arith, marked-append out ext x)

pub marked_last : (out : List (List ℕ)) (x : List ℕ) → marked (out ++ (x ∷ [])) x ≡ true
unfolding marked
marked_last [] x = ap (λ b. b || false) (same_string_self x)
marked_last (y ∷ out) x = or_true (same_string y x) _ (marked_last out x)

resolved-append :
    (w : World) (out ext deps : List (List ℕ))
    → resolved w out deps ≡ true
    → resolved w (out ++ ext) deps ≡ true
unfolding resolved
resolved-append w out ext [] e = refl
resolved-append w out ext (s ∷ deps) e =
    ground (arith, marked-append out ext (parse_dep s).name, resolved-append w out ext deps)

split_name_short : (n : ℕ) (s : List ℕ) → length (split_name n s).0 ≤ n
split_name_short zero s = omega arith
split_name_short (suc n) [] = omega arith
split_name_short (suc n) (c ∷ s) = chosen (is_op c) (split_name n s) (split_name_short n s)
  where
    chosen :
        (b : Bool) (r : List ℕ × List ℕ)
        → length r.0 ≤ n
        → length (if◌then◌else◌ {A = List ℕ × List ℕ} b ([], c ∷ s) (c ∷ r.0, r.1)).0 ≤ suc n
    chosen true r h = omega arith
    chosen false r h = omega arith

short_name : (s : List ℕ) → length (parse_dep s).name ≤ 31
unfolding parse_dep
short_name s = split_name_short 31 s

-- What is on the stack is not put in the list.
abbrev pub Avoids : List (List ℕ) → List (List ℕ) → List (List ℕ) → Type 0
Avoids stack out new =
    (x : List ℕ) → marked stack x ≡ true → marked out x ≡ false → marked new x ≡ false

-- What a visit from `out` that succeeds gives.
pub record Extends (w : World) (stack out new : List (List ℕ)) : Type 0 where
  pub ordered : IsOrdered w new
  pub added : List (List ℕ)
  pub longer : new ≡ out ++ added
  pub avoids : Avoids stack out new

-- What is asked of a visit one level deeper.
abbrev pub Visits : World → List (List ℕ) → (List ℕ → List (List ℕ) → Visited) → Type 0
Visits w stack visit =
    (name : List ℕ) (out new : List (List ℕ))
    → length name ≤ 31
    → IsOrdered w out
    → visit name out ≡ visited new
    → Extends w stack out new × (marked new name ≡ true)

pub visited_eq : (a b : List (List ℕ)) → visited a ≡ visited b → a ≡ b
visited_eq a b e = ground arith

satisfied_split :
    (d : Dep) (o : Option (List ℕ)) (v : Visited) (new : List (List ℕ))
    → if_satisfied d o v ≡ visited new
    → (is_met d o ≡ true) × (v ≡ visited new)
satisfied_split d none v new e = absurd (ground arith)
satisfied_split d (some have) v new e = (ground arith, ground arith)

pub then_split :
    (v : Visited) (next : List (List ℕ) → Visited) (new : List (List ℕ))
    → and_then v next ≡ visited new
    → (mid : List (List ℕ)) × (v ≡ visited mid) × (next mid ≡ visited new)
then_split (visited mid) next new e = (mid, refl, e)
then_split cycle next new e = absurd (ground arith)
then_split too_deep next new e = absurd (ground arith)
then_split not_found next new e = absurd (ground arith)
then_split conflict next new e = absurd (ground arith)

pub Extends-trans :
    (w : World) (stack a b c : List (List ℕ))
    → Extends w stack a b
    → Extends w stack b c
    → Extends w stack a c
Extends-trans w stack a b c h k = record {
  ordered = k.ordered;
  added = h.added ++ k.added;
  longer = k.longer ∙ ap (λ l. l ++ k.added) h.longer ∙ append_assoc a h.added k.added;
  avoids = λ x on fresh. k.avoids x on (h.avoids x on fresh);
}

pub Extends-refl :
    (w : World) (stack a b : List (List ℕ)) → IsOrdered w a → a ≡ b → Extends w stack a b
Extends-refl w stack a b h e = record {
  ordered = subst (IsOrdered w) e h;
  added = [];
  longer = sym e ∙ sym (append-nil a);
  avoids = λ x on fresh. subst (λ l. marked l x ≡ false) e fresh;
}

pub all_three : (a b c : Bool) → a ≡ true → b ≡ true → c ≡ true → (a && b && c) ≡ true
all_three a b c p q r = ground arith

-- The loop over the dependencies.
pub deps-Extends :
    (w : World) (stack : List (List ℕ)) (visit : List ℕ → List (List ℕ) → Visited)
    → Visits w stack visit
    → (deps out new : List (List ℕ)) → IsOrdered w out
    → visit_deps visit w deps out ≡ visited new
    → Extends w stack out new × (resolved w new deps ≡ true)
unfolding visit_deps resolved
deps-Extends w stack visit h [] out new ordered e =
    (Extends-refl w stack out new ordered (visited_eq out new e), refl)
deps-Extends w stack visit h (s ∷ deps) out new ordered e =
    let d = parse_dep s in
    let (met, e1) =
      satisfied_split d (have_ver w d.name) (and_then (visit d.name out) (visit_deps visit w deps))
        new e in
    let (mid, e2, e3) = then_split (visit d.name out) (visit_deps visit w deps) new e1 in
    let (first, marks) = h d.name out mid (short_name s) ordered e2 in
    let (after, rest) = deps-Extends w stack visit h deps mid new first.ordered e3 in
    let there : marked new d.name ≡ true =
      subst (λ l. marked l d.name ≡ true) (sym after.longer)
        (marked-append mid after.added d.name marks) in
    (Extends-trans w stack out mid new first after, all_three _ _ _ there met rest)
