-- ===== src/Storage/Depsolve/Solve.antt =====
-- kernel/arch/x86_64/depsolve64.c: the order that the solver gives.
use mathlib.Core.List.{append_assoc}
use char_os.Base.{
  ℕ, zero, suc, ◌≡◌, ◌≤◌, refl, ap, ap₂, sym, ◌∙◌, subst, arith, Bool, true, false, List, [], ◌∷◌,
  ◌++◌, ◌==◌, ltb, leb, if◌then◌else◌, length, take_all, Bool-cases, inl, inr,
}
use char_os.Storage.Repo.{same_string}
use char_os.Storage.Depsolve.{
  World, Visited, visited, cycle, too_deep, not_found, conflict, marked, deps_of, and_then,
  visit_deps, finish, enter, solve_visit, Solved, solved, too_many, bad_call, solved_within, solve,
  max_out, dep_str_copy,
}
use char_os.Storage.Depsolve.Ordered.{
  resolved, IsOrdered, empty, behind, Extends, Visits, marked_last, marked-append, Extends-refl,
  deps-Extends, visited_eq, then_split,
}

same_string_eq : (a b : List ℕ) → same_string a b ≡ true → a ≡ b
unfolding same_string
same_string_eq [] [] e = refl
same_string_eq [] (y ∷ b) e = absurd (ground arith)
same_string_eq (x ∷ a) [] e = absurd (ground arith)
same_string_eq (x ∷ a) (y ∷ b) e = ap₂ ◌∷◌ (ground arith) (same_string_eq a b (ground arith))

marked_other :
    (out : List (List ℕ)) (name x : List ℕ)
    → marked out x ≡ false
    → same_string name x ≡ false
    → marked (out ++ (name ∷ [])) x ≡ false
unfolding marked
marked_other [] name x e f = ground arith
marked_other (y ∷ out) name x e f = ground (arith, marked_other out name x)

-- A name that is not on the stack differs from all that are.
differs :
    (stack : List (List ℕ)) (name x : List ℕ)
    → marked stack name ≡ false
    → marked stack x ≡ true
    → same_string name x ≡ false
differs stack name x off on = elim (Bool-cases (same_string name x)) [
  | inl e ↦
      let clash : false ≡ true = sym off ∙ ap (marked stack) (same_string_eq name x e) ∙ on in
      absurd (ground arith)
  | inr e ↦ e
]

finish_put :
    (b : Bool) (v new : List (List ℕ)) → (if b then too_deep else visited v) ≡ visited new → v ≡ new
finish_put true v new e = absurd (ground arith)
finish_put false v new e = visited_eq v new e

-- The package is put behind its dependencies.
finish-Extends :
    (w : World) (stack : List (List ℕ)) (name : List ℕ) (out mid new : List (List ℕ))
    → length name ≤ 31
    → marked out name ≡ false
    → marked stack name ≡ false
    → Extends w (stack ++ (name ∷ [])) out mid
    → resolved w mid (deps_of w name) ≡ true
    → finish name mid ≡ visited new
    → Extends w stack out new × (marked new name ≡ true)
finish-Extends w stack name out mid new short fresh off h res e =
    let same : mid ++ (name ∷ []) ≡ new =
      ap (λ x. mid ++ (x ∷ [])) (sym (take_all 31 name short))
      ∙ finish_put (leb max_out (length mid)) _ new e in
    let unmarked = h.avoids name (marked_last stack name) fresh in
    (
      record {
        ordered = subst (IsOrdered w) same (behind mid name h.ordered unmarked res);
        added = h.added ++ (name ∷ []);
        longer =
            sym same ∙ ap (λ l. l ++ (name ∷ [])) h.longer ∙ append_assoc out h.added (name ∷ []);
        avoids = λ x on clear.
            subst (λ l. marked l x ≡ false) same
              (marked_other mid name x (h.avoids x (marked-append stack (name ∷ []) x on) clear)
                (differs stack name x off on));
      },
      subst (λ l. marked l name ≡ true) same (marked_last mid name),
    )

enter_split :
    (stack : List (List ℕ)) (name : List ℕ) (out new : List (List ℕ)) (v : Visited)
    → marked out name ≡ false
    → enter stack name out v ≡ visited new
    → (marked stack name ≡ false) × (v ≡ visited new)
enter_split stack name out new v fresh e = chosen _ _ fresh e
  where
    chosen :
        (a b : Bool)
        → a ≡ false
        → (if a then visited out else if b then cycle else v) ≡ visited new
        → (b ≡ false) × (v ≡ visited new)
    chosen a b f e = (ground arith, ground arith)

enter_marked :
    (w : World) (stack : List (List ℕ)) (name : List ℕ) (out new : List (List ℕ)) (v : Visited)
    → IsOrdered w out
    → marked out name ≡ true
    → enter stack name out v ≡ visited new
    → Extends w stack out new × (marked new name ≡ true)
enter_marked w stack name out new v ordered there e =
    let same : out ≡ new = visited_eq out new (
      ap (λ b. if b then visited out else if marked stack name then cycle else v) (sym there)
      ∙ e) in
    (Extends-refl w stack out new ordered same, subst (λ l. marked l name ≡ true) same there)

-- By induction on what is left of the stack.
visit-Visits : (n : ℕ) (w : World) (stack : List (List ℕ)) → Visits w stack (solve_visit n w stack)
unfolding solve_visit
visit-Visits zero w stack name out new short ordered e = elim (Bool-cases (marked out name)) [
  | inl there ↦ enter_marked w stack name out new too_deep ordered there e
  | inr fresh ↦
      let (off, v) = enter_split stack name out new too_deep fresh e in absurd (ground arith)
]
visit-Visits (suc n) w stack name out new short ordered e = elim (Bool-cases (marked out name)) [
  | inl there ↦ enter_marked w stack name out new _ ordered there e
  | inr fresh ↦
      let deeper = stack ++ (dep_str_copy 32 name ∷ []) in
      let inside = solve_visit n w deeper in
      let (off, v) =
        enter_split stack name out new
          (and_then (visit_deps inside w (deps_of w name) out) (finish name)) fresh e in
      let (mid, e1, e2) =
        then_split (visit_deps inside w (deps_of w name) out) (finish name) new v in
      let (h, res) =
        deps-Extends w deeper inside (visit-Visits n w deeper) (deps_of w name) out mid ordered
          e1 in
      finish-Extends w stack name out mid new short fresh off
        (subst (λ x. Extends w (stack ++ (x ∷ [])) out mid) (take_all 31 name short) h) res e2
]

solved_split :
    (max : ℕ) (v : Visited) (out : List (List ℕ))
    → solved_within max v ≡ solved out
    → (v ≡ visited out) × (length out ≤ max)
solved_split max (visited new) out e = kept (length new) new out refl e
  where
    kept :
        (n : ℕ) (new out : List (List ℕ))
        → n ≡ length new
        → (if ltb max n then too_many else solved new) ≡ solved out
        → (visited new ≡ visited out) × (length out ≤ max)
    kept n new out h e =
        let same : new ≡ out = ground arith in
        (ap visited same, omega (arith, h, ap length same, small (ltb max n) refl))
      where
        small : (b : Bool) → ltb max n ≡ b → n ≤ max
        small b f = ground arith
solved_split max cycle out e = absurd (ground arith)
solved_split max too_deep out e = absurd (ground arith)
solved_split max not_found out e = absurd (ground arith)
solved_split max conflict out e = absurd (ground arith)

-- When the solver gives an order for a package, every package of it stands behind all its
-- dependencies, each met by a version that is known, no package stands twice, the package that was
-- asked for is in it, and it fits in the room given.  The name asked for has 31 characters at most.
pub solve-IsOrdered :
    (w : World) (name : List ℕ) (max : ℕ) (out : List (List ℕ))
    → length name ≤ 31
    → solve w name max ≡ solved out
    → IsOrdered w out × (marked out name ≡ true) × (length out ≤ max)
unfolding solve
solve-IsOrdered w name max out short e =
    let (v, room) =
      solved_split max (solve_visit max_out w [] name []) out (asked (max == 0) _ e) in
    let (h, there) = visit-Visits max_out w [] name [] out short empty v in (h.ordered, there, room)
  where
    asked : (b : Bool) (x : Solved) → (if b then bad_call else x) ≡ solved out → x ≡ solved out
    asked true x e = absurd (ground arith)
    asked false x e = e
