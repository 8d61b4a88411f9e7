-- ===== src/Config/Acyclic.antt =====
-- The depth-first search of internal/config/config.go accepts graphs without cycles only.
use mathlib.Core.WellFounded.{Acc}
use hooversion.Common.{
  ℕ, zero, suc, ◌≡◌, inl, inr, refl, sym, ◌∙◌, subst, List, [], ◌∷◌, some, arith, All, Bool-cases,
  Option-cases, Member, Result, ok, bind-eq-ok, ok-injective, err-ne-ok, none-ne-some, length, map,
}
use hooversion.Config.Cycles.{
  visiting, visited, Search, edges, entered, left_behind, visit_each, visit, nothing_seen,
  assert_acyclic_package_graph,
}
use hooversion.Config.{Error, normalize_graph_name}
use hooversion.Text.Laws.{text_eq_iff, text_eq_refl}
use hooversion.Text.Maps.{TextMap, lookup, lookup-insert}
use hooversion.Text.{Text, text_eq}
use hooversion.Types.{NormalizedPackageConfig}

module _ (graph : TextMap (List Text)) where
  -- `d` is a dependency of `n` in the graph.
  abbrev pub IsEdge : Text → Text → Type 0
  IsEdge d n = Member d (edges graph n)

  abbrev IsVisited : Search → Text → Type 0
  IsVisited s n = lookup n s.state ≡ some visited

  -- No infinite chain of dependencies starts at a visited name.
  abbrev IsSettled : Search → Type 0
  IsSettled s = (n : Text) → IsVisited s n → Acc IsEdge n

  -- What a successful step does: it keeps the search settled and what was visited, and it visits a
  -- name.
  abbrev Visits : Search → Text → Search → Type 0
  Visits s name t = IsSettled t × ((n : Text) → IsVisited s n → IsVisited t n) × IsVisited t name

  abbrev IsVisitor : (Text → Search → Result Error Search) → Type 0
  IsVisitor step = (name : Text) (s t : Search) → IsSettled s → step name s ≡ ok t → Visits s name t

  visit_each-All :
      (step : Text → Search → Result Error Search)
      → IsVisitor step
      → (names : List Text) (s t : Search) → IsSettled s
      → visit_each step names s ≡ ok t
      → IsSettled t × ((n : Text) → IsVisited s n → IsVisited t n) × All (IsVisited t) names
  unfolding visit_each
  visit_each-All step v [] s t i h =
      let e = ok-injective h in (subst IsSettled e i, (λ n k. subst (λ x. IsVisited x n) e k), tt)
  visit_each-All step v (name ∷ names) s t i h =
      let (m, e, r) = bind-eq-ok (step name s) (visit_each step names) {b = t} h in
      let (i1, keep1, here) = v name s m i e in
      let (i2, keep2, rest) = visit_each-All step v names m t i1 r in
      (i2, (λ n k. keep2 n (keep1 n k)), (keep2 name here, rest))

  All-Member :
      (P : Text → Type 0) (names : List Text) → All P names → (n : Text) → Member n names → P n
  All-Member P [] a n m = absurd m
  All-Member P (x ∷ names) (p, a) n (inl e) = subst P (sym e) p
  All-Member P (x ∷ names) (p, a) n (inr m) = All-Member P names a n m

  entered-IsSettled : (name : Text) (s : Search) → IsSettled s → IsSettled (entered name s)
  entered-IsSettled name s i n k = i n (ground (arith, lookup-insert name n visiting s.state, k))

  -- Leaving a name visits it, and keeps the others.
  left_behind-Visits :
      (name : Text) (s m : Search)
      → Acc IsEdge name
      → IsSettled m
      → ((n : Text) → IsVisited (entered name s) n → IsVisited m n)
      → Visits s name (left_behind name m)
  unfolding left_behind
  left_behind-Visits name s m a i keep = (
    λ n k. elim (Bool-cases (text_eq name n)) [
      | inl same ↦ subst (Acc IsEdge) ((text_eq_iff name n).0 same) a
      | inr differs ↦ i n (ground (arith, lookup-insert name n visited m.state, k))
    ],
    (λ n k. elim (Bool-cases (text_eq name n)) [
      | inl same ↦ lookup-insert name n visited m.state ∙ rw same refl
      | inr differs ↦
          lookup-insert name n visited m.state
          ∙ rw differs (keep n (lookup-insert name n visiting s.state ∙ rw differs k))
    ]),
    lookup-insert name name visited m.state ∙ rw (text_eq_refl name) refl,
  )

  visit-IsVisitor : (fuel : ℕ) → IsVisitor (visit fuel graph)
  unfolding visit left_behind
  visit-IsVisitor zero name s t i h = absurd (err-ne-ok h)
  visit-IsVisitor (suc fuel) name s t i h = elim (Option-cases (lookup name s.state)) [
    | inr (visiting, e) ↦ absurd (err-ne-ok (rw (visit, e) at h))
    | inr (visited, e) ↦
        let same : s ≡ t = ok-injective (rw (visit, e) at h) in
        subst (Visits s name) same (i, (λ n k. k), e)
    | inl e ↦
        let (m, e1, r) =
          bind-eq-ok (visit_each (visit fuel graph) (edges graph name) (entered name s))
            (λ t. ok (left_behind name t)) {b = t} (rw (visit, e) at h) in
        let (i2, keep, deps) =
          visit_each-All (visit fuel graph) (visit-IsVisitor fuel) (edges graph name)
            (entered name s) m (entered-IsSettled name s i) e1 in
        let settled =
          Acc.intro name (λ d k. i2 d (All-Member (IsVisited m) (edges graph name) deps d k)) in
        subst (Visits s name) (ok-injective r) (left_behind-Visits name s m settled i2 keep)
  ]

nothing_seen-IsSettled :
    (graph : TextMap (List Text)) (n : Text)
    → lookup n nothing_seen.state ≡ some visited
    → Acc (IsEdge graph) n
unfolding lookup
nothing_seen-IsSettled graph n k = absurd (none-ne-some k)

All-weaken :
    (P Q : Text → Type 0) (names : List Text) → ((n : Text) → P n → Q n) → All P names → All Q names
All-weaken P Q [] f a = tt
All-weaken P Q (n ∷ names) f (p, a) = (f n p, All-weaken P Q names f a)

-- If the search accepts the packages, then no infinite chain of dependencies starts at one of them;
-- in particular there is no cycle.
pub assert_acyclic_package_graph-Acc :
    (lower : ℕ → ℕ) (packages : List NormalizedPackageConfig) (graph : TextMap (List Text))
    → assert_acyclic_package_graph lower packages graph ≡ ok tt
    → All (Acc (IsEdge graph)) (map (λ pkg. normalize_graph_name lower pkg.name) packages)
unfolding assert_acyclic_package_graph
assert_acyclic_package_graph-Acc lower packages graph h =
    let names = map (λ pkg. normalize_graph_name lower pkg.name) packages in
    let step = visit (suc (length packages)) graph in
    let (t, e, _) = bind-eq-ok (visit_each step names nothing_seen) (λ s. ok tt) {b = tt} h in
    let (i, _, all) =
      visit_each-All graph step (visit-IsVisitor graph (suc (length packages))) names nothing_seen t
        (nothing_seen-IsSettled graph) e in
    All-weaken _ _ names i all
