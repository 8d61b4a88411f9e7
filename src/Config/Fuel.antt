-- ===== src/Config/Fuel.antt =====
-- The depth-first search of internal/config/config.go ends: the fuel that it gets is enough.
use hooversion.Common.{
  ℕ, zero, suc, ◌≤◌, ◌<◌, ◌≡◌, ◌⊎◌, inl, inr, refl, ap, Bool, true, false, not, List, [], ◌∷◌, none,
  some, arith, All, filter, Option-cases, Member, Result, ok, err, length, length-filter, map,
}
use hooversion.Config.Cycles.{
  visiting, visited, Search, edges, entered, left_behind, cycle_of, visit_each, visit, nothing_seen,
  assert_acyclic_package_graph,
}
use hooversion.Config.{Error, dependency_cycle, normalize_graph_name}
use hooversion.Text.Laws.{text_eq_refl}
use hooversion.Text.Maps.{TextMap, lookup, lookup-insert}
use hooversion.Text.{Text}
use hooversion.Types.{NormalizedPackageConfig}

abbrev is_marked : Search → Text → Bool
is_marked s n = elim (lookup n s.state) [ none ↦ false | some c ↦ true ]

module _ (names : List Text) where
  -- the names in stateNone
  abbrev unmarked : Search → List Text → ℕ
  unmarked s ns = length (filter (λ n. not (is_marked s n)) ns)

  unmarked_mono :
      (s t : Search) (ns : List Text)
      → ((n : Text) → is_marked s n ≡ true → is_marked t n ≡ true)
      → unmarked t ns ≤ unmarked s ns
  unmarked_mono s t [] h = omega arith
  unmarked_mono s t (n ∷ ns) h = ground (arith, unmarked_mono s t ns h, h n)

  unmarked_lt :
      (s t : Search) (m : Text) (ns : List Text)
      → ((n : Text) → is_marked s n ≡ true → is_marked t n ≡ true)
      → Member m ns
      → is_marked s m ≡ false
      → is_marked t m ≡ true
      → unmarked t ns < unmarked s ns
  unmarked_lt s t m [] h k es et = absurd k
  unmarked_lt s t m (n ∷ ns) h (inl e) es et =
      ground (arith, unmarked_mono s t ns h, ap (is_marked s) e, ap (is_marked t) e)
  unmarked_lt s t m (n ∷ ns) h (inr k) es et = ground (arith, unmarked_lt s t m ns h k es et, h n)

  -- A step that does not run out of fuel: it succeeds and keeps the marks, or it reports a cycle.
  data Answers (s : Search) (r : Result Error Search) : Type 0 where
    answers_ok :
        (t : Search)
        → r ≡ ok t
        → ((n : Text) → is_marked s n ≡ true → is_marked t n ≡ true)
        → Answers s r
    answers_cycle : (c : List Text) → r ≡ err (dependency_cycle c) → Answers s r

  visit_each-Answers :
      (fuel : ℕ) (step : Text → Search → Result Error Search)
      → ((n : Text) (s : Search) → Member n names → unmarked s names < fuel → Answers s (step n s))
      → (ns : List Text) (s : Search) → All (λ n. Member n names) ns
      → unmarked s names < fuel
      → Answers s (visit_each step ns s)
  unfolding visit_each
  visit_each-Answers fuel step a [] s m u = answers_ok s refl (λ n k. k)
  visit_each-Answers fuel step a (n ∷ ns) s (m, ms) u = elim (a n s m u) [
    | answers_cycle c e ↦ answers_cycle c (rw (visit_each, e) refl)
    | answers_ok t e keep ↦
        elim (visit_each-Answers fuel step a ns t ms
          (omega (arith, u, unmarked_mono s t names keep))) [
            | answers_cycle c e2 ↦ answers_cycle c (rw (visit_each, e) e2)
            | answers_ok t2 e2 keep2 ↦
                answers_ok t2 (rw (visit_each, e) e2) (λ x k. keep2 x (keep x k))
          ]
  ]

  module _ (graph : TextMap (List Text))
      (closed : (n : Text) → All (λ d. Member d names) (edges graph n)) where
    marks-entered :
        (name : Text) (s : Search) (n : Text)
        → is_marked s n ≡ true
        → is_marked (entered name s) n ≡ true
    marks-entered name s n k = ground (arith, lookup-insert name n visiting s.state)

    marks-left_behind :
        (name : Text) (s : Search) (n : Text)
        → is_marked s n ≡ true
        → is_marked (left_behind name s) n ≡ true
    unfolding left_behind
    marks-left_behind name s n k = ground (arith, lookup-insert name n visited s.state)

    visit-Answers :
        (fuel : ℕ) (name : Text) (s : Search)
        → Member name names
        → unmarked s names < fuel
        → Answers s (visit fuel graph name s)
    unfolding visit
    visit-Answers zero name s m u = absurd (omega arith)
    visit-Answers (suc fuel) name s m u = elim (Option-cases (lookup name s.state)) [
      | inr (visited, e) ↦ answers_ok s (rw (visit, e) refl) (λ n k. k)
      | inr (visiting, e) ↦ answers_cycle (cycle_of name s) (rw (visit, e) refl)
      | inl e ↦
          let less =
            unmarked_lt s (entered name s) name names (marks-entered name s) m (ground arith)
              (ground (arith, lookup-insert name name visiting s.state, text_eq_refl name)) in
          elim (visit_each-Answers fuel (visit fuel graph) (visit-Answers fuel) (edges graph name)
            (entered name s) (closed name) (omega (arith, less, u))) [
              | answers_cycle c e2 ↦ answers_cycle c (rw (visit, e, e2) refl)
              | answers_ok t e2 keep ↦
                  answers_ok (left_behind name t) (rw (visit, e, e2) refl)
                    (λ n k. marks-left_behind name t n (keep n (marks-entered name s n k)))
            ]
    ]

pub Member-self : (ns : List Text) → All (λ n. Member n ns) ns
Member-self [] = tt
Member-self (n ∷ ns) = (inl refl, weaken ns (Member-self ns))
  where
    weaken : (ms : List Text) → All (λ m. Member m ns) ms → All (λ m. Member m (n ∷ ns)) ms
    weaken [] a = tt
    weaken (m ∷ ms) (k, a) = (inr k, weaken ms a)

length-keys :
    (lower : ℕ → ℕ) (packages : List NormalizedPackageConfig)
    → length (map (λ pkg. normalize_graph_name lower pkg.name) packages) ≡ length packages
length-keys lower [] = refl
length-keys lower (pkg ∷ packages) = ap suc (length-keys lower packages)

-- Let every edge of the graph lead to the normalized name of a package. Then the search never runs
-- out of fuel: it accepts the graph or reports a cycle.
pub assert_acyclic_package_graph_total :
    (lower : ℕ → ℕ) (packages : List NormalizedPackageConfig) (graph : TextMap (List Text))
    → ((n : Text)
        → All
            (λ d. Member d (map (λ pkg. normalize_graph_name lower pkg.name) packages))
            (edges graph n))
    → (assert_acyclic_package_graph lower packages graph ≡ ok tt)
      ⊎ ((c : List Text) × (assert_acyclic_package_graph lower packages graph
            ≡ err (dependency_cycle c)))
unfolding assert_acyclic_package_graph
assert_acyclic_package_graph_total lower packages graph closed =
    let names = map (λ pkg. normalize_graph_name lower pkg.name) packages in
    let fuel = suc (length packages) in
    let few = length-filter (λ n. not (is_marked nothing_seen n)) names in
    elim (visit_each-Answers names fuel (visit fuel graph) (visit-Answers names graph closed fuel)
      names nothing_seen (Member-self names) (omega (arith, few, length-keys lower packages))) [
        | answers_cycle c e ↦ inr (c, rw (assert_acyclic_package_graph, e) refl)
        | answers_ok t e keep ↦ inl (rw (assert_acyclic_package_graph, e) refl)
      ]
