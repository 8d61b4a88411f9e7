-- ===== src/Config/Packages.antt =====
-- The middle of Normalize of internal/config/config.go: the names, the dependencies and the graph
-- of the packages. Every edge of the graph leads to a package, so the search for cycles always
-- ends.
use mathlib.Core.WellFounded.{Acc}
use hooversion.Common.{
  ℕ, ◌≡◌, ◌≢◌, inl, inr, refl, sym, ap, ◌∙◌, subst, List, [], ◌∷◌, some, arith, All, if◌then◌else◌,
  Bool-cases, Option-cases, Member, Result, ok, err, ◌>>=◌, bind-eq-ok, bind-ne-err, ok-injective,
  err-ne-ok, some-eq, none-ne-some, map,
}
use hooversion.Config.Acyclic.{IsEdge, assert_acyclic_package_graph-Acc}
use hooversion.Config.Cycles.{edges, assert_acyclic_package_graph}
use hooversion.Config.Fuel.{Member-self, assert_acyclic_package_graph_total}
use hooversion.Config.{
  Error, dependency_cycle, out_of_fuel, normalize_graph_name, duplicate_name, names_by_key,
  resolve_dependencies, Resolved, resolve_all,
}
use hooversion.Text.Maps.{TextMap, lookup, insert, lookup-insert}
use hooversion.Text.{Text, text_eq}
use hooversion.Types.{NormalizedPackageConfig}

-- byName, the graph, and the search for cycles
unfoldable pub check_packages : (ℕ → ℕ) → List NormalizedPackageConfig → Result Error Resolved
check_packages lower packages = names_by_key lower packages [] >>= λ by_name.
    resolve_all lower by_name packages [] >>= λ resolved.
    assert_acyclic_package_graph lower resolved.packages resolved.graph >>= λ _. ok resolved

pub edges-insert :
    (k n : Text) (deps : List Text) (graph : TextMap (List Text))
    → edges (insert k deps graph) n ≡ (if text_eq k n then deps else edges graph n)
edges-insert k n deps graph = ground (arith, lookup-insert k n deps graph)

module _ (lower : ℕ → ℕ) where
  abbrev pub key_of : NormalizedPackageConfig → Text
  key_of pkg = normalize_graph_name lower pkg.name

  abbrev pub keys : List NormalizedPackageConfig → List Text
  keys packages = map key_of packages

  module _ (all : List Text) where
    -- The packages in a map stand under their keys, which are among those of all packages.
    abbrev IsIndex : TextMap NormalizedPackageConfig → Type 0
    IsIndex m =
        (k : Text) (t : NormalizedPackageConfig) → lookup k m ≡ some t → Member (key_of t) all

    insert-IsIndex :
        (m : TextMap NormalizedPackageConfig) (k : Text) (pkg : NormalizedPackageConfig)
        → Member (key_of pkg) all
        → IsIndex m
        → IsIndex (insert k pkg m)
    insert-IsIndex m k pkg h i j t e = elim (Bool-cases (text_eq k j)) [
      | inl same ↦
          let p : pkg ≡ t = some-eq (rw same at (sym (lookup-insert k j pkg m) ∙ e)) in
          subst (λ x. Member (key_of x) all) p h
      | inr differs ↦ i j t (rw differs at (sym (lookup-insert k j pkg m) ∙ e))
    ]

    names_by_key-IsIndex :
        (packages : List NormalizedPackageConfig) (m : TextMap NormalizedPackageConfig)
        {by_name : TextMap NormalizedPackageConfig}
        → All (λ k. Member k all) (keys packages)
        → IsIndex m
        → names_by_key lower packages m ≡ ok by_name
        → IsIndex by_name
    unfolding names_by_key
    names_by_key-IsIndex [] m a i h = subst IsIndex (ok-injective h) i
    names_by_key-IsIndex (pkg ∷ packages) m (k, a) i h =
        elim (Option-cases (lookup (key_of pkg) m)) [
          | inr (dup, e) ↦ absurd (err-ne-ok (rw (names_by_key, e) at h))
          | inl e ↦
              names_by_key-IsIndex packages (insert (key_of pkg) pkg m) a
                (insert-IsIndex m (key_of pkg) pkg k i) (rw (names_by_key, e) at h)
        ]

    abbrev AreKeys : List Text → Type 0
    AreKeys = All (λ d. Member d all)

    resolve_dependencies-AreKeys :
        (by_name : TextMap NormalizedPackageConfig) (pkg : NormalizedPackageConfig)
        (deps : List Text) {resolved : List Text}
        → IsIndex by_name
        → resolve_dependencies lower by_name pkg deps ≡ ok resolved
        → AreKeys (map (normalize_graph_name lower) resolved)
    unfolding resolve_dependencies
    resolve_dependencies-AreKeys by_name pkg [] i h =
        subst (λ l. AreKeys (map (normalize_graph_name lower) l)) (ok-injective h) tt
    resolve_dependencies-AreKeys by_name pkg (dep ∷ deps) {resolved} i h =
        let rest = resolve_dependencies lower by_name pkg deps in
        elim (Option-cases (lookup (normalize_graph_name lower dep) by_name)) [
          | inl e ↦ absurd (err-ne-ok (rw (resolve_dependencies, e) at h))
          | inr (target, e) ↦
              elim (Bool-cases (text_eq (normalize_graph_name lower dep) (key_of pkg))) [
                | inl self ↦ absurd (err-ne-ok (rw (resolve_dependencies, e, self) at h))
                | inr other ↦
                    let (more, e2, h2) =
                      bind-eq-ok rest (λ more. ok (target.name ∷ more)) {b = resolved}
                        (rw (resolve_dependencies, e, other) at h) in
                    subst (λ l. AreKeys (map (normalize_graph_name lower) l)) (ok-injective h2)
                      (i _ target e, resolve_dependencies-AreKeys by_name pkg deps i e2)
              ]
        ]

    abbrev IsClosedGraph : TextMap (List Text) → Type 0
    IsClosedGraph graph = (n : Text) → AreKeys (edges graph n)

    insert-IsClosedGraph :
        (graph : TextMap (List Text)) (k : Text) (deps : List Text)
        → AreKeys deps
        → IsClosedGraph graph
        → IsClosedGraph (insert k deps graph)
    insert-IsClosedGraph graph k deps a g n =
        subst AreKeys (sym (edges-insert k n deps graph)) (elim (Bool-cases (text_eq k n)) [
          | inl same ↦ rw same a
          | inr differs ↦ rw differs (g n)
        ])

    resolve_all-IsClosedGraph :
        (by_name : TextMap NormalizedPackageConfig) (packages : List NormalizedPackageConfig)
        (graph : TextMap (List Text)) {r : Resolved}
        → IsIndex by_name
        → IsClosedGraph graph
        → resolve_all lower by_name packages graph ≡ ok r
        → IsClosedGraph r.graph × (keys r.packages ≡ keys packages)
    unfolding resolve_all
    resolve_all-IsClosedGraph by_name [] graph i g h =
        subst (λ (x : Resolved). IsClosedGraph x.graph × (keys x.packages ≡ [])) (ok-injective h)
          (g, refl)
    resolve_all-IsClosedGraph by_name (pkg ∷ packages) graph {r} i g h =
        let next : List Text → TextMap (List Text) =
          λ resolved. insert (key_of pkg) (map (normalize_graph_name lower) resolved) graph in
        let last : List Text → Resolved → Resolved = λ resolved more. record more {
          packages = record pkg { dependencies = resolved } ∷ more.packages;
        } in
        let (resolved, e1, h1) =
          bind-eq-ok (resolve_dependencies lower by_name pkg pkg.dependencies)
            (λ resolved. resolve_all lower by_name packages (next resolved) >>= λ more.
              ok (last resolved more))
            {b = r} h in
        let (more, e2, h2) =
          bind-eq-ok (resolve_all lower by_name packages (next resolved))
            (λ more. ok (last resolved more)) {b = r} h1 in
        let (closed, same) =
          resolve_all-IsClosedGraph by_name packages (next resolved) i
            (insert-IsClosedGraph graph (key_of pkg) (map (normalize_graph_name lower) resolved)
              (resolve_dependencies-AreKeys by_name pkg pkg.dependencies i e1) g)
            e2 in
        subst
          (λ (x : Resolved). IsClosedGraph x.graph × (keys x.packages ≡ key_of pkg ∷ keys packages))
          (ok-injective h2) (closed, ap (◌∷◌ (key_of pkg)) same)

  -- Packages that pass were indexed, resolved and searched.
  check_packages-searched :
      (packages : List NormalizedPackageConfig) (r : Resolved)
      → check_packages lower packages ≡ ok r
      → (by_name : TextMap NormalizedPackageConfig) × (names_by_key lower packages [] ≡ ok by_name)
        × (resolve_all lower by_name packages [] ≡ ok r)
        × (assert_acyclic_package_graph lower r.packages r.graph ≡ ok tt)
  unfolding check_packages
  check_packages-searched packages r h =
      let search : Resolved → Result Error Resolved = λ resolved.
        assert_acyclic_package_graph lower resolved.packages resolved.graph >>= λ _. ok resolved in
      let (by_name, e1, h1) =
        bind-eq-ok (names_by_key lower packages [])
          (λ by_name. resolve_all lower by_name packages [] >>= search) {b = r} h in
      let (resolved, e2, h2) =
        bind-eq-ok (resolve_all lower by_name packages []) search {b = r} h1 in
      let (u, e3, h3) =
        bind-eq-ok (assert_acyclic_package_graph lower resolved.packages resolved.graph)
          (λ _. ok resolved) {b = r} h2 in
      let same = ok-injective h3 in
      (
        by_name,
        e1,
        e2 ∙ ap ok same,
        subst (λ (x : Resolved). assert_acyclic_package_graph lower x.packages x.graph ≡ ok tt) same
            e3,
      )

  pub check_packages-parts :
      (packages : List NormalizedPackageConfig) (r : Resolved)
      → check_packages lower packages ≡ ok r
      → (by_name : TextMap NormalizedPackageConfig) × (names_by_key lower packages [] ≡ ok by_name)
        × (resolve_all lower by_name packages [] ≡ ok r)
  check_packages-parts packages r h =
      let (by_name, e1, e2, e3) = check_packages-searched packages r h in (by_name, e1, e2)

  -- The graph of packages that pass has no infinite chain of edges.
  pub check_packages-Acc :
      (packages : List NormalizedPackageConfig) (r : Resolved)
      → check_packages lower packages ≡ ok r
      → All (Acc (IsEdge r.graph)) (keys r.packages)
  check_packages-Acc packages r h =
      let (by_name, e1, e2, e3) = check_packages-searched packages r h in
      assert_acyclic_package_graph-Acc lower r.packages r.graph e3

  names_by_key-fuel :
      (packages : List NormalizedPackageConfig) (m : TextMap NormalizedPackageConfig)
      → names_by_key lower packages m ≢ err out_of_fuel
  unfolding names_by_key
  names_by_key-fuel [] m h = cc
  names_by_key-fuel (pkg ∷ packages) m h = elim (Option-cases (lookup (key_of pkg) m)) [
    | inr (dup, e) ↦ not_fuel (rw (names_by_key, e) at h)
    | inl e ↦ names_by_key-fuel packages (insert (key_of pkg) pkg m) (rw (names_by_key, e) at h)
  ]
    where
      not_fuel :
          {a b : Text}
          → ¬ ◌≡◌ {A = Result Error (TextMap NormalizedPackageConfig)}
              (err (duplicate_name a b))
              (err out_of_fuel)
      not_fuel h = cc

  resolve_dependencies-fuel :
      (by_name : TextMap NormalizedPackageConfig) (pkg : NormalizedPackageConfig) (deps : List Text)
      → resolve_dependencies lower by_name pkg deps ≢ err out_of_fuel
  unfolding resolve_dependencies
  resolve_dependencies-fuel by_name pkg [] h = cc
  resolve_dependencies-fuel by_name pkg (dep ∷ deps) h =
      ground (arith, resolve_dependencies-fuel by_name pkg deps, h)

  resolve_all-fuel :
      (by_name : TextMap NormalizedPackageConfig) (packages : List NormalizedPackageConfig)
      (graph : TextMap (List Text))
      → resolve_all lower by_name packages graph ≢ err out_of_fuel
  unfolding resolve_all
  resolve_all-fuel by_name [] graph = λ h. cc
  resolve_all-fuel by_name (pkg ∷ packages) graph =
      bind-ne-err (resolve_dependencies lower by_name pkg pkg.dependencies)
        (λ resolved.
          resolve_all lower by_name packages
            (insert (key_of pkg) (map (normalize_graph_name lower) resolved) graph)
          >>= λ more.
              ok
                (record more { packages = record pkg { dependencies = resolved } ∷ more.packages }))
        (resolve_dependencies-fuel by_name pkg pkg.dependencies)
        (λ resolved _.
          bind-ne-err (resolve_all lower by_name packages _) _ (resolve_all-fuel by_name packages _)
            (λ more _ h. cc))

  acyclic-fuel :
      (packages : List NormalizedPackageConfig) (graph : TextMap (List Text))
      → IsClosedGraph (keys packages) graph
      → assert_acyclic_package_graph lower packages graph ≢ err out_of_fuel
  acyclic-fuel packages graph closed h =
      elim (assert_acyclic_package_graph_total lower packages graph closed) [
        | inl e ↦ err-ne-ok (sym h ∙ e)
        | inr (c, e) ↦ not_cycle (sym e ∙ h)
      ]
    where
      not_cycle :
          {c : List Text}
          → ¬ ◌≡◌ {A = Result Error (Unit {0})} (err (dependency_cycle c)) (err out_of_fuel)
      not_cycle h = cc

  nothing-IsIndex : (packages : List NormalizedPackageConfig) → IsIndex (keys packages) []
  unfolding lookup
  nothing-IsIndex packages k t e = absurd (none-ne-some e)

  nothing-IsClosedGraph :
      (packages : List NormalizedPackageConfig) → IsClosedGraph (keys packages) []
  unfolding lookup
  nothing-IsClosedGraph packages n = tt

  -- Whatever the packages are, the search for cycles in their graph does not run out of fuel.
  pub check_packages-fuel :
      (packages : List NormalizedPackageConfig) → check_packages lower packages ≢ err out_of_fuel
  unfolding check_packages
  check_packages-fuel packages =
      bind-ne-err (names_by_key lower packages []) _ (names_by_key-fuel packages []) (λ by_name e.
        let index =
          names_by_key-IsIndex (keys packages) packages [] (Member-self (keys packages))
            (nothing-IsIndex packages) e in
        bind-ne-err (resolve_all lower by_name packages []) _ (resolve_all-fuel by_name packages [])
          (λ resolved e2.
            let (closed, same) =
              resolve_all-IsClosedGraph (keys packages) by_name packages [] index
                (nothing-IsClosedGraph packages) e2 in
            bind-ne-err (assert_acyclic_package_graph lower resolved.packages resolved.graph) _
              (acyclic-fuel resolved.packages resolved.graph
                (subst (λ all. IsClosedGraph all resolved.graph) (sym same) closed))
              (λ _ _ h. cc)))
