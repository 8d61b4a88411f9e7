-- ===== src/Config/Dependencies.antt =====
-- The dependencies of packages as internal/config/config.go resolves them: what the graph that
-- Normalize searches for cycles has to do with the packages.
use mathlib.Core.WellFounded.{Acc}
use mathlib.Core.WellFounded.Subrelation.{accessible}
use hooversion.Common.{
  ℕ, ◌≡◌, ◌≢◌, inl, inr, sym, ap, ◌∙◌, subst, List, [], ◌∷◌, some, none, arith, All, if◌then◌else◌,
  Bool-cases, Option-cases, Member, ok, ◌>>=◌, bind-eq-ok, ok-injective, err-ne-ok, some-eq,
  none-ne-some, map, All_mono,
}
use hooversion.Config.Acyclic.{IsEdge}
use hooversion.Config.Cycles.{edges}
use hooversion.Config.Packages.{
  check_packages, check_packages-parts, check_packages-Acc, key_of, keys, edges-insert,
}
use hooversion.Config.{
  normalize_graph_name, names_by_key, resolve_dependencies, Resolved, resolve_all,
}
use hooversion.Text.Laws.{text_eq_iff, text_eq_ne, text_eq_refl}
use hooversion.Text.Maps.{TextMap, lookup, insert, lookup-insert}
use hooversion.Text.{Text, text_eq}
use hooversion.Types.{NormalizedPackageConfig}

All-Member : {A : Type 0} (P : A → Type 0) (xs : List A) {x : A} → All P xs → Member x xs → P x
All-Member P [] a m = absurd m
All-Member P (y ∷ ys) (p, a) (inl e) = subst P (sym e) p
All-Member P (y ∷ ys) (p, a) (inr m) = All-Member P ys a m

module _ (lower : ℕ → ℕ) where
  -- The package with the name `n` lists a dependency with the name `d`.
  abbrev pub DependsOn : List NormalizedPackageConfig → Text → Text → Type 0
  DependsOn packages d n =
      (pkg : NormalizedPackageConfig) × Member pkg packages
      × (key_of lower pkg ≡ n)
      × Member d (map (normalize_graph_name lower) pkg.dependencies)

  -- A package stands under its name.
  abbrev IsKeyed : TextMap NormalizedPackageConfig → Type 0
  IsKeyed m = (k : Text) (t : NormalizedPackageConfig) → lookup k m ≡ some t → key_of lower t ≡ k

  insert-IsKeyed :
      (m : TextMap NormalizedPackageConfig) (pkg : NormalizedPackageConfig)
      → IsKeyed m
      → IsKeyed (insert (key_of lower pkg) pkg m)
  insert-IsKeyed m pkg i j t e = elim (Bool-cases (text_eq (key_of lower pkg) j)) [
    | inl same ↦
        let p : pkg ≡ t =
          some-eq (rw same at (sym (lookup-insert (key_of lower pkg) j pkg m) ∙ e)) in
        ap (key_of lower) (sym p) ∙ (text_eq_iff (key_of lower pkg) j).0 same
    | inr differs ↦ i j t (rw differs at (sym (lookup-insert (key_of lower pkg) j pkg m) ∙ e))
  ]

  -- What is not a name beside another package is none without it, and is not its name.
  fresh_before :
      (m : TextMap NormalizedPackageConfig) (pkg p : NormalizedPackageConfig)
      → lookup (key_of lower p) (insert (key_of lower pkg) pkg m) ≡ none
      → (lookup (key_of lower p) m ≡ none) × (key_of lower pkg ≢ key_of lower p)
  fresh_before m pkg p h = elim (Bool-cases (text_eq (key_of lower pkg) (key_of lower p))) [
    | inl same ↦ absurd (
        none-ne-some
          (sym (rw same at (sym (lookup-insert (key_of lower pkg) (key_of lower p) pkg m) ∙ h))))
    | inr differs ↦ (
      rw differs at (sym (lookup-insert (key_of lower pkg) (key_of lower p) pkg m) ∙ h),
      λ e. ground (arith, text_eq_iff (key_of lower pkg) (key_of lower p)),
    )
  ]

  -- The names differ from one another.
  abbrev HaveDistinctNames : List NormalizedPackageConfig → Type 0
  HaveDistinctNames [] = Unit
  HaveDistinctNames (pkg ∷ packages) =
      All (λ p. key_of lower p ≢ key_of lower pkg) packages × HaveDistinctNames packages

  names_by_key-IsKeyed :
      (packages : List NormalizedPackageConfig) (m : TextMap NormalizedPackageConfig)
      {by_name : TextMap NormalizedPackageConfig}
      → IsKeyed m
      → names_by_key lower packages m ≡ ok by_name
      → IsKeyed by_name
        × All (λ p. lookup (key_of lower p) m ≡ none) packages
        × HaveDistinctNames packages
  unfolding names_by_key
  names_by_key-IsKeyed [] m i h = (subst IsKeyed (ok-injective h) i, tt, tt)
  names_by_key-IsKeyed (pkg ∷ packages) m i h = elim (Option-cases (lookup (key_of lower pkg) m)) [
    | inr (dup, e) ↦ absurd (err-ne-ok (rw (names_by_key, e) at h))
    | inl e ↦
        let (keyed, fresh, distinct) =
          names_by_key-IsKeyed packages (insert (key_of lower pkg) pkg m) (insert-IsKeyed m pkg i)
            (rw (names_by_key, e) at h) in
        let split = All_mono (fresh_before m pkg) packages fresh in
        (
          keyed,
          (e, All_mono (λ p q. q.0) packages split),
          (All_mono (λ p q e. q.1 (sym e)) packages split, distinct),
        )
  ]

  -- A resolution keeps the names of the dependencies.
  resolve_dependencies_names :
      (by_name : TextMap NormalizedPackageConfig) (pkg : NormalizedPackageConfig) (deps : List Text)
      {resolved : List Text}
      → IsKeyed by_name
      → resolve_dependencies lower by_name pkg deps ≡ ok resolved
      → map (normalize_graph_name lower) resolved ≡ map (normalize_graph_name lower) deps
  unfolding resolve_dependencies
  resolve_dependencies_names by_name pkg [] i h =
      ap (map (normalize_graph_name lower)) (sym (ok-injective h))
  resolve_dependencies_names by_name pkg (dep ∷ deps) {resolved} i h =
      let rest = resolve_dependencies lower by_name pkg deps in
      elim (Option-cases (lookup (normalize_graph_name lower dep) by_name)) [
        | inl e ↦ absurd (err-ne-ok (rw (resolve_dependencies, e) at h))
        | inr (target, e) ↦
            elim (Bool-cases (text_eq (normalize_graph_name lower dep) (key_of lower pkg))) [
              | inl self ↦ absurd (err-ne-ok (rw (resolve_dependencies, e, self) at h))
              | inr other ↦
                  let (more, e2, h2) =
                    bind-eq-ok rest (λ more. ok (target.name ∷ more)) {b = resolved}
                      (rw (resolve_dependencies, e, other) at h) in
                  ap (map (normalize_graph_name lower)) (sym (ok-injective h2))
                  ∙ (ap (λ k. k ∷ map (normalize_graph_name lower) more) (i _ target e)
                      ∙ ap (◌∷◌ (normalize_graph_name lower dep))
                          (resolve_dependencies_names by_name pkg deps i e2))
            ]
      ]

  abbrev with_edges :
      NormalizedPackageConfig → List Text → TextMap (List Text) → TextMap (List Text)
  with_edges pkg resolved graph =
      insert (key_of lower pkg) (map (normalize_graph_name lower) resolved) graph

  -- The first step of the resolution.
  resolved_first :
      (by_name : TextMap NormalizedPackageConfig) (pkg : NormalizedPackageConfig)
      (packages : List NormalizedPackageConfig) (graph : TextMap (List Text)) {r : Resolved}
      → resolve_all lower by_name (pkg ∷ packages) graph ≡ ok r
      → (resolved : List Text) × (more : Resolved) × (resolve_dependencies lower by_name pkg
            pkg.dependencies
          ≡ ok resolved)
        × (resolve_all lower by_name packages (with_edges pkg resolved graph) ≡ ok more)
        × (more.graph ≡ r.graph)
        × (record pkg { dependencies = resolved } ∷ more.packages ≡ r.packages)
  unfolding resolve_all
  resolved_first by_name pkg packages graph {r} h =
      let last : List Text → Resolved → Resolved = λ resolved more. record more {
        packages = record pkg { dependencies = resolved } ∷ more.packages;
      } in
      let (resolved, e1, h1) =
        bind-eq-ok (resolve_dependencies lower by_name pkg pkg.dependencies)
          (λ resolved.
            resolve_all lower by_name packages (with_edges pkg resolved graph) >>= λ more.
            ok (last resolved more))
          {b = r} h in
      let (more, e2, h2) =
        bind-eq-ok (resolve_all lower by_name packages (with_edges pkg resolved graph))
          (λ more. ok (last resolved more)) {b = r} h1 in
      (
        resolved,
        more,
        e1,
        e2,
        ap (λ (x : Resolved). x.graph) (ok-injective h2),
        ap (λ (x : Resolved). x.packages) (ok-injective h2),
      )

  -- Names that differ from those of all packages keep their edges.
  resolve_all_other :
      (by_name : TextMap NormalizedPackageConfig) (packages : List NormalizedPackageConfig)
      (graph : TextMap (List Text)) (n : Text) {r : Resolved}
      → All (λ p. key_of lower p ≢ n) packages
      → resolve_all lower by_name packages graph ≡ ok r
      → edges r.graph n ≡ edges graph n
  unfolding resolve_all
  resolve_all_other by_name [] graph n a h =
      ap (λ (x : Resolved). edges x.graph n) (sym (ok-injective h))
  resolve_all_other by_name (pkg ∷ packages) graph n {r} (differs, a) h =
      let (resolved, more, e1, e2, same, _) = resolved_first by_name pkg packages graph h in
      ap (λ g. edges g n) (sym same)
      ∙ (resolve_all_other by_name packages (with_edges pkg resolved graph) n a e2
          ∙ (edges-insert (key_of lower pkg) n _ graph
              ∙ ap (λ b. if b then map (normalize_graph_name lower) resolved else edges graph n)
                  (text_eq_ne (key_of lower pkg) n differs)))

  -- The edges of each package are its dependencies.
  abbrev HasEdges : TextMap (List Text) → NormalizedPackageConfig → Type 0
  HasEdges graph pkg =
      edges graph (key_of lower pkg) ≡ map (normalize_graph_name lower) pkg.dependencies

  resolve_all-HasEdges :
      (by_name : TextMap NormalizedPackageConfig) (packages : List NormalizedPackageConfig)
      (graph : TextMap (List Text)) {r : Resolved}
      → IsKeyed by_name
      → HaveDistinctNames packages
      → resolve_all lower by_name packages graph ≡ ok r
      → All (HasEdges r.graph) packages
  resolve_all-HasEdges by_name [] graph i d h = tt
  resolve_all-HasEdges by_name (pkg ∷ packages) graph i (others, d) h =
      let (resolved, more, e1, e2, same, _) = resolved_first by_name pkg packages graph h in
      let own =
        resolve_all_other by_name packages (with_edges pkg resolved graph) (key_of lower pkg) others
          e2
        ∙ (edges-insert (key_of lower pkg) (key_of lower pkg) _ graph
            ∙ (ap
                  (λ b.
                    if b
                    then map (normalize_graph_name lower) resolved
                    else edges graph (key_of lower pkg))
                  (text_eq_refl (key_of lower pkg))
                ∙ resolve_dependencies_names by_name pkg pkg.dependencies i e1)) in
      subst (λ g. HasEdges g pkg × All (HasEdges g) packages) same
        (own, resolve_all-HasEdges by_name packages (with_edges pkg resolved graph) i d e2)

  resolve_all-keys :
      (by_name : TextMap NormalizedPackageConfig) (packages : List NormalizedPackageConfig)
      (graph : TextMap (List Text)) {r : Resolved}
      → resolve_all lower by_name packages graph ≡ ok r
      → keys lower r.packages ≡ keys lower packages
  unfolding resolve_all
  resolve_all-keys by_name [] graph h =
      ap (λ (x : Resolved). keys lower x.packages) (sym (ok-injective h))
  resolve_all-keys by_name (pkg ∷ packages) graph h =
      let (resolved, more, e1, e2, _, same) = resolved_first by_name pkg packages graph h in
      ap (keys lower) (sym same)
      ∙ ap (◌∷◌ (key_of lower pkg))
          (resolve_all-keys by_name packages (with_edges pkg resolved graph) e2)

  nothing-IsKeyed : IsKeyed []
  unfolding lookup
  nothing-IsKeyed k t e = absurd (none-ne-some e)

  -- A dependency of a package is an edge of the graph.
  DependsOn-IsEdge :
      (packages : List NormalizedPackageConfig) (graph : TextMap (List Text))
      → All (HasEdges graph) packages
      → (d n : Text) → DependsOn packages d n
      → IsEdge graph d n
  DependsOn-IsEdge packages graph all d n (pkg, m, name, dep) =
      subst (λ k. Member d (edges graph k)) name
        (subst (Member d) (sym (All-Member (HasEdges graph) packages all m)) dep)

  -- If Normalize accepts the names and the dependencies of packages, then no infinite chain of
  -- dependencies starts at a package, where a package depends on another if it lists it under any
  -- spelling that is normalized to the name of the other.
  pub check_packages-IsAcyclic :
      (packages : List NormalizedPackageConfig) (r : Resolved)
      → check_packages lower packages ≡ ok r
      → All (Acc (DependsOn packages)) (keys lower packages)
  check_packages-IsAcyclic packages r h =
      let (by_name, e1, e2) = check_packages-parts lower packages r h in
      let (keyed, _, distinct) = names_by_key-IsKeyed packages [] nothing-IsKeyed e1 in
      let all = resolve_all-HasEdges by_name packages [] keyed distinct e2 in
      subst (All (Acc (DependsOn packages))) (resolve_all-keys by_name packages [] e2) (
        All_mono (λ n. accessible (λ x y. DependsOn-IsEdge packages r.graph all x y))
          (keys lower r.packages) (check_packages-Acc lower packages r h))
