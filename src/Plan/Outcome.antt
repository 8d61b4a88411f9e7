-- ===== src/Plan/Outcome.antt =====
-- The two outcomes of createIndependentPlan of internal/plan/plan.go, once the histories are read:
-- the commits that no package takes, or the releases.
use hooversion.Common.{
  ◌≡◌, ◌⊎◌, inl, inr, refl, sym, ap, ◌∙◌, subst, true, List, [], ◌∷◌, All, map, Result, ok,
  bind-eq-ok, ok-injective,
}
use hooversion.Plan.Blocking.{homeless, unmatched-homeless}
use hooversion.Plan.Builds.{planned_packages, IsRelease, build_all-IsRelease}
use hooversion.Plan.Independent.{
  Gathered, Progress, candidates_of, direct_of, planned_of, progress_of, unmatched, build_all,
  plan_from,
}
use hooversion.Plan.{World, Error}
use hooversion.Routing.Affected.{DistinctNames}
use hooversion.Text.Maps.{TextMap}
use hooversion.Text.{Text}
use hooversion.Types.{ReleaseType, ParsedCommit, NormalizedConfig, PackageRelease, ReleasePlan}

-- what the loop over the packages builds from
abbrev pub progress_for : TextMap ReleaseType → NormalizedConfig → Gathered → Progress
progress_for rules config found = progress_of config (planned_of rules config found)

abbrev plan_with : Text → Text → List PackageRelease → List ParsedCommit → ReleasePlan
plan_with branch source releases commits = record {
  branch = branch;
  source_sha = source;
  independent = true;
  releases = releases;
  unmatched_commits = commits;
}

List-cases {ℓ} : {A : Type ℓ} (xs : List A) → (xs ≡ []) ⊎ ((x : A) × (ys : List A) × (xs ≡ x ∷ ys))
List-cases [] = inl refl
List-cases (x ∷ xs) = inr (x, xs, refl)

module _ (world : World) (config : NormalizedConfig) (branch : Text) (source : Text)
    (rules : TextMap ReleaseType) (found : Gathered) (plan : ReleasePlan) where
  abbrev built : Result Error (List PackageRelease)
  built =
      build_all world config found.latest_tags (planned_of rules config found)
        (progress_for rules config found) config.packages

  -- Let the names of the packages differ. A plan that is returned names as unmatched, in order, the
  -- candidates that have a release type while no candidate of their object name touches a package;
  -- and if there is one, the plan has no releases.
  pub plan_from-homeless :
      DistinctNames config.packages
      → plan_from world config branch source rules found ≡ ok plan
      → (plan.unmatched_commits ≡ homeless rules config found)
        × ((homeless rules config found ≡ []) ⊎ (plan.releases ≡ []))
  unfolding plan_from
  plan_from-homeless d h =
      elim (List-cases (unmatched rules (direct_of config found) (candidates_of found))) [
        | inl e ↦
            let (releases, e1, h1) =
              bind-eq-ok built (λ releases. ok (plan_with branch source releases [])) {b = plan}
                (rw (plan_from, e) at h) in
            let none_left = sym (unmatched-homeless rules config found d) ∙ e in
            (ap (λ p. p.unmatched_commits) (sym (ok-injective h1)) ∙ sym none_left, inl none_left)
        | inr (c, more, e) ↦
            let same : plan_with branch source [] (c ∷ more) ≡ plan =
              ok-injective (rw (plan_from, e) at h) in
            (
              ap (λ p. p.unmatched_commits) (sym same)
                  ∙ sym e
                  ∙ unmatched-homeless rules config found d,
              inr (ap (λ p. p.releases) (sym same)),
            )
      ]

  -- Let the names of the packages differ. If no candidate is unmatched and a plan is returned, then
  -- it has one release for each package with a release type after the propagation, in the order of
  -- the packages. Each has that release type, and moves its package from the version in its
  -- manifest to the bump of it, whose tag it has.
  pub plan_from-releases :
      DistinctNames config.packages
      → plan_from world config branch source rules found ≡ ok plan
      → homeless rules config found ≡ []
      → (map (λ r. r.pkg) plan.releases
          ≡ planned_packages (progress_for rules config found).types config.packages)
        × All (IsRelease world config (progress_for rules config found).types) plan.releases
  unfolding plan_from
  plan_from-releases d h e =
      let none_left = unmatched-homeless rules config found d ∙ e in
      let (releases, e1, h1) =
        bind-eq-ok built (λ releases. ok (plan_with branch source releases [])) {b = plan}
          (rw (plan_from, none_left) at h) in
      subst
        (λ (p : ReleasePlan).
          (map (λ r. r.pkg) p.releases
            ≡ planned_packages (progress_for rules config found).types config.packages)
          × All (IsRelease world config (progress_for rules config found).types) p.releases)
        (ok-injective h1)
        (build_all-IsRelease world config found.latest_tags (planned_of rules config found)
          (progress_for rules config found) config.packages e1)
