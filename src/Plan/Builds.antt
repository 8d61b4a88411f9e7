-- ===== src/Plan/Builds.antt =====
-- The releases that createIndependentPlan and buildRelease of internal/plan/plan.go make.
use hooversion.Changelog.{generate_notes}
use hooversion.Common.{
  ◌≡◌, inl, inr, refl, sym, ap, ◌∙◌, subst, Bool, true, false, List, [], ◌∷◌, some, arith, filter,
  map, All, Result, ok, err, ◌>>=◌, bind-eq-ok, Option-cases, ok-injective,
}
use hooversion.Plan.Independent.{
  Planned, Progress, is_planned, release_for, text_or_empty, build_all,
}
use hooversion.Plan.{
  unique_commits, World, Error, build_release, read_manifest_version, from_version, tag_for,
}
use hooversion.Routing.{commits_of}
use hooversion.Semver.{SemVer, parse, checked_bump, string}
use hooversion.Text.Maps.{TextMap, lookup}
use hooversion.Text.{Text, contains}
use hooversion.Types.{
  ReleaseType, ParsedCommit, NormalizedPackageConfig, NormalizedConfig, PackageRelease,
}

from_version-ok :
    {A : Type 0} (r : Result hooversion.Semver.Error A) {a : A} → from_version r ≡ ok a → r ≡ ok a
from_version-ok (ok a) h = ap ok (ok-injective h)
from_version-ok (err e) h = cc

-- A release moves its package from the version that the manifest holds to the bump of it.
pub record IsBump (world : World) (config : NormalizedConfig) (r : PackageRelease) : Type 0 where
  pub held : world.manifest_version r.pkg ≡ some r.current_version
  pub old_version : SemVer
  pub new_version : SemVer
  pub from_parses : parse r.current_version ≡ ok old_version
  pub bumped : checked_bump old_version r.release_type ≡ ok new_version
  pub next_text : r.next_version ≡ string new_version
  pub tag_text : r.tag ≡ tag_for config r.pkg r.next_version

read_manifest_version-ok :
    (world : World) (pkg : NormalizedPackageConfig) {v : Text}
    → read_manifest_version world pkg ≡ ok v
    → world.manifest_version pkg ≡ some v
unfolding read_manifest_version
read_manifest_version-ok world pkg h = ground arith

module _ (world : World) (config : NormalizedConfig) where
  pub build_release-IsBump :
      (pkg : NormalizedPackageConfig) (commits : List ParsedCommit) (t : ReleaseType)
      (latest : Text) (triggered : Bool) {r : PackageRelease}
      → build_release world config pkg commits t latest triggered ≡ ok r
      → (r.pkg ≡ pkg) × (r.release_type ≡ t) × IsBump world config r
  unfolding build_release
  build_release-IsBump pkg commits t latest triggered {r} h =
      let release : Text → SemVer → PackageRelease = λ current next. record {
        pkg = pkg;
        current_version = current;
        next_version = string next;
        release_type = t;
        dependency_triggered = triggered;
        latest_tag = latest;
        tag = tag_for config pkg (string next);
        commits = commits;
        notes = generate_notes (string next) (world.today pkg) commits;
      } in
      let with_parsed : Text → SemVer → Result Error PackageRelease = λ current parsed.
        from_version (checked_bump parsed t) >>= λ next. ok (release current next) in
      let (current, e1, h1) =
        bind-eq-ok (read_manifest_version world pkg)
          (λ current. from_version (parse current) >>= with_parsed current) {b = r} h in
      let (parsed, e2, h2) =
        bind-eq-ok (from_version (parse current)) (with_parsed current) {b = r} h1 in
      let (next, e3, h3) =
        bind-eq-ok (from_version (checked_bump parsed t)) (λ next. ok (release current next))
          {b = r} h2 in
      let held = read_manifest_version-ok world pkg e1 in
      subst (λ x. (x.pkg ≡ pkg) × (x.release_type ≡ t) × IsBump world config x) (ok-injective h3)
        (
          refl,
          refl,
          record {
            held = held;
            old_version = parsed;
            new_version = next;
            from_parses = from_version-ok (parse current) e2;
            bumped = from_version-ok (checked_bump parsed t) e3;
            next_text = refl;
            tag_text = refl;
          },
        )

-- the packages with a release type
abbrev pub planned_packages :
    TextMap ReleaseType → List NormalizedPackageConfig → List NormalizedPackageConfig
planned_packages types = filter (λ p. is_planned types p.name)

-- A bump of the release type that its package has.
abbrev pub IsRelease : World → NormalizedConfig → TextMap ReleaseType → PackageRelease → Type 0
IsRelease world config types r =
    (lookup r.pkg.name types ≡ some r.release_type) × IsBump world config r

filter-keeps :
    (types : TextMap ReleaseType) (p : NormalizedPackageConfig)
    (packages : List NormalizedPackageConfig)
    → is_planned types p.name ≡ true
    → planned_packages types (p ∷ packages) ≡ p ∷ planned_packages types packages
filter-keeps types p packages h = ground arith

filter-keeps-not :
    (types : TextMap ReleaseType) (p : NormalizedPackageConfig)
    (packages : List NormalizedPackageConfig)
    → is_planned types p.name ≡ false
    → planned_packages types (p ∷ packages) ≡ planned_packages types packages
filter-keeps-not types p packages h = ground arith

module _ (world : World) (config : NormalizedConfig) (latest_tags : TextMap Text)
    (planned : Planned) (progress : Progress) where
  -- What stands for the releases of the packages: one for each with a release type, in order.
  pub build_all-IsRelease :
      (packages : List NormalizedPackageConfig) {releases : List PackageRelease}
      → build_all world config latest_tags planned progress packages ≡ ok releases
      → (map (λ r. r.pkg) releases ≡ planned_packages progress.types packages)
        × All (IsRelease world config progress.types) releases
  unfolding build_all release_for
  build_all-IsRelease [] h =
      subst (λ x. (map (λ r. r.pkg) x ≡ []) × All (IsRelease world config progress.types) x)
        (ok-injective h) (refl, tt)
  build_all-IsRelease (pkg ∷ packages) {releases} h =
      let rest = build_all world config latest_tags planned progress packages in
      elim (Option-cases (lookup pkg.name progress.types)) [
        | inl e ↦
            let (list, every) = build_all-IsRelease packages (rw (build_all, e) at h) in
            (list ∙ sym (filter-keeps-not progress.types pkg packages (ground arith)), every)
        | inr (t, e) ↦
            let (release, e1, h1) =
              bind-eq-ok (release_for world config latest_tags planned progress pkg t)
                (λ release. rest >>= λ releases. ok (release ∷ releases)) {b = releases}
                (rw (build_all, e) at h) in
            let (more, e2, h2) = bind-eq-ok rest (λ more. ok (release ∷ more)) {b = releases} h1 in
            let (same, t_same, bump) =
              build_release-IsBump world config pkg
                (unique_commits (commits_of (lookup pkg.name planned.commits))) t
                (text_or_empty (lookup pkg.name latest_tags)) (contains progress.triggered pkg.name)
                {r = release} e1 in
            let (list, every) = build_all-IsRelease packages e2 in
            let keeps = filter-keeps progress.types pkg packages (ground arith) in
            subst
              (λ x.
                (map (λ r. r.pkg) x ≡ planned_packages progress.types (pkg ∷ packages))
                × All (IsRelease world config progress.types) x)
              (ok-injective h2)
              (
                ap (λ x. x ∷ map (λ r. r.pkg) more) same ∙ ap (◌∷◌ pkg) list ∙ sym keeps,
                (
                  (
                    subst
                        (λ (x : NormalizedPackageConfig).
                          lookup x.name progress.types ≡ some release.release_type)
                        (sym same) (e ∙ ap some (sym t_same)),
                    bump,
                  ),
                  every,
                ),
              )
      ]
