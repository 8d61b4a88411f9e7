-- ===== src/Plan/Create.antt =====
-- CreatePlan of internal/plan/plan.go, and the plan of a single package.
use hooversion.Common.{false, List, [], ◌∷◌, Option, if◌then◌else◌, Result, ok, ◌>>=◌}
use hooversion.Git.{head_sha}
use hooversion.Plan.Independent.{create_independent_plan}
use hooversion.Plan.{
  World, Error, from_git, tag_pattern_for, latest_tag_or_empty, collect_commits, release_rules,
  release_types_over, build_release,
}
use hooversion.Semver.{highest}
use hooversion.Text.Maps.{TextMap}
use hooversion.Text.{Text}
use hooversion.Types.{
  ReleaseType, is_unset, ParsedCommit, CommitPolicy, NormalizedPackageConfig, NormalizedConfig,
  PackageRelease, ReleasePlan,
}

-- the releases of a single package
unfoldable pub single_releases :
    World
    → NormalizedConfig
    → NormalizedPackageConfig
    → Text
    → List ParsedCommit
    → TextMap ReleaseType
    → Result Error (List PackageRelease)
single_releases world config pkg latest commits rules =
    let release_type = highest (release_types_over rules commits) in
    if is_unset release_type
    then ok []
    else build_release world config pkg commits release_type latest false >>= λ release.
        ok (release ∷ [])

-- createSinglePackagePlan
unfoldable pub create_single_package_plan :
    World
    → NormalizedConfig
    → NormalizedPackageConfig
    → Text
    → Text
    → TextMap ReleaseType
    → Result Error ReleasePlan
create_single_package_plan world config pkg branch source rules =
    latest_tag_or_empty world.run (tag_pattern_for config pkg) >>= λ latest.
    collect_commits world.run latest source >>= λ commits.
    single_releases world config pkg latest commits rules >>= λ releases. ok (record {
      branch = branch;
      source_sha = source;
      independent = false;
      releases = releases;
      unmatched_commits = [];
    })

-- CreatePlanWithEnv
unfoldable pub create_plan :
    World → NormalizedConfig → Text → Option CommitPolicy → Result Error ReleasePlan
create_plan world config branch policy = from_git (head_sha world.run) >>= λ source.
    elim config.packages [
      | [] ↦ create_independent_plan world config branch source (release_rules policy)
      | pkg ∷ more ↦ elim more [
        | [] ↦ create_single_package_plan world config pkg branch source (release_rules policy)
        | _ ∷ _ ↦ create_independent_plan world config branch source (release_rules policy)
      ]
    ]
