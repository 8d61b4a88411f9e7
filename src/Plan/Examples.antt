-- ===== src/Plan/Examples.antt =====
-- Tests of plan.go, and its theorems at concrete packages and commits.
use hooversion.Common.{
  ◌⊎◌, ◌≡◌, ◌↔◌, inl, inr, refl, true, false, not, ◌&&◌, [], ◌∷◌, none, some, map, All, Member,
  Result, ok, err, suc, length, if◌then◌else◌,
}
use hooversion.Plan.Assigned.{some_commit, planned_of-commits, planned_of-highest}
use hooversion.Plan.Attribution.{listed, planned_type}
use hooversion.Plan.Blocking.{homeless}
use hooversion.Plan.Builds.{planned_packages, IsRelease}
use hooversion.Plan.Dependents.{ToRelease, started, propagate-ToRelease}
use hooversion.Plan.Independent.{
  Gathered, is_planned, names_of, releases_something, add_direct, direct_from, candidate_list,
  candidates_of, planned_of, add_release, plan_commits, trigger, trigger_all, propagate, unmatched,
  release_for, build_all, plan_from,
}
use hooversion.Plan.Outcome.{progress_for, plan_from-homeless, plan_from-releases}
use hooversion.Plan.Patches.{propagate-patch}
use hooversion.Plan.{
  World, Error, render_tag, tag_format_for, tag_for, release_rules, release_type_of,
  release_types_over, unique_commits, build_release,
}
use hooversion.Routing.Affected.{touches}
use hooversion.Routing.Examples.{config, app, core, fix_core, app_and_core-DistinctNames}
use hooversion.Routing.{
  direct_affected, record_commit, commit_names, scope_targets, answers_to, file_belongs_to_package,
  is_inside,
}
use hooversion.Semver.{
  match_version, has_leading_zero, atoi, parse, checked_bump, string, highest, format_int,
}
use hooversion.Text.Decimal.{value_from, is_digit}
use hooversion.Text.Maps.{lookup, insert}
use hooversion.Text.Paths.{clean, rel, rel_elements, leads_down, is_abs}
use hooversion.Text.{
  codes, text_eq, contains, split, trim_space, has_prefix, replace_all, is_space, take_while,
  drop_while,
}
use hooversion.Types.{ParsedCommit, ReleasePlan, patch, minor, unset, no_release, is_unset}

tags :
    (render_tag (codes "${name}@v${version}") (codes "core") (codes "1.2.3") ≡ codes "core@v1.2.3")
    × (tag_for config core (codes "2.0.0") ≡ codes "core@v2.0.0")
unfolding render_tag tag_for tag_format_for replace_all has_prefix
tags = (refl, refl)

rules_of_policy :
    (release_type_of
        (release_rules (
          some (record {
            allowed_types = [];
            release_types = (codes "fix", no_release) ∷ (codes "docs", minor) ∷ [];
          })))
        fix_core
      ≡ unset)
    × (release_type_of (release_rules none) fix_core ≡ patch)
unfolding release_type_of release_rules lookup insert text_eq
rules_of_policy = (refl, refl)

-- core has a fix since its latest tag, and app depends on core
abbrev found : Gathered
found = record {
  latest_tags = (codes "app", codes "app@v1.0.0") ∷ (codes "core", codes "core@v1.0.0") ∷ [];
  eligible = (codes "app", codes "a1" ∷ []) ∷ (codes "core", codes "a1" ∷ []) ∷ [];
  candidates = record { order = codes "a1" ∷ []; commits = (codes "a1", fix_core) ∷ [] };
}

abbrev lost : ParsedCommit
lost = record fix_core { files = [] }

abbrev found_lost : Gathered
found_lost = record found {
  candidates = record { order = codes "a1" ∷ []; commits = (codes "a1", lost) ∷ [] };
}

abbrev world : World
world = record {
  run = λ args input. record { stdout = []; stderr = []; code = 0; failure = none };
  manifest_version = λ pkg. some (codes "1.2.3");
  today = λ pkg. codes "2024-05-01";
}

abbrev plan_of : Result Error ReleasePlan → ReleasePlan
plan_of (ok plan) = plan
plan_of (err e) = record {
  branch = [];
  source_sha = [];
  independent = false;
  releases = [];
  unmatched_commits = [];
}

abbrev outcome : Gathered → Result Error ReleasePlan
outcome = plan_from world config (codes "main") (codes "c3") (release_rules none)

planned_of-commits_example :
    Member fix_core (listed core.name (planned_of (release_rules none) config found)) ↔ (
      Member fix_core (candidates_of found)
      × (releases_something (release_rules none) fix_core ≡ true)
      × (contains (names_of (lookup core.name found.eligible)) fix_core.hash ≡ true)
      × (some_commit (touches config.packages core) fix_core.hash (candidates_of found) ≡ true))
planned_of-commits_example =
    planned_of-commits (release_rules none) config found core fix_core app_and_core-DistinctNames
      (inr (inl refl))

planned_of-highest_example :
    planned_type core.name (planned_of (release_rules none) config found)
    ≡ highest (
        release_types_over
          (release_rules none)
          (listed core.name (planned_of (release_rules none) config found)))
planned_of-highest_example = planned_of-highest (release_rules none) config found core.name

propagate-ToRelease_example :
    (is_planned
        (propagate
          (suc (length config.packages))
          config.packages
          (started ((core.name, patch) ∷ []))).types
        app.name
      ≡ true)
    ↔ ToRelease config.packages ((core.name, patch) ∷ []) app.name
propagate-ToRelease_example = propagate-ToRelease config.packages ((core.name, patch) ∷ []) app.name

propagate-patch_example :
    (lookup app.name (propagate 3 config.packages (started ((core.name, minor) ∷ []))).types ≡ (
      if is_planned ((core.name, minor) ∷ []) app.name
      then lookup app.name ((core.name, minor) ∷ [])
      else if contains
          (propagate 3 config.packages (started ((core.name, minor) ∷ []))).triggered
          app.name
      then some patch
      else none))
    × (contains (propagate 3 config.packages (started ((core.name, minor) ∷ []))).triggered app.name
        ≡ (is_planned
              (propagate 3 config.packages (started ((core.name, minor) ∷ []))).types
              app.name
            && not (is_planned ((core.name, minor) ∷ []) app.name)))
propagate-patch_example = propagate-patch 3 config.packages ((core.name, minor) ∷ []) app.name

lost_outcome : outcome found_lost ≡ ok (plan_of (outcome found_lost))
unfolding plan_from candidate_list direct_from direct_affected record_commit commit_names
    scope_targets split trim_space text_eq answers_to contains file_belongs_to_package is_inside
    clean is_abs has_prefix rel rel_elements leads_down lookup insert unmatched release_rules
    release_type_of is_unset add_direct
lost_outcome = refl

plan_from-homeless_example :
    ((plan_of (outcome found_lost)).unmatched_commits
      ≡ homeless (release_rules none) config found_lost)
    × ((homeless (release_rules none) config found_lost ≡ [])
        ⊎ ((plan_of (outcome found_lost)).releases ≡ []))
plan_from-homeless_example =
    plan_from-homeless world config (codes "main") (codes "c3") (release_rules none) found_lost
      (plan_of (outcome found_lost)) app_and_core-DistinctNames lost_outcome

outcome-found : outcome found ≡ ok (plan_of (outcome found))
unfolding plan_from candidate_list direct_from direct_affected record_commit commit_names
    scope_targets split trim_space text_eq answers_to contains file_belongs_to_package is_inside
    clean is_abs has_prefix rel rel_elements leads_down lookup insert unmatched release_rules
    release_type_of is_unset add_direct build_all release_for build_release parse checked_bump
    string format_int plan_commits add_release propagate trigger trigger_all take_while drop_while
    is_digit value_from highest is_space unique_commits match_version has_leading_zero atoi
outcome-found = refl

found_all_taken : homeless (release_rules none) config found ≡ []
unfolding candidate_list split trim_space text_eq answers_to contains file_belongs_to_package
    is_inside clean is_abs has_prefix rel rel_elements leads_down lookup release_rules
    release_type_of is_unset insert
found_all_taken = refl

plan_from-releases_example :
    (map (λ r. r.pkg) (plan_of (outcome found)).releases
      ≡ planned_packages (progress_for (release_rules none) config found).types config.packages)
    × All
        (IsRelease world config (progress_for (release_rules none) config found).types)
        (plan_of (outcome found)).releases
plan_from-releases_example =
    plan_from-releases world config (codes "main") (codes "c3") (release_rules none) found
      (plan_of (outcome found)) app_and_core-DistinctNames outcome-found found_all_taken
