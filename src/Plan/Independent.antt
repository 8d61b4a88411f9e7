-- ===== src/Plan/Independent.antt =====
-- createIndependentPlan of internal/plan/plan.go: its maps, and its loops one by one.
use hooversion.Common.{
  ℕ, zero, suc, Bool, true, false, not, ◌&&◌, List, [], ◌∷◌, ◌++◌, Option, none, some,
  if◌then◌else◌, any, filter, length, Result, ok, ◌>>=◌,
}
use hooversion.Plan.{
  World, Error, tag_pattern_for, latest_tag_or_empty, collect_commits, release_type_of,
  type_or_unset, unique_commits, build_release,
}
use hooversion.Routing.{affected_for, commits_of, direct_affected}
use hooversion.Semver.{highest}
use hooversion.Text.Maps.{TextMap, lookup, insert}
use hooversion.Text.{Text, contains}
use hooversion.Types.{
  ReleaseType, patch, is_unset, ParsedCommit, NormalizedPackageConfig, NormalizedConfig,
  PackageRelease, ReleasePlan,
}

-- candidateOrder and candidateCommits
pub record Candidates : Type 0 where
  pub order : List Text
  pub commits : TextMap ParsedCommit

-- latestTags, eligibleByPackage and the candidates
pub record Gathered : Type 0 where
  pub latest_tags : TextMap Text
  pub eligible : TextMap (List Text)
  pub candidates : Candidates

abbrev pub is_key {ℓ} : {V : Type ℓ} → TextMap V → Text → Bool
is_key m k = elim (lookup k m) [ none ↦ false | some v ↦ true ]

-- the loop over the commits of one package
unfoldable pub add_candidates : List ParsedCommit → Candidates → Candidates
add_candidates [] found = found
add_candidates (parsed ∷ commits) found = add_candidates commits (record {
  order = if is_key found.commits parsed.hash then found.order else found.order ++ parsed.hash ∷ [];
  commits = insert parsed.hash parsed found.commits;
})

abbrev pub hashes : List ParsedCommit → List Text
hashes [] = []
hashes (parsed ∷ commits) = parsed.hash ∷ hashes commits

-- the loop over the packages that reads their histories
unfoldable pub gather :
    World
    → NormalizedConfig
    → Text
    → List NormalizedPackageConfig
    → Gathered
    → Result Error Gathered
gather world config source [] found = ok found
gather world config source (pkg ∷ packages) found =
    let rest = gather world config source packages in
    latest_tag_or_empty world.run (tag_pattern_for config pkg) >>= λ latest.
    collect_commits world.run latest source >>= λ commits. rest (record {
      latest_tags = insert pkg.name latest found.latest_tags;
      eligible = insert pkg.name (hashes commits) found.eligible;
      candidates = add_candidates commits found.candidates;
    })

-- candidateCommits[hash], the zero value for a missing key
abbrev pub commit_or_zero : Option ParsedCommit → ParsedCommit
commit_or_zero (some parsed) = parsed
commit_or_zero none = record {
  hash = [];
  subject = [];
  body = [];
  files = [];
  kind = [];
  scope = [];
  breaking = false;
  breaking_description = [];
  description = [];
  conforms = false;
}

unfoldable pub candidate_list : List Text → TextMap ParsedCommit → List ParsedCommit
candidate_list [] commits = []
candidate_list (hash ∷ order) commits =
    commit_or_zero (lookup hash commits) ∷ candidate_list order commits

-- directPackages and inAnyDirect
pub record Direct : Type 0 where
  pub packages_of : TextMap (List Text)
  pub in_any : List Text

abbrev pub names_of : Option (List Text) → List Text
names_of none = []
names_of (some names) = names

-- the loop over affected[pkg.Name]
unfoldable pub add_direct : Text → List Text → List ParsedCommit → Direct → Direct
add_direct name eligible [] direct = direct
add_direct name eligible (parsed ∷ commits) direct = add_direct name eligible commits (record {
  packages_of =
      if contains eligible parsed.hash
      then insert parsed.hash (names_of (lookup parsed.hash direct.packages_of) ++ name ∷ [])
          direct.packages_of
      else direct.packages_of;
  in_any = parsed.hash ∷ direct.in_any;
})

unfoldable pub direct_from :
    TextMap (List Text)
    → TextMap (List ParsedCommit)
    → List NormalizedPackageConfig
    → Direct
    → Direct
direct_from eligible affected [] direct = direct
direct_from eligible affected (pkg ∷ packages) direct = direct_from eligible affected packages (
    add_direct pkg.name (names_of (lookup pkg.name eligible)) (affected_for pkg.name affected)
      direct)

abbrev pub releases_something : TextMap ReleaseType → ParsedCommit → Bool
releases_something rules parsed = not (is_unset (release_type_of rules parsed))

-- unmatchedCommits
unfoldable pub unmatched : TextMap ReleaseType → Direct → List ParsedCommit → List ParsedCommit
unmatched rules direct =
    filter (λ parsed. releases_something rules parsed && not (contains direct.in_any parsed.hash))

-- releaseTypes and releaseCommits
pub record Planned : Type 0 where
  pub types : TextMap ReleaseType
  pub commits : TextMap (List ParsedCommit)

-- the loop over the packages of one commit
unfoldable pub add_release : ReleaseType → ParsedCommit → List Text → Planned → Planned
add_release t parsed [] planned = planned
add_release t parsed (name ∷ names) planned = add_release t parsed names (record {
  types = insert name (highest (type_or_unset (lookup name planned.types) ∷ t ∷ [])) planned.types;
  commits = insert name (commits_of (lookup name planned.commits) ++ parsed ∷ []) planned.commits;
})

-- the loop over the candidates
unfoldable pub plan_commits :
    TextMap ReleaseType → TextMap (List Text) → List ParsedCommit → Planned → Planned
plan_commits rules packages_of [] planned = planned
plan_commits rules packages_of (parsed ∷ candidates) planned =
    plan_commits rules packages_of candidates (
      if is_unset (release_type_of rules parsed)
      then planned
      else add_release (release_type_of rules parsed) parsed
          (names_of (lookup parsed.hash packages_of)) planned)

-- releaseTypes, dependencyTriggered and changed
pub record Progress : Type 0 where
  pub types : TextMap ReleaseType
  pub triggered : List Text
  pub changed : Bool

abbrev pub is_planned : TextMap ReleaseType → Text → Bool
is_planned types name = is_key types name

-- the body of the inner loop
unfoldable pub trigger : NormalizedPackageConfig → Progress → Progress
trigger pkg progress =
    if is_planned progress.types pkg.name
    then progress
    else if any (is_planned progress.types) pkg.dependencies
    then record {
      types = insert pkg.name patch progress.types;
      triggered = pkg.name ∷ progress.triggered;
      changed = true;
    }
    else progress

-- one pass over the packages
unfoldable pub trigger_all : List NormalizedPackageConfig → Progress → Progress
trigger_all [] progress = progress
trigger_all (pkg ∷ packages) progress = trigger_all packages (trigger pkg progress)

-- the loop `for changed`; one more than the number of packages is enough fuel
unfoldable pub propagate : ℕ → List NormalizedPackageConfig → Progress → Progress
propagate zero packages progress = progress
propagate (suc fuel) packages progress =
    let next = trigger_all packages (record progress { changed = false }) in
    elim next.changed [ true ↦ propagate fuel packages next | false ↦ next ]

-- latestTags[name]
abbrev pub text_or_empty : Option Text → Text
text_or_empty none = []
text_or_empty (some text) = text

-- the release of a package with a release type
unfoldable pub release_for :
    World
    → NormalizedConfig
    → TextMap Text
    → Planned
    → Progress
    → NormalizedPackageConfig
    → ReleaseType
    → Result Error PackageRelease
release_for world config latest_tags planned progress pkg release_type =
    build_release world config pkg (unique_commits (commits_of (lookup pkg.name planned.commits)))
      release_type (text_or_empty (lookup pkg.name latest_tags))
      (contains progress.triggered pkg.name)

-- the loop over the packages that builds the releases
unfoldable pub build_all :
    World
    → NormalizedConfig
    → TextMap Text
    → Planned
    → Progress
    → List NormalizedPackageConfig
    → Result Error (List PackageRelease)
build_all world config latest_tags planned progress [] = ok []
build_all world config latest_tags planned progress (pkg ∷ packages) =
    let rest = build_all world config latest_tags planned progress packages in
    elim (lookup pkg.name progress.types) [
      | none ↦ rest
      | some release_type ↦
          release_for world config latest_tags planned progress pkg release_type >>= λ release.
          rest >>= λ releases. ok (release ∷ releases)
    ]

abbrev pub nothing_found : Gathered
nothing_found = record {
  latest_tags = [];
  eligible = [];
  candidates = record { order = []; commits = [] };
}

-- the candidates of what was gathered, and the packages that they concern directly
abbrev pub candidates_of : Gathered → List ParsedCommit
candidates_of found = candidate_list found.candidates.order found.candidates.commits

abbrev pub direct_of : NormalizedConfig → Gathered → Direct
direct_of config found =
    direct_from found.eligible (direct_affected config (candidates_of found)) config.packages
      (record { packages_of = []; in_any = [] })

abbrev pub planned_of : TextMap ReleaseType → NormalizedConfig → Gathered → Planned
planned_of rules config found =
    plan_commits rules (direct_of config found).packages_of (candidates_of found)
      (record { types = []; commits = [] })

abbrev pub progress_of : NormalizedConfig → Planned → Progress
progress_of config planned =
    propagate (suc (length config.packages)) config.packages
      (record { types = planned.types; triggered = []; changed = true })

-- what follows the gathering
unfoldable pub plan_from :
    World
    → NormalizedConfig
    → Text
    → Text
    → TextMap ReleaseType
    → Gathered
    → Result Error ReleasePlan
plan_from world config branch source rules found =
    let blocked = unmatched rules (direct_of config found) (candidates_of found) in
    let planned = planned_of rules config found in
    elim blocked [
      | parsed ∷ more ↦ ok (record {
        branch = branch;
        source_sha = source;
        independent = true;
        releases = [];
        unmatched_commits = parsed ∷ more;
      })
      | [] ↦
          build_all world config found.latest_tags planned (progress_of config planned)
            config.packages
          >>= λ releases. ok (record {
            branch = branch;
            source_sha = source;
            independent = true;
            releases = releases;
            unmatched_commits = [];
          })
    ]

-- createIndependentPlan
unfoldable pub create_independent_plan :
    World → NormalizedConfig → Text → Text → TextMap ReleaseType → Result Error ReleasePlan
create_independent_plan world config branch source rules =
    gather world config source config.packages nothing_found
    >>= plan_from world config branch source rules
