-- ===== src/Plan.antt =====
-- internal/plan/plan.go: the release plan, from the history of the repository and the manifests.
-- Git, the clock and the text that each manifest holds are the fields of a World. The plan of
-- several packages is made in Independent, and the choice between the two kinds in Create.
pub mod Independent
pub mod Propagation
pub mod Dependents
pub mod Patches
pub mod Attribution
pub mod Assigned
pub mod Blocking
pub mod Builds
pub mod Outcome
pub mod Create
mod Examples
use hooversion.Changelog.{generate_notes}
use hooversion.Commit.{is_ignored_subject, parse}
use hooversion.Common.{
  Bool, true, false, List, [], ◌∷◌, ◌++◌, Option, none, some, if◌then◌else◌, map, length, leb,
  Result, ok, err, ◌>>=◌,
}
use hooversion.Git.Log.{commits_between}
use hooversion.Git.{Runner, latest_tag, no_tag}
use hooversion.Semver.{checked_bump, string}
use hooversion.Text.Maps.{TextMap, lookup, insert}
use hooversion.Text.{Text, codes, contains, replace_all}
use hooversion.Types.{
  ReleaseType, major, minor, patch, no_release, unset, RawCommit, ParsedCommit, CommitPolicy,
  NormalizedPackageConfig, NormalizedConfig, PackageRelease,
}

pub data Error : Type 0 where
  git_error : hooversion.Git.Error → Error
  version_error : hooversion.Semver.Error → Error
  manifest_error : Error

-- What planning reads: Git, the version that the manifest of a package holds, if it can be read,
-- and the day on which the notes of the package are made.
pub record World : Type 0 where
  pub run : Runner
  pub manifest_version : NormalizedPackageConfig → Option Text
  pub today : NormalizedPackageConfig → Text

abbrev pub from_git {ℓ} : {A : Type ℓ} → Result hooversion.Git.Error A → Result Error A
from_git (ok a) = ok a
from_git (err e) = err (git_error e)

abbrev pub from_version {ℓ} : {A : Type ℓ} → Result hooversion.Semver.Error A → Result Error A
from_version (ok a) = ok a
from_version (err e) = err (version_error e)

-- renderTag
unfoldable pub render_tag : Text → Text → Text → Text
render_tag format name version =
    replace_all (replace_all format (codes "${name}") name) (codes "${version}") version

-- tagFormatFor
unfoldable pub tag_format_for : NormalizedConfig → Text
tag_format_for config =
    if leb 2 (length config.packages) then config.independent_tag_format else config.tag_format

-- TagPatternFor
unfoldable pub tag_pattern_for : NormalizedConfig → NormalizedPackageConfig → Text
tag_pattern_for config pkg = render_tag (tag_format_for config) pkg.name (codes "[0-9]*")

-- TagFor
unfoldable pub tag_for : NormalizedConfig → NormalizedPackageConfig → Text → Text
tag_for config pkg version = render_tag (tag_format_for config) pkg.name version

-- latestTagOrEmpty
unfoldable pub latest_tag_or_empty : Runner → Text → Result Error Text
latest_tag_or_empty run pattern = elim (latest_tag run pattern) [
  | ok tag ↦ ok tag
  | err no_tag ↦ ok []
  | err e ↦ err (git_error e)
]

-- the loop of collectCommits
unfoldable pub parsed_commits : List RawCommit → List ParsedCommit
parsed_commits [] = []
parsed_commits (raw ∷ raws) =
    if is_ignored_subject raw.subject then parsed_commits raws else parse raw ∷ parsed_commits raws

-- collectCommits; Parse does not read its policy
unfoldable pub collect_commits : Runner → Text → Text → Result Error (List ParsedCommit)
collect_commits run from to =
    from_git (commits_between run from to) >>= λ raws. ok (parsed_commits raws)

abbrev default_rules : TextMap ReleaseType
default_rules = (codes "feat", minor) ∷ (codes "fix", patch) ∷ (codes "perf", patch) ∷ []

-- a value of types.None becomes ""
abbrev pub without_none : ReleaseType → ReleaseType
without_none no_release = unset
without_none t = t

-- the loop over the policy, in any order: its keys differ
add_rules : TextMap ReleaseType → TextMap ReleaseType → TextMap ReleaseType
add_rules [] rules = rules
add_rules ((key, value) ∷ entries) rules = add_rules entries (insert key (without_none value) rules)

-- releaseRules
unfoldable pub release_rules : Option CommitPolicy → TextMap ReleaseType
unfolding add_rules
release_rules none = default_rules
release_rules (some policy) = add_rules policy.release_types default_rules

-- rules[key], "" for a missing key
abbrev pub type_or_unset : Option ReleaseType → ReleaseType
type_or_unset none = unset
type_or_unset (some t) = t

-- releaseTypeOf
unfoldable pub release_type_of : TextMap ReleaseType → ParsedCommit → ReleaseType
release_type_of rules parsed =
    if parsed.breaking then major else type_or_unset (lookup parsed.kind rules)

-- releaseTypesOver
abbrev pub release_types_over : TextMap ReleaseType → List ParsedCommit → List ReleaseType
release_types_over rules [] = []
release_types_over rules (parsed ∷ commits) =
    release_type_of rules parsed ∷ release_types_over rules commits

-- the loop of uniqueCommits
unique_from : List Text → List ParsedCommit → List ParsedCommit
unique_from seen [] = []
unique_from seen (parsed ∷ commits) =
    let kept = unique_from (parsed.hash ∷ seen) commits in
    if contains seen parsed.hash then unique_from seen commits else parsed ∷ kept

-- uniqueCommits
unfoldable pub unique_commits : List ParsedCommit → List ParsedCommit
unfolding unique_from
unique_commits = unique_from []

-- readManifestVersion
read_manifest_version : World → NormalizedPackageConfig → Result Error Text
read_manifest_version world pkg = elim (world.manifest_version pkg) [
  | none ↦ err manifest_error
  | some version ↦ ok version
]

-- buildRelease
unfoldable pub build_release :
    World
    → NormalizedConfig
    → NormalizedPackageConfig
    → List ParsedCommit
    → ReleaseType
    → Text
    → Bool
    → Result Error PackageRelease
unfolding read_manifest_version
build_release world config pkg commits release_type latest triggered =
    read_manifest_version world pkg >>= λ current.
    from_version (hooversion.Semver.parse current) >>= λ parsed.
    from_version (checked_bump parsed release_type) >>= λ next. ok (record {
      pkg = pkg;
      current_version = current;
      next_version = string next;
      release_type = release_type;
      dependency_triggered = triggered;
      latest_tag = latest;
      tag = tag_for config pkg (string next);
      commits = commits;
      notes = generate_notes (string next) (world.today pkg) commits;
    })
