-- ===== src/Routing.antt =====
-- internal/routing/routing.go: commits are assigned to packages by scope and by touched files. The
-- sets of names are lists of texts, and the result is a map from package names.
pub mod Ownership
pub mod Affected
pub mod Examples
use hooversion.Common.{
  Bool, true, false, not, ◌&&◌, ◌||◌, List, [], ◌∷◌, ◌++◌, Option, none, some, any, if◌then◌else◌,
}
use hooversion.Text.Maps.{TextMap, lookup, insert}
use hooversion.Text.Paths.{clean, rel, leads_down}
use hooversion.Text.{Text, codes, text_eq, contains, split, trim_space}
use hooversion.Types.{NormalizedPackageConfig, NormalizedConfig, ParsedCommit}

-- isInside: `rel` gives no text that is "", so the first disjunct never holds
unfoldable pub is_inside : Text → Text → Bool
is_inside file package_path = leads_down (rel (clean package_path) (clean file))

abbrev pub is_root : NormalizedPackageConfig → Bool
is_root pkg = text_eq pkg.path (codes ".")

-- fileBelongsToPackage
unfoldable pub file_belongs_to_package :
    Text → NormalizedPackageConfig → List NormalizedPackageConfig → Bool
file_belongs_to_package file pkg packages =
    if is_root pkg
    then not (any (λ other. not (is_root other) && is_inside file other.path) packages)
    else is_inside file pkg.path

-- containsString(pkg.Scopes, part) || pkg.Name == part
unfoldable pub answers_to : NormalizedPackageConfig → Text → Bool
answers_to pkg part = contains pkg.scopes part || text_eq pkg.name part

-- the loop over the packages for one part of the scope; `seen` has the names in `result`
part_targets : Text → List NormalizedPackageConfig → List Text → List Text
part_targets part [] result = result
part_targets part (pkg ∷ packages) result = part_targets part packages (
    if answers_to pkg part && not (contains result pkg.name)
    then result ++ pkg.name ∷ []
    else result)

parts_targets : List Text → List NormalizedPackageConfig → List Text → List Text
unfolding part_targets
parts_targets [] packages result = result
parts_targets (part ∷ parts) packages result = parts_targets parts packages (
    if text_eq (trim_space part) [] then result else part_targets (trim_space part) packages result)

-- scopeTargets
unfoldable pub scope_targets : Text → List NormalizedPackageConfig → List Text
unfolding parts_targets
scope_targets scope packages =
    if text_eq scope [] then [] else parts_targets (split scope b',') packages []

-- the names that one file adds, for the packages left to try
file_names :
    Text → List NormalizedPackageConfig → List NormalizedPackageConfig → List Text → List Text
file_names file packages [] names = names
file_names file packages (pkg ∷ rest) names =
    file_names file packages rest
      (if file_belongs_to_package file pkg packages then pkg.name ∷ names else names)

files_names : List Text → List NormalizedPackageConfig → List Text → List Text
unfolding file_names
files_names [] packages names = names
files_names (file ∷ files) packages names =
    files_names files packages (file_names file packages packages names)

-- the keys of `names` for one commit
unfoldable pub commit_names : ParsedCommit → List NormalizedPackageConfig → List Text
unfolding files_names
commit_names commit packages =
    files_names commit.files packages (scope_targets commit.scope packages)

abbrev pub commits_of : Option (List ParsedCommit) → List ParsedCommit
commits_of none = []
commits_of (some commits) = commits

-- affected[name], nil for a missing key
abbrev pub affected_for : Text → TextMap (List ParsedCommit) → List ParsedCommit
affected_for name affected = commits_of (lookup name affected)

-- the loop that appends a commit for each package among its names
unfoldable pub record_commit :
    ParsedCommit
    → List Text
    → List NormalizedPackageConfig
    → TextMap (List ParsedCommit)
    → TextMap (List ParsedCommit)
record_commit commit names [] affected = affected
record_commit commit names (pkg ∷ packages) affected = record_commit commit names packages (
    if contains names pkg.name
    then insert pkg.name (affected_for pkg.name affected ++ commit ∷ []) affected
    else affected)

affected_from :
    List NormalizedPackageConfig
    → List ParsedCommit
    → TextMap (List ParsedCommit)
    → TextMap (List ParsedCommit)
affected_from packages [] affected = affected
affected_from packages (commit ∷ commits) affected =
    affected_from packages commits
      (record_commit commit (commit_names commit packages) packages affected)

-- DirectAffected
unfoldable pub direct_affected : NormalizedConfig → List ParsedCommit → TextMap (List ParsedCommit)
unfolding affected_from
direct_affected config commits = affected_from config.packages commits []
