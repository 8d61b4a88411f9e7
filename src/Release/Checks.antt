-- ===== src/Release/Checks.antt =====
-- internal/release/release.go: ValidateWithEnv, the checks before any change.
pub mod Accepted
use hooversion.Common.{
  ℕ, Bool, true, false, not, List, [], ◌∷◌, ◌++◌, Option, none, some, if◌then◌else◌, map, Result,
  ok, err, ◌>>=◌, ◌>>◌,
}
use hooversion.Changelog.{hash7}
use hooversion.Git.Remote.{tag_exists}
use hooversion.Git.{Runner}
use hooversion.Release.{
  Error, from_git, uncontained_path, duplicate_tag, branch_not_allowed, unmatched_commits,
  tag_already_exists,
}
use hooversion.Text.Maps.{TextMap, lookup, insert}
use hooversion.Text.{Text, codes, contains}
use hooversion.Types.{
  ParsedCommit, NormalizedPackageConfig, NormalizedConfig, PackageRelease, ReleasePlan,
}

-- the paths that the release will write
unfoldable pub package_paths : List NormalizedPackageConfig → List Text
package_paths [] = []
package_paths (pkg ∷ pkgs) = pkg.manifest ∷ pkg.changelog ∷ package_paths pkgs

unfoldable pub release_paths : NormalizedConfig → List Text
unfolding package_paths
release_paths config = config.output_dir ∷ codes ".release-version" ∷ package_paths config.packages

-- the loop over the paths; `is_contained` is safefs.RequireContainedPath on the checkout
unfoldable pub check_contained : (Text → Bool) → List Text → Result Error (Unit {0})
check_contained is_contained [] = ok tt
check_contained is_contained (path ∷ paths) =
    let rest = check_contained is_contained paths in
    if is_contained path then rest else err (uncontained_path path)

-- the loop over the releases with the owners of their tags
unfoldable pub check_owners : TextMap Text → List PackageRelease → Result Error (Unit {0})
check_owners owners [] = ok tt
check_owners owners (release ∷ releases) =
    let rest = check_owners (insert release.tag release.pkg.name owners) releases in
    elim (lookup release.tag owners) [
      | none ↦ rest
      | some previous ↦ err (duplicate_tag release.tag previous release.pkg.name)
    ]

-- "%s %s" of an unmatched commit
abbrev pub unmatched_line : ParsedCommit → Text
unmatched_line parsed = hash7 parsed.hash ++ b' ' ∷ parsed.subject

abbrev pub check_unmatched : List ParsedCommit → Result Error (Unit {0})
check_unmatched [] = ok tt
check_unmatched (c ∷ cs) = err (unmatched_commits (map unmatched_line (c ∷ cs)))

-- the loop over the tags of a release that is not resumed
unfoldable pub check_new_tags : (ℕ → ℕ) → Runner → List PackageRelease → Result Error (Unit {0})
check_new_tags lower run [] = ok tt
check_new_tags lower run (release ∷ releases) =
    from_git (tag_exists lower run release.tag) >>= λ there.
    if there then err (tag_already_exists release.tag) else check_new_tags lower run releases

-- ValidateWithEnv
unfoldable pub validate :
    (ℕ → ℕ)
    → Runner
    → (Text → Bool)
    → NormalizedConfig
    → ReleasePlan
    → Bool
    → Result Error (Unit {0})
unfolding release_paths check_contained check_owners check_new_tags
validate lower run is_contained config plan resumable =
    check_contained is_contained (release_paths config)
    >> (check_owners [] plan.releases
        >> ((if contains config.branches plan.branch
              then ok tt
              else err (branch_not_allowed plan.branch config.branches))
            >> (check_unmatched plan.unmatched_commits
                >> (if resumable then ok tt else check_new_tags lower run plan.releases))))
