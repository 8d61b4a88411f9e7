-- ===== src/Release/Resume/Transition.antt =====
-- internal/release/resume.go: inferReleaseTransition, the version that a release started from.
pub mod Parent
pub mod Candidates
use hooversion.Common.{
  ℕ, ◌+◌, ◌-◌, Bool, true, false, not, ◌&&◌, List, [], ◌∷◌, ◌++◌, Option, none, some, leb,
  if◌then◌else◌, Result, ok, err, ◌>>=◌, ◌>>=?◌,
}
use hooversion.Git.{Runner, ref_sha}
use hooversion.Plan.{tag_for}
use hooversion.Semver.{SemVer, parse, string, format_int, checked_bump}
use hooversion.Text.{Text, codes, text_eq}
use hooversion.Types.{ReleaseType, major, minor, patch, NormalizedPackageConfig, NormalizedConfig}

-- What the resumption of a release reads: Git, the version that a manifest holds, the name and the
-- version that it has in the parent commit, and envutil.Get; `lower` is unicode.ToLower.
pub record Sources : Type 0 where
  pub lower : ℕ → ℕ
  pub run : Runner
  pub env : Text → Text
  pub manifest_version : NormalizedPackageConfig → Option Text
  pub parent_manifest : NormalizedPackageConfig → Option (Text × Text)

-- A version that the release may have started from, and whether there is one before it.
pub record Candidate : Type 0 where
  pub possible : Bool
  pub release_type : ReleaseType
  pub current_version : Text

abbrev pub dotted : ℕ → ℕ → ℕ → Text
dotted a b c = format_int a ++ b'.' ∷ (format_int b ++ b'.' ∷ format_int c)

unfoldable pub candidates : SemVer → List Candidate
candidates v =
    record {
      possible = leb 1 v.core_major;
      release_type = major;
      current_version = dotted (v.core_major - 1) 0 0;
    }
    ∷ record {
      possible = leb 1 v.core_minor;
      release_type = minor;
      current_version = dotted v.core_major (v.core_minor - 1) 0;
    }
    ∷ record {
      possible = leb 1 v.core_patch;
      release_type = patch;
      current_version = dotted v.core_major v.core_minor (v.core_patch - 1);
    }
    ∷ []

module _ (s : Sources) (config : NormalizedConfig) (pkg : NormalizedPackageConfig) where
  abbrev pub tag_ref : Text → Text
  tag_ref version = codes "refs/tags/" ++ tag_for config pkg version

  -- the loop over the candidates
  unfoldable pub tagged_candidate :
      List Candidate → Result hooversion.Git.Error (Option (Text × ReleaseType))
  tagged_candidate [] = ok none
  tagged_candidate (candidate ∷ rest) =
      let later = tagged_candidate rest in
      if not candidate.possible
      then later
      else (ref_sha s.lower s.run (tag_ref candidate.current_version) >>= λ ref.
          if text_eq ref []
          then later
          else ok (some (candidate.current_version, candidate.release_type)))

abbrev pub bumps_to : SemVer → ReleaseType → SemVer → Bool
bumps_to parent t target = elim (checked_bump parent t) [
  | ok bumped ↦ text_eq (string bumped) (string target)
  | err e ↦ false
]

-- the loop over the release types; none where two of them match
unfoldable pub match_types :
    SemVer → SemVer → List ReleaseType → Option ReleaseType → Option ReleaseType
match_types parent target [] matched = matched
match_types parent target (t ∷ ts) matched =
    let same = match_types parent target ts matched in
    let first = match_types parent target ts (some t) in
    if bumps_to parent t target then elim matched [ none ↦ first | some earlier ↦ none ] else same

abbrev pub to_option {ℓ} : {E : Type 0} {A : Type ℓ} → Result E A → Option A
to_option (ok a) = some a
to_option (err e) = none

-- the part that reads the manifest of the parent commit
unfoldable pub parent_transition :
    Sources → NormalizedPackageConfig → SemVer → Option (Text × ReleaseType)
unfolding match_types
parent_transition s pkg target = s.parent_manifest pkg >>=? λ (name, version).
    if not (text_eq name pkg.name)
    then none
    else (to_option (parse version) >>=? λ parent.
        match_types parent target (major ∷ minor ∷ patch ∷ []) none >>=? λ t. some (version, t))

-- a transition that the tags show, or else the one that the parent shows
abbrev pub or_else {ℓ} : {A : Type ℓ} → Option A → Option A → Option A
or_else (some a) o = some a
or_else none o = o

-- inferReleaseTransition
unfoldable pub infer_release_transition :
    Sources → NormalizedConfig → NormalizedPackageConfig → Text → Option (Text × ReleaseType)
unfolding tagged_candidate parent_transition candidates
infer_release_transition s config pkg next_version = to_option (parse next_version) >>=? λ target.
    to_option (tagged_candidate s config pkg (candidates target)) >>=? λ found.
    or_else found (parent_transition s pkg target)
