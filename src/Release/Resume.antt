-- ===== src/Release/Resume.antt =====
-- internal/release/resume.go: the plan of a release that was committed already, and the checks that
-- nothing moved since. What the package reads stands in `Sources`: Git, the manifests as they are
-- and as the parent commit has them, and the environment.
pub mod Transition
pub mod Selection
pub mod Chosen
pub mod Proven
use hooversion.Common.{
  ℕ, ◌+◌, ◌-◌, Bool, true, false, not, ◌&&◌, ◌||◌, List, [], ◌∷◌, ◌++◌, Option, none, some, leb,
  ltb, if◌then◌else◌, length, take, drop, Result, ok, err, ◌>>=◌, ◌>>◌, ◌>>=?◌,
}
use hooversion.Git.Remote.{remote_branch_sha, current_branch}
use hooversion.Git.{Runner, no_remote, ref_sha, head_sha, commit_message}
use hooversion.Plan.{tag_for}
use hooversion.Release.Message.{
  prefix, blank_line, without_squash_mark, split_subject_body, release_commit_message,
  release_message_matches,
}
use hooversion.Release.Resume.Selection.{Selected, Known, select}
use hooversion.Release.Resume.Transition.{Sources, infer_release_transition}
use hooversion.Release.{
  Error, git_error, manifest_error, tag_drift, changed_locally, changed_remotely, remote_drift,
  from_git, or_error,
}
use hooversion.Text.Maps.{TextMap, insert}
use hooversion.Text.{Text, codes, text_eq, has_prefix, index}
use hooversion.Types.{
  ReleaseType, NormalizedPackageConfig, NormalizedConfig, PackageRelease, ReleasePlan,
}

abbrev missing_or : Text → Text
missing_or found = if text_eq found [] then codes "missing" else found

-- the loop that reads the manifests
unfoldable pub known_packages : Sources → List NormalizedPackageConfig → Known → Result Error Known
known_packages s [] known = ok known
known_packages s (pkg ∷ pkgs) known =
    or_error manifest_error (s.manifest_version pkg) >>= λ version.
    known_packages s pkgs (insert pkg.name (pkg, version) known)

-- the loop that refuses tags that stand elsewhere
unfoldable pub check_tags : Sources → Text → List Selected → Result Error (Unit {0})
check_tags s head [] = ok tt
check_tags s head (entry ∷ entries) =
    from_git (ref_sha s.lower s.run (codes "refs/tags/" ++ entry.tag)) >>= λ ref.
    if not (text_eq ref []) && not (text_eq ref head)
    then err (tag_drift entry.tag head ref)
    else check_tags s head entries

abbrev up_to : Option ℕ → Text → Text
up_to none s = s
up_to (some i) s = take i s

abbrev behind_marker : Option ℕ → Text → Text → Text
behind_marker none marker body = []
behind_marker (some i) marker body =
    let rest = drop (i + length marker) body in up_to (index rest (codes "\n\n# ")) rest

-- the notes of one package in the body of the message
unfoldable pub notes_in : Bool → Text → Selected → Text
notes_in several body entry =
    let marker = codes "# " ++ (entry.pkg.name ++ b' ' ∷ (entry.next_version ++ blank_line)) in
    if several then behind_marker (index body marker) marker body else body

abbrev resumed_release : Selected → Text → Text × ReleaseType → PackageRelease
resumed_release entry notes (current, release_type) = record {
  pkg = entry.pkg;
  current_version = current;
  next_version = entry.next_version;
  release_type = release_type;
  dependency_triggered = false;
  latest_tag = [];
  tag = entry.tag;
  commits = [];
  notes = notes;
}

-- the loop that makes the releases
unfoldable pub releases_of :
    Sources → NormalizedConfig → Bool → Text → List Selected → Option (List PackageRelease)
unfolding notes_in
releases_of s config several body [] = some []
releases_of s config several body (entry ∷ entries) =
    infer_release_transition s config entry.pkg entry.next_version >>=? λ transition.
    releases_of s config several body entries >>=? λ rest.
    some (resumed_release entry (notes_in several body entry) transition ∷ rest)

-- gitBranchOfWithEnv
unfoldable pub git_branch_of : Sources → Text
git_branch_of s = elim (current_branch s.env s.run) [ ok branch ↦ branch | err e ↦ [] ]

unfoldable pub reconstructed : Sources → NormalizedConfig → Text → List PackageRelease → ReleasePlan
unfolding git_branch_of
reconstructed s config source releases = record {
  branch = git_branch_of s;
  source_sha = source;
  independent = leb 2 (length config.packages);
  releases = releases;
  unmatched_commits = [];
}

-- a nil result with no error ends the function
abbrev pub given :
    {A B : Type 0} → Option A → (A → Result Error (Option B)) → Result Error (Option B)
given none f = ok none
given (some a) f = f a

abbrev pub when : {B : Type 0} → Bool → Result Error (Option B) → Result Error (Option B)
when true r = r
when false r = ok none

-- the comparison of the message of HEAD with the message of the plan
abbrev pub proven : Sources → ReleasePlan → Result Error (Option ReleasePlan)
proven s plan = from_git (commit_message s.run (codes "HEAD")) >>= λ message.
    when (release_message_matches message (release_commit_message plan)) (ok (some plan))

abbrev pub derive_selected :
    Sources
    → NormalizedConfig
    → Text
    → Text
    → Text
    → List Selected
    → Result Error (Option ReleasePlan)
derive_selected s config head source body selected =
    check_tags s head selected
    >> (given (releases_of s config (leb 2 (length selected)) body selected)
        λ releases. proven s (reconstructed s config source releases))

abbrev pub derive_known :
    Sources
    → NormalizedConfig
    → Text
    → Text
    → Text × Text
    → Known
    → Result Error (Option ReleasePlan)
derive_known s config head source (subject, body) known =
    given (select config known (drop (length prefix) (without_squash_mark subject)))
      (derive_selected s config head source body)

abbrev pub derive_message :
    Sources → NormalizedConfig → Text → Text → Text → Result Error (Option ReleasePlan)
derive_message s config head source message =
    let parts = split_subject_body message in
    when (has_prefix (without_squash_mark parts.0) prefix)
      (known_packages s config.packages [] >>= derive_known s config head source parts)

abbrev pub derive_source :
    Sources → NormalizedConfig → Text → Text → Result Error (Option ReleasePlan)
derive_source s config head source =
    when (not (text_eq source []))
      (from_git (commit_message s.run (codes "HEAD")) >>= derive_message s config head source)

-- DeriveResumableWithEnv
unfoldable pub derive_resumable : Sources → NormalizedConfig → Result Error (Option ReleasePlan)
unfolding known_packages check_tags releases_of reconstructed select split_subject_body
    without_squash_mark
derive_resumable s config = from_git (head_sha s.run) >>= λ head.
    from_git (ref_sha s.lower s.run (codes "HEAD^")) >>= derive_source s config head

-- the loop over the tags, where an error counts as drift
unfoldable pub tags_at_head : Sources → Text → List PackageRelease → Bool
tags_at_head s head [] = true
tags_at_head s head (release ∷ releases) =
    elim (ref_sha s.lower s.run (codes "refs/tags/" ++ release.tag)) [
      | ok ref ↦ (text_eq ref [] || text_eq ref head) && tags_at_head s head releases
      | err e ↦ false
    ]

abbrev succeeds : {E A : Type 0} → Result E A → (A → Bool) → Bool
succeeds (ok a) p = p a
succeeds (err e) p = false

-- isResumableReleaseWithEnv
unfoldable pub is_resumable_release : Sources → ReleasePlan → Bool
unfolding tags_at_head
is_resumable_release s plan =
    leb 1 (length plan.releases)
    && succeeds (head_sha s.run) λ head.
      not (text_eq head plan.source_sha)
      && succeeds (ref_sha s.lower s.run (codes "HEAD^")) λ parent.
        text_eq parent plan.source_sha
        && succeeds (commit_message s.run (codes "HEAD")) λ message.
          release_message_matches message (release_commit_message plan)
          && tags_at_head s head plan.releases

-- verifyLocalSource
unfoldable pub verify_local_source : Runner → ReleasePlan → Result Error (Unit {0})
verify_local_source run plan = from_git (head_sha run) >>= λ head.
    if text_eq head plan.source_sha then ok tt else err (changed_locally plan.source_sha head)

-- what the remote check makes of its query: a missing remote passes
abbrev pub check_remote :
    (Text → Bool) → (Text → Error) → Result hooversion.Git.Error Text → Result Error (Unit {0})
check_remote accepts drift (ok remote) = if accepts remote then ok tt else err (drift remote)
check_remote accepts drift (err no_remote) = ok tt
check_remote accepts drift (err e) = err (git_error e)

-- verifySourceWithAuthEnv
unfoldable pub verify_source : (ℕ → ℕ) → Runner → ReleasePlan → Result Error (Unit {0})
unfolding verify_local_source
verify_source lower run plan =
    verify_local_source run plan
    >> check_remote (λ remote. text_eq remote plan.source_sha)
        (λ remote. changed_remotely plan.source_sha (missing_or remote))
        (remote_branch_sha lower run plan.branch)

-- verifyResumableRemoteWithAuthEnv
unfoldable pub verify_resumable_remote : (ℕ → ℕ) → Runner → ReleasePlan → Result Error (Unit {0})
verify_resumable_remote lower run plan = from_git (head_sha run) >>= λ head.
    check_remote (λ remote. text_eq remote head || text_eq remote plan.source_sha)
      (λ remote. remote_drift head (missing_or remote)) (remote_branch_sha lower run plan.branch)
