-- ===== src/Release/Examples.antt =====
-- Tests of internal/release at a small repository, and its theorems there.
use hooversion.Common.{
  ℕ, ◌≡◌, ◌≢◌, ◌⊎◌, ◌↔◌, inl, refl, true, false, [], ◌∷◌, ◌++◌, none, some, arith, ok,
  if◌then◌else◌,
}
use hooversion.Git.{Runner, CommandResult, exit_status}
use hooversion.Release.Checks.Accepted.{IsAccepted, validate_iff}
use hooversion.Release.Checks.{validate}
use hooversion.Release.Message.Squash.{squash_mark, release_message_matches-squash_mark}
use hooversion.Release.Message.{
  release_commit_message, release_message_matches, release_subject, blank_line,
}
use hooversion.Release.Resume.Proven.{IsProven, derive_resumable-IsProven}
use hooversion.Release.Resume.Selection.RoundTrip.{chosen, select-release_subject}
use hooversion.Release.Resume.Selection.{select}
use hooversion.Release.Resume.Transition.Candidates.{
  infer_release_transition-cases, infer_release_transition-not_bump, IsShownByTag,
}
use hooversion.Release.Resume.Transition.Parent.{IsShownByParent}
use hooversion.Release.Resume.Transition.{
  Sources, candidates, infer_release_transition, tag_ref, dotted,
}
use hooversion.Release.Resume.{derive_resumable}
use hooversion.Routing.Examples.{app, core, config}
use hooversion.Semver.{SemVer, parse, checked_bump}
use hooversion.Text.{Text, codes, text_eq, contains}
use hooversion.Types.{major, minor, PackageRelease, ReleasePlan}

-- unicode.ToLower is the identity on the texts below
abbrev lower : ℕ → ℕ
lower c = c

abbrev says : Text → CommandResult
says out = record { stdout = out; stderr = []; code = 0; failure = none }

abbrev denies : CommandResult
denies = record { stdout = []; stderr = []; code = 1; failure = some exit_status }

abbrev release : PackageRelease
release = record {
  pkg = core;
  current_version = codes "1.2.0";
  next_version = codes "1.3.0";
  release_type = minor;
  dependency_triggered = false;
  latest_tag = [];
  tag = codes "core@v1.3.0";
  commits = [];
  notes = codes "notes";
}

abbrev plan : ReleasePlan
plan = record {
  branch = codes "main";
  source_sha = codes "a";
  independent = true;
  releases = release ∷ [];
  unmatched_commits = [];
}

-- HEAD is "b", its parent "a", and no tag exists.
abbrev git : Runner
git args input =
    if contains args (codes "HEAD^")
    then says (codes "a")
    else if contains args (codes "--format=%B")
    then says (codes "chore(release): core 1.3.0\n\nnotes")
    else if contains args (codes "--show-current")
    then says (codes "main")
    else if contains args (codes "HEAD")
    then says (codes "b")
    else denies

abbrev sources : Sources
sources = record {
  lower = lower;
  run = git;
  env = λ name. [];
  manifest_version =
      λ pkg. if text_eq pkg.name (codes "core") then some (codes "1.3.0") else some (codes "0.1.0");
  parent_manifest = λ pkg. some (pkg.name, codes "1.2.0");
}

derive_resumable-IsProven_example : IsProven sources config plan
unfolding candidates checked_bump contains derive_resumable hooversion.Git.Remote.current_branch
    hooversion.Git.assert_valid_git_ref hooversion.Git.commit_message hooversion.Git.git_run
    hooversion.Git.has_forbidden_ref_rune hooversion.Git.has_suffix hooversion.Git.head_sha
    hooversion.Git.is_bad_component hooversion.Git.is_bad_name hooversion.Git.is_full_sha
    hooversion.Git.ref_sha hooversion.Git.trim_end hooversion.Plan.render_tag
    hooversion.Plan.tag_for hooversion.Plan.tag_format_for hooversion.Release.Message.is_squash_mark
    hooversion.Release.Message.release_body hooversion.Release.Message.split_subject_body
    hooversion.Release.Message.without_squash_mark hooversion.Release.Resume.Selection.select_one
    hooversion.Release.Resume.Selection.select_part hooversion.Release.Resume.Selection.select_parts
    hooversion.Release.Resume.Selection.select_single
    hooversion.Release.Resume.Selection.split_comma hooversion.Release.Resume.Transition.match_types
    hooversion.Release.Resume.Transition.parent_transition
    hooversion.Release.Resume.Transition.tagged_candidate hooversion.Release.Resume.check_tags
    hooversion.Release.Resume.git_branch_of hooversion.Release.Resume.known_packages
    hooversion.Release.Resume.notes_in hooversion.Release.Resume.reconstructed
    hooversion.Release.Resume.releases_of hooversion.Semver.any_negative hooversion.Semver.atoi
    hooversion.Semver.bump hooversion.Semver.format_int hooversion.Semver.has_leading_zero
    hooversion.Semver.is_identifier_rune hooversion.Semver.is_identifiers
    hooversion.Semver.is_suffix_rune hooversion.Semver.match_version hooversion.Semver.string
    hooversion.Text.Decimal.format hooversion.Text.Decimal.is_digit
    hooversion.Text.Decimal.value_from hooversion.Text.Maps.insert hooversion.Text.Maps.lookup
    hooversion.Text.cut_rune hooversion.Text.drop_while hooversion.Text.has_prefix
    hooversion.Text.has_rune hooversion.Text.index hooversion.Text.is_space hooversion.Text.join
    hooversion.Text.last_index hooversion.Text.replace_all hooversion.Text.split
    hooversion.Text.take_while hooversion.Text.to_lower hooversion.Text.trim_left
    hooversion.Text.trim_right hooversion.Text.trim_space infer_release_transition parse
    release_commit_message release_message_matches release_subject select text_eq
derive_resumable-IsProven_example = derive_resumable-IsProven sources config refl

infer_release_transition-cases_example :
    (target : SemVer) × (parse (codes "1.3.0") ≡ ok target)
    × (IsShownByTag sources config core (candidates target) (codes "1.2.0", minor)
        ⊎ IsShownByParent sources core target (codes "1.2.0", minor))
unfolding candidates checked_bump contains hooversion.Git.assert_valid_git_ref
    hooversion.Git.git_run hooversion.Git.has_forbidden_ref_rune hooversion.Git.has_suffix
    hooversion.Git.is_bad_component hooversion.Git.is_bad_name hooversion.Git.is_full_sha
    hooversion.Git.ref_sha hooversion.Git.trim_end hooversion.Plan.render_tag
    hooversion.Plan.tag_for hooversion.Plan.tag_format_for
    hooversion.Release.Resume.Transition.match_types
    hooversion.Release.Resume.Transition.parent_transition
    hooversion.Release.Resume.Transition.tagged_candidate hooversion.Semver.any_negative
    hooversion.Semver.atoi hooversion.Semver.bump hooversion.Semver.format_int
    hooversion.Semver.has_leading_zero hooversion.Semver.is_identifier_rune
    hooversion.Semver.is_identifiers hooversion.Semver.is_suffix_rune
    hooversion.Semver.match_version hooversion.Semver.string hooversion.Text.Decimal.format
    hooversion.Text.Decimal.is_digit hooversion.Text.Decimal.value_from hooversion.Text.drop_while
    hooversion.Text.has_prefix hooversion.Text.has_rune hooversion.Text.index
    hooversion.Text.is_space hooversion.Text.join hooversion.Text.replace_all hooversion.Text.split
    hooversion.Text.take_while hooversion.Text.to_lower hooversion.Text.trim_left
    hooversion.Text.trim_right hooversion.Text.trim_space infer_release_transition parse text_eq
infer_release_transition-cases_example =
    infer_release_transition-cases sources config core (codes "1.3.0") refl

-- Every tag exists, at "t".
abbrev tagged : Sources
tagged = record sources { run = λ args input. says (codes "t") }

infer_release_transition-not_bump_example :
    (infer_release_transition tagged config core (codes "2.1.3") ≡ some (dotted 1 0 0, major))
    × ((parent : SemVer) × (parse (dotted 1 0 0) ≡ ok parent)
        × (checked_bump parent major
            ≢ ok (record { core_major = 2; core_minor = 1; core_patch = 3; pre = []; build = [] })))
unfolding hooversion.Git.assert_valid_git_ref hooversion.Git.has_forbidden_ref_rune
    hooversion.Git.has_suffix hooversion.Git.is_bad_component hooversion.Git.is_bad_name
    hooversion.Git.is_full_sha hooversion.Git.ref_sha hooversion.Plan.render_tag
    hooversion.Plan.tag_for hooversion.Plan.tag_format_for hooversion.Semver.atoi
    hooversion.Semver.format_int hooversion.Semver.has_leading_zero
    hooversion.Semver.is_identifier_rune hooversion.Semver.is_identifiers
    hooversion.Semver.is_suffix_rune hooversion.Semver.match_version
    hooversion.Text.Decimal.is_digit hooversion.Text.Decimal.value_from hooversion.Text.Maps.lookup
    hooversion.Text.drop_while hooversion.Text.has_prefix hooversion.Text.has_rune
    hooversion.Text.index hooversion.Text.is_space hooversion.Text.replace_all hooversion.Text.split
    hooversion.Text.take_while hooversion.Text.to_lower hooversion.Text.trim_left
    hooversion.Text.trim_right hooversion.Text.trim_space parse release_commit_message text_eq
infer_release_transition-not_bump_example =
    infer_release_transition-not_bump tagged config core (codes "2.1.3") (codes "t")
      (record { core_major = 2; core_minor = 1; core_patch = 3; pre = []; build = [] }) refl
      (omega arith) (inl (λ e. omega arith)) refl (λ e. cc)

select-release_subject_example :
    select config
      ((codes "core", (core, codes "1.3.0")) ∷ (codes "app", (app, codes "2.0.0")) ∷ [])
      (release_subject (release ∷ record release { pkg = app; next_version = codes "2.0.0" } ∷ []))
    ≡ some (
        chosen config release
        ∷ chosen config (record release { pkg = app; next_version = codes "2.0.0" })
        ∷ [])
unfolding hooversion.Text.Maps.lookup hooversion.Text.is_space hooversion.Text.trim_left
    hooversion.Text.trim_right release_commit_message
select-release_subject_example =
    select-release_subject config
      ((codes "core", (core, codes "1.3.0")) ∷ (codes "app", (app, codes "2.0.0")) ∷ []) release
      (record release { pkg = app; next_version = codes "2.0.0" } ∷ [])
      (
        record {
          known_at = refl;
          name_nonempty = λ e. cc;
          name_runes = ground arith;
          version_nonempty = λ e. cc;
          version_runes = ground arith;
        },
        (
          record {
            known_at = refl;
            name_nonempty = λ e. cc;
            name_runes = ground arith;
            version_nonempty = λ e. cc;
            version_runes = ground arith;
          },
          tt,
        ),
      )

release_message_matches-squash_mark_example :
    release_message_matches
      ((codes "chore(release): core 1.3.0" ++ squash_mark 12) ++ (blank_line ++ codes "notes"))
      (release_commit_message plan)
    ≡ true
unfolding hooversion.Text.is_space hooversion.Text.trim_left hooversion.Text.trim_right
    release_commit_message
release_message_matches-squash_mark_example =
    release_message_matches-squash_mark plan (codes "chore(release): core 1.3.0") (codes "notes") 12
      refl (ground arith) (record { at_left = refl; at_right = refl })

validate_iff_example :
    (validate lower git (λ path. true) config plan true ≡ ok tt)
    ↔ IsAccepted lower git (λ path. true) config plan true
validate_iff_example = validate_iff lower git (λ path. true) config plan true
