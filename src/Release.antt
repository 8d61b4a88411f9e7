-- ===== src/Release.antt =====
-- internal/release: the release pipeline. This module has the ways in which it can fail; its
-- children have the message of a release commit, the resumption of a release, the checks before
-- one, the journal with its recovery, and the pipeline itself.
pub mod Message
pub mod Resume
pub mod Effects
pub mod Journals
pub mod Recovery
pub mod Checks
pub mod Publication
pub mod Triples
pub mod Publishing
pub mod Stages
pub mod Execute
mod Examples
use hooversion.Common.{ℕ, List, Option, none, some, Result, ok, err}
use hooversion.Git
use hooversion.Plan
use hooversion.Text.{Text}

pub data Error : Type 0 where
  git_error : hooversion.Git.Error → Error
  plan_error : hooversion.Plan.Error → Error
  manifest_error file_error : Error
  -- drift
  tag_drift : Text → Text → Text → Error
  changed_locally changed_remotely remote_drift : Text → Text → Error
  -- ValidateWithEnv
  uncontained_path : Text → Error
  duplicate_tag : Text → Text → Text → Error
  branch_not_allowed : Text → List Text → Error
  unmatched_commits : List Text → Error
  tag_already_exists : Text → Error
  -- hooks and publication
  hook_not_started : Text → Error
  hook_failed : Text → Text → Error
  no_token no_repository publish_failed : Error
  release_differs : Text → Error
  tag_unresolved : Text → hooversion.Git.Error → Error
  tag_elsewhere : Text → Text → Text → Error
  -- the journal
  journal_unreadable journal_invalid journal_mismatch journal_index journal_branch : Error
  journal_phase unsafe_path : Text → Error
  changed_head : Text → Text → Error
  commit_drift no_release_commit identity_changed : Error
  recorded_commit_required : Text → Error
  changed_branch index_locked recovery_pending : Error
  missing_tag moved_tag is_directory : Text → Error
  journal_retained : Error → Error
  recovery_unfinished : Error → Error → Error

abbrev pub from_git {ℓ} : {A : Type ℓ} → Result hooversion.Git.Error A → Result Error A
from_git (ok a) = ok a
from_git (err e) = err (git_error e)

abbrev pub or_error {ℓ} : {A : Type ℓ} → Error → Option A → Result Error A
or_error e none = err e
or_error e (some a) = ok a
