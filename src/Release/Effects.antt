-- ===== src/Release/Effects.antt =====
-- internal/release: what the release pipeline changes outside of itself, and what it reads there.
-- The trace of a run holds its effects, the last one first; what the run reads may depend on the
-- whole trace in any way, which leaves room for hooks and for other writers.
use hooversion.Common.{
  ℕ, Bool, not, List, [], ◌∷◌, Option, none, some, ◌==◌, if◌then◌else◌, Result, ok, err,
}
use hooversion.Git
use hooversion.Git.{CommandResult, Runner, is_start_failure, git_run}
use hooversion.Release.Resume.Transition.{Sources}
use hooversion.Release.{Error, from_git, hook_not_started, hook_failed, identity_changed}
use hooversion.Text.Maps.{TextMap}
use hooversion.Text.{Text, codes, text_eq}
use hooversion.Types.{NormalizedPackageConfig, NormalizedConfig, PackageRelease, ReleasePlan}

-- The phases that the journal of a release can name, and any other text.
pub data Phase : Type 0 where
  prepared mutating committing tagging external published : Phase
  other_phase : Text → Phase

-- fileSnapshot
pub record FileSnapshot : Type 0 where
  pub content : Text
  pub mode : ℕ
  pub link : Text
  pub present : Bool

-- transactionState; a nil plan is none
pub record Journal : Type 0 where
  pub index : Text
  pub index_mode : ℕ
  pub version : ℕ
  pub phase : Phase
  pub checkout : Text
  pub config_digest : Text
  pub source : Text
  pub release_head : Text
  pub head_ref : Text
  pub plan : Option ReleasePlan
  pub files : TextMap FileSnapshot
  pub untracked : List Text
  pub tags : TextMap Text

-- ReleaseInput, Release and Asset of package githubapi, as far as a release uses them
pub record ReleaseInput : Type 0 where
  pub tag_name : Text
  pub name : Text
  pub body : Text

pub record GithubRelease : Type 0 where
  pub id : ℕ
  pub tag_name : Text
  pub name : Text
  pub body : Text
  pub draft : Bool
  pub prerelease : Bool
  pub upload_url : Text

pub record GithubAsset : Type 0 where
  pub id : ℕ
  pub name : Text

pub data Effect : Type 0 where
  git_command : List Text → Effect
  push : List Text → Effect
  create_release : Text → ReleaseInput → Effect
  upload_asset : Text → Text → Text → Effect
  save_journal : Journal → Effect
  -- a save that failed, behind which the disk has the journal before it or this one
  save_failed : Journal → Effect
  -- the lock of the release, taken before anything else
  acquire_lock : Text → Effect
  remove_journal sync_metadata : Effect
  remove_file make_dirs : Text → Effect
  make_symlink : Text → Text → Effect
  restore_file : Text → Text → ℕ → Effect
  delete_tag move_head : List Text → Effect
  restore_index : Text → ℕ → Effect
  clear_outputs : Effect
  write_outputs : List PackageRelease → Bool → Effect
  run_hook : Text → Text → Effect
  update_version : NormalizedPackageConfig → Text → Effect
  update_dependencies : NormalizedPackageConfig → TextMap Text → Effect
  update_changelog : Text → Text → Text → Effect

abbrev pub Trace : Type 0
Trace = List Effect

-- What Lstat tells of a path.
pub data Stat : Type 0 where
  absent is_dir regular symlink special stat_failed : Stat

-- What the pipeline reads, after the effects of a trace.
pub record World : Type 0 where
  pub sources : Trace → Sources
  pub today : NormalizedPackageConfig → Text  -- the day of the notes
  -- the end of an effect that is no command
  pub outcome : Trace → Effect → Option Error
  pub shell : Trace → Text → Text → CommandResult
  -- the journal in the Git directory, decoded, and the size of its encoding
  pub stored : Trace → Result Error (Option Journal)
  pub fits_journal : Journal → Bool
  pub digest : NormalizedConfig → Text
  -- the checkout and the Git directory
  pub cwd : Text
  pub same_identity : Trace → Bool
  -- why the metadata or the checkout cannot be opened, for a Git directory
  pub roots_refused : Trace → Text → Option Error
  pub stat : Trace → Text → Stat
  pub mode_of : Trace → Text → ℕ
  pub read_file : Trace → Text → Result Error Text
  pub read_link : Trace → Text → Result Error Text
  pub read_index : Trace → Result Error (Text × ℕ)
  pub index_lock : Trace → Stat
  pub is_contained : Trace → Text → Bool
  -- packages manifest and output
  pub updates_refused : Trace → ReleasePlan → Option Error
  pub managed_paths : Trace → Result Error (List Text)
  pub destinations : Trace → List PackageRelease → Result Error (List Text)
  pub output_paths : Trace → List (Text × Bool)
  -- GitHub
  pub release_by_tag : Trace → Text → Text → Result Error (Option GithubRelease)
  pub list_assets : Trace → Text → ℕ → Result Error (List GithubAsset)
  pub verify_asset : Trace → Text → GithubAsset → Text → Result Error (Unit {0})
  pub created_release : Trace → Text → ReleaseInput → Result Error GithubRelease

-- The state of a run: the journal in memory, and the trace.
pub record RunState : Type 0 where
  pub journal : Journal
  pub trace : Trace

abbrev pub Action : Type 0 → Type 0
Action A = RunState → Result Error A × RunState

unfoldable pub pure : {A : Type 0} → A → Action A
pure a s = (ok a, s)

unfoldable pub raise : {A : Type 0} → Error → Action A
raise e s = (err e, s)

abbrev pub continue_with :
    {A B : Type 0} → Result Error A × RunState → (A → Action B) → Result Error B × RunState
continue_with (ok a, s) f = f a s
continue_with (err e, s) f = (err e, s)

-- An error ends the run of the actions, and what was done stays done.
infixl 5 ◌>>=◌ ◌>>◌
unfoldable pub ◌>>=◌ : {A B : Type 0} → Action A → (A → Action B) → Action B
◌>>=◌ m f s = continue_with (m s) f

abbrev pub ◌>>◌ : {A B : Type 0} → Action A → Action B → Action B
m >> k = m >>= λ _. k

abbrev pub to_result : Option Error → Result Error (Unit {0})
to_result none = ok tt
to_result (some e) = err e

unfoldable pub modify : (Journal → Journal) → Action (Unit {0})
modify f s = (ok tt, record s { journal = f s.journal })

abbrev git_done : Result hooversion.Git.Error Text → Result hooversion.Git.Error (Unit {0})
git_done (ok out) = ok tt
git_done (err e) = err e

unfoldable pub observe : {A : Type 0} → (Trace → Result Error A) → Action A
observe f s = (f s.trace, s)

-- an action that goes by what the world shows at this point
unfoldable pub look : {A B : Type 0} → (Trace → B) → (B → Action A) → Action A
look see f s = f (see s.trace) s

-- a test between two actions
infix 1 when◌then◌else◌
unfoldable pub when◌then◌else◌ : {A : Type 0} → Bool → Action A → Action A → Action A
when◌then◌else◌ test m n s = if test then m s else n s

module _ (world : World) where
  -- an effect that ends as the world has it
  unfoldable pub perform : Effect → Action (Unit {0})
  perform e s = (to_result (world.outcome s.trace e), record s { trace = e ∷ s.trace })

  abbrev pub runner : RunState → Runner
  runner s = (world.sources s.trace).run

  unfoldable pub query : {A : Type 0} → (Sources → Result hooversion.Git.Error A) → Action A
  query f s = (from_git (f (world.sources s.trace)), s)

  -- a Git command that changes the repository, as gitRunWithBase or RunWithContext runs it
  unfoldable pub git_perform :
      (Runner → List Text → Result hooversion.Git.Error Text)
      → (List Text → Effect)
      → List Text
      → Action (Unit {0})
  git_perform start mark args s =
      (from_git (git_done (start (runner s) args)), record s { trace = mark args ∷ s.trace })

  -- runShellWithEnv and the body of the loop of runHooksWithEnv
  unfoldable pub perform_hook : Text → Action (Unit {0})
  perform_hook command s =
      let shell = (world.sources s.trace).env (codes "SHELL") in
      let interpreter = if text_eq shell [] then codes "/bin/sh" else shell in
      let res = world.shell s.trace interpreter command in
      let ended =
        if is_start_failure res.failure
        then err (hook_not_started command)
        else if not (res.code == 0)
        then err (hook_failed command (if text_eq res.stderr [] then res.stdout else res.stderr))
        else ok tt in
      (ended, record s { trace = run_hook interpreter command ∷ s.trace })

  -- runHooksWithEnv
  unfoldable pub run_hooks : List Text → Action (Unit {0})
  unfolding perform_hook
  run_hooks [] = pure tt
  run_hooks (hook ∷ hooks) = perform_hook hook >> run_hooks hooks

  -- checkIdentity
  unfoldable pub check_identity : Action (Unit {0})
  check_identity s = (if world.same_identity s.trace then ok tt else err identity_changed, s)
