-- ===== src/Release/Execute.antt =====
-- internal/release/release.go: Execute: the plan of a run, the checks, the journal, and the stages
-- under the deferred abort.
pub mod Staged
pub mod Safety
pub mod DryRun
mod Examples
use hooversion.Common.{
  ℕ, Bool, true, false, not, ◌&&◌, ◌||◌, List, [], ◌∷◌, ◌++◌, Option, none, some, leb,
  if◌then◌else◌, map, length, Result, ok, err,
}
use hooversion.Git
use hooversion.Git.Remote.{remote_tag_sha}
use hooversion.Git.WorkingTree.{ensure_clean_working_tree, join_path}
use hooversion.Git.{run_with_context, git_run, git_run_raw, head_sha, ref_sha, assert_valid_git_ref}
use hooversion.Plan
use hooversion.Plan.Create.{create_plan}
use hooversion.Release.Checks.{validate}
use hooversion.Release.Effects.{
  Phase, mutating, committing, tagging, external, published, Journal, Effect, acquire_lock,
  git_command, push, make_dirs, clear_outputs, write_outputs, update_version, update_dependencies,
  update_changelog, Trace, World, RunState, Action, pure, raise, modify, query, observe, perform,
  git_perform, run_hooks, check_identity, runner, ◌>>=◌, ◌>>◌, when◌then◌else◌, continue_with,
}
use hooversion.Release.Journals.{load, advance, finish, snapshot}
use hooversion.Release.Message.{release_commit_message, named_version}
use hooversion.Release.Recovery.{with_journal, release_head, recover, abort}
use hooversion.Release.Resume.{
  derive_resumable, is_resumable_release, verify_local_source, verify_source,
  verify_resumable_remote,
}
use hooversion.Release.{
  Error, from_git, plan_error, recovery_pending, tag_unresolved, tag_elsewhere, journal_mismatch,
}
use hooversion.Release.Stages.{
  Options, Outcome, or_default, on_sources, perform_all, make_release, complete_tags, publish,
}
use hooversion.Text.Maps.{TextMap, insert}
use hooversion.Text.{Text, codes, text_eq, trim_space}
use hooversion.Types.{NormalizedPackageConfig, NormalizedConfig, PackageRelease, ReleasePlan}

abbrev pub refuse : Option Error → Result Error (Unit {0})
refuse none = ok tt
refuse (some e) = err e

abbrev pub lock_path : Text → Text
lock_path common = join_path common (codes "hooversion-release.lock")

abbrev pub common_dir_command : List Text
common_dir_command =
    codes "rev-parse" ∷ codes "--path-format=absolute" ∷ codes "--git-common-dir" ∷ []

abbrev pub git_dir_command : List Text
git_dir_command = codes "rev-parse" ∷ codes "--absolute-git-dir" ∷ []

module _ (world : World) where
  -- the plan after a recovery; what a release works on is the plan and whether it was loaded
  abbrev pub plan_world : Trace → hooversion.Plan.World
  plan_world trace = record {
    run = (world.sources trace).run;
    manifest_version = (world.sources trace).manifest_version;
    today = world.today;
  }

  abbrev pub from_plan : {A : Type 0} → Result hooversion.Plan.Error A → Result Error A
  from_plan (ok a) = ok a
  from_plan (err e) = err (plan_error e)

  abbrev pub journal_plan : Action ReleasePlan
  journal_plan =
      with_journal
        λ journal. elim journal.plan [ none ↦ raise journal_mismatch | some plan ↦ pure plan ]

  -- the plan, and whether this run starts a journal of its own
  abbrev pub recovered_plan : NormalizedConfig → ReleasePlan → Bool → Action (ReleasePlan × Bool)
  recovered_plan config plan true =
      observe (λ trace. from_plan (create_plan (plan_world trace) config plan.branch none))
      >>= λ again. pure (again, true)
  recovered_plan config plan false = journal_plan >>= λ loaded. pure (loaded, false)

  -- openTransaction; the lock is a file in the common Git directory that stays
  unfoldable pub open_transaction : Action (Unit {0})
  open_transaction = query world (λ s. run_with_context s.run common_dir_command) >>= λ common.
      perform world (acquire_lock (lock_path (trim_space common)))
      >> (query world (λ s. run_with_context s.run git_dir_command) >>= λ git_dir.
          observe (λ trace. refuse (world.roots_refused trace (trim_space git_dir))))

  -- the journal that is there: loading and recovery
  unfoldable pub begin : NormalizedConfig → ReleasePlan → Options → Action (ReleasePlan × Bool)
  unfolding load recover
  begin config plan o = load world config >>= λ existing.
      when not existing
      then pure (plan, true)
      else when o.dry_run
      then raise recovery_pending
      else (recover world >>= recovered_plan config plan)

  abbrev pub effective_of : ReleasePlan → Bool → Option ReleasePlan → ReleasePlan
  effective_of plan true (some derived) = derived
  effective_of plan own derived = plan

  -- the checks before any change; the result tells whether the release is resumed
  unfoldable pub check : NormalizedConfig → ReleasePlan → Action Bool
  check config plan =
      observe (λ trace. ok (is_resumable_release (world.sources trace) plan)) >>= λ resumable.
      on_sources world (λ s.
        if resumable
        then verify_resumable_remote s.lower s.run plan
        else verify_source s.lower s.run plan)
      >> (observe (λ trace.
            let s = world.sources trace in
            validate s.lower s.run (world.is_contained trace) config plan resumable)
          >> (observe (λ trace. refuse (world.updates_refused trace plan)) >> pure resumable))

  -- the gate for a clean tree, and the journal of this run
  unfoldable pub prepare : NormalizedConfig → ReleasePlan → Bool → Action (Unit {0})
  unfolding snapshot
  prepare config plan own =
      observe (λ trace.
        from_git (
          ensure_clean_working_tree (world.sources trace).run world.cwd (world.output_paths trace)))
      >> (when own
          then (observe world.managed_paths >>= λ managed.
              observe (λ trace. world.destinations trace plan.releases) >>= λ destinations.
              snapshot world config plan
                (managed ++ (map (λ pkg. pkg.changelog) config.packages ++ destinations)))
          else pure tt)

  -- what follows the journal: a failure from here on goes to abort
  unfoldable pub guarded : NormalizedConfig → ReleasePlan → Options → Bool → Action Outcome
  unfolding make_release complete_tags publish
  guarded config plan o resumable =
      perform world clear_outputs
      >> (when leb 1 (length plan.releases)
          then ((when resumable then complete_tags world plan else make_release world config plan)
              >> publish world config plan o)
          else (perform world (write_outputs plan.releases false)
              >> (finish world >> pure (record { is_published = false; plan = plan }))))

  abbrev pub failed : Error × RunState → Result Error Outcome × RunState
  failed (e, s) = (err e, s)

  -- the deferred abort
  unfoldable pub on_failure : Result Error Outcome × RunState → Result Error Outcome × RunState
  unfolding abort
  on_failure (ok outcome, s) = (ok outcome, s)
  on_failure (err e, s) = failed (abort world e s)

  unfoldable pub run_release :
      NormalizedConfig → ReleasePlan → Options → Bool → Bool → Action Outcome
  unfolding prepare guarded on_failure
  run_release config plan o own resumable =
      prepare config plan own >> (λ s. on_failure (guarded config plan o resumable s))

  -- what follows openTransaction in Execute
  unfoldable pub execute_opened : NormalizedConfig → ReleasePlan → Options → Action Outcome
  unfolding begin check run_release
  execute_opened config plan o = begin config plan o >>= λ (planned, own).
      on_sources world (λ s. derive_resumable s config) >>= λ derived.
      let effective = effective_of planned own derived in
      check config effective >>= λ resumable.
      when o.dry_run
      then pure (record { is_published = false; plan = effective })
      else run_release config effective o own resumable

  -- Execute
  unfoldable pub execute : NormalizedConfig → ReleasePlan → Options → Action Outcome
  unfolding open_transaction execute_opened
  execute config plan o = open_transaction >> execute_opened config plan o
