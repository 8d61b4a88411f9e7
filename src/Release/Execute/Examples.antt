-- ===== src/Release/Execute/Examples.antt =====
-- Tests of Execute in a small world, and its theorems there.
use hooversion.Common.{
  ◌⊎◌, ℕ, ◌≡◌, ◌⊎◌, refl, ap, Bool, true, false, ◌||◌, List, [], ◌∷◌, ◌++◌, none, some, any, take,
  drop, ok, if◌then◌else◌, zero, suc,
}
use hooversion.Git.{Runner, CommandResult, exit_status}
use hooversion.Release.Effects.{
  acquire_lock, Journal, prepared, Trace, World, regular, absent, RunState,
}
use hooversion.Release.Execute.DryRun.{execute-dry_run}
use hooversion.Release.Execute.Safety.{initial, execute-publication}
use hooversion.Release.Execute.{execute, lock_path}
use hooversion.Release.Publication.{is_pending, is_recorded, attempted, is_rollback}
use hooversion.Release.Stages.{Options}
use hooversion.Routing.Examples.{core, config as base}
use hooversion.Text.{Text, codes, contains}
use hooversion.Types.{minor, NormalizedConfig, ReleasePlan}

abbrev says : Text → CommandResult
says out = record { stdout = out; stderr = []; code = 0; failure = none }

abbrev denies : CommandResult
denies = record { stdout = []; stderr = []; code = 1; failure = some exit_status }

abbrev plan : ReleasePlan
plan = record {
  branch = codes "main";
  source_sha = codes "a";
  independent = true;
  releases =
      record {
        pkg = core;
        current_version = codes "1.2.0";
        next_version = codes "1.3.0";
        release_type = minor;
        dependency_triggered = false;
        latest_tag = [];
        tag = codes "core@v1.3.0";
        commits = [];
        notes = codes "notes";
      }
      ∷ [];
  unmatched_commits = [];
}

-- HEAD is "a", without a parent; there are no tags, no remote and no changes.
abbrev git : Runner
git args input =
    if contains args (codes "HEAD^")
      || contains args (codes "--quiet")
      || contains args (codes "config")
    then denies
    else if contains args (codes "--symbolic-full-name")
    then says (codes "refs/heads/main")
    else if contains args (codes "HEAD")
    then says (codes "a")
    else says []

abbrev no_journal : Journal
no_journal = record {
  index = [];
  index_mode = 0;
  version = 0;
  phase = prepared;
  checkout = [];
  config_digest = [];
  source = [];
  release_head = [];
  head_ref = [];
  plan = none;
  files = [];
  untracked = [];
  tags = [];
}

abbrev world : World
world = record {
  sources = λ trace. record {
    lower = λ c. c;
    run = git;
    env = λ name. [];
    manifest_version = λ pkg. some (codes "1.2.0");
    parent_manifest = λ pkg. none;
  };
  today = λ pkg. codes "2026-01-02";
  outcome = λ trace e. none;
  shell = λ trace shell command. says [];
  stored = λ trace. ok none;
  fits_journal = λ journal. true;
  digest = λ config. codes "d";
  cwd = codes "/repo";
  same_identity = λ trace. true;
  roots_refused = λ trace git_dir. none;
  stat = λ trace path. regular;
  mode_of = λ trace path. 420;
  read_file = λ trace path. ok [];
  read_link = λ trace path. ok [];
  read_index = λ trace. ok (codes "DIRC00000000", 420);
  index_lock = λ trace. absent;
  is_contained = λ trace path. true;
  updates_refused = λ trace plan. none;
  managed_paths = λ trace. ok [];
  destinations = λ trace releases. ok [];
  output_paths = λ trace. [];
  release_by_tag = λ trace repository tag. ok none;
  list_assets = λ trace repository id. ok [];
  verify_asset = λ trace repository asset path. ok tt;
  created_release = λ trace repository input. ok (record {
    id = 1;
    tag_name = input.tag_name;
    name = input.name;
    body = input.body;
    draft = false;
    prerelease = false;
    upload_url = codes "u";
  });
}

abbrev config : NormalizedConfig
config = record base { github = record base.github { repository = codes "o/r" } }

abbrev options : Bool → Options
options dry = record { dry_run = dry; push_set = none; github_set = none; github_token = codes "t" }

abbrev run : RunState
run = (execute world config plan (options false) (initial no_journal)).1

take-drop : {A : Type 0} (n : ℕ) (xs : List A) → xs ≡ take n xs ++ drop n xs
take-drop zero xs = refl
take-drop (suc n) [] = refl
take-drop (suc n) (x ∷ xs) = ap (λ t. x ∷ t) (take-drop n xs)

-- The split stands right after the publication on GitHub: four effects follow.
execute-publication_example :
    ((is_pending (drop 4 run.trace) ≡ false) ⊎ (is_recorded (drop 4 run.trace) ≡ true))
    × ((attempted (drop 4 run.trace) ≡ false) ⊎ (any is_rollback (take 4 run.trace) ≡ false))
execute-publication_example =
    execute-publication world config plan (options false) no_journal (take 4 run.trace)
      (drop 4 run.trace) (take-drop 4 run.trace)

execute-dry_run_example :
    ((execute world config plan (options true) (initial no_journal)).1.trace ≡ [])
    ⊎ ((common : Text) × ((execute world config plan (options true) (initial no_journal)).1.trace
          ≡ acquire_lock (lock_path common) ∷ []))
execute-dry_run_example = execute-dry_run world config plan (options true) (initial no_journal) refl

published_here : is_pending (drop 4 run.trace) ≡ true
unfolding contains execute hooversion.Git.Log.split_nul hooversion.Git.Remote.origin_repository
    hooversion.Git.Remote.remote_branch_sha hooversion.Git.Remote.tag_exists
    hooversion.Git.WorkingTree.ensure_clean_working_tree hooversion.Git.assert_valid_git_ref
    hooversion.Git.git_run hooversion.Git.git_run_raw hooversion.Git.has_forbidden_ref_rune
    hooversion.Git.has_suffix hooversion.Git.head_sha hooversion.Git.is_bad_component
    hooversion.Git.is_bad_name hooversion.Git.ref_sha hooversion.Git.run_with_context
    hooversion.Git.trim_end hooversion.Release.Checks.validate
    hooversion.Release.Effects.check_identity hooversion.Release.Effects.git_perform
    hooversion.Release.Effects.look hooversion.Release.Effects.modify
    hooversion.Release.Effects.observe hooversion.Release.Effects.pure
    hooversion.Release.Effects.query hooversion.Release.Effects.raise
    hooversion.Release.Effects.when◌then◌else◌ hooversion.Release.Effects.◌>>=◌
    hooversion.Release.Publishing.publish_github_releases hooversion.Release.Recovery.with_journal
    hooversion.Release.Resume.derive_resumable hooversion.Release.Resume.is_resumable_release
    hooversion.Release.Resume.verify_source hooversion.Text.Maps.insert hooversion.Text.Maps.lookup
    hooversion.Text.Paths.clean hooversion.Text.Paths.is_abs hooversion.Text.Paths.render
    hooversion.Text.has_prefix hooversion.Text.has_rune hooversion.Text.index hooversion.Text.join
    hooversion.Text.split hooversion.Text.to_lower is_pending
published_here = refl
