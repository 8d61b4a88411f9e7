-- ===== src/App/Filter/Examples.antt =====
-- Tests of filter.go, and its theorem at a concrete payload.
use hooversion.App.Filter.Acceptance.{IsReleasable, should_handle_workflow_run_iff}
use hooversion.App.Filter.{
  WebhookPayload, FilterConfig, accepted, ignored, has_line, is_release_commit,
  should_handle_repository, should_handle_workflow_run, workflow_run_key, release_queue_key,
}
use hooversion.Common.{◌≡◌, ◌↔◌, refl, true, false, [], ◌∷◌, some}
use hooversion.Text.Decimal.{format}
use hooversion.Text.{codes, text_eq, contains, has_prefix, index, join}

abbrev payload : WebhookPayload
payload = record {
  action = codes "completed";
  repository = record {
    id = 7;
    full_name = codes "org/app";
    clone_url = codes "https://github.com/org/app.git";
    default_branch = codes "main";
  };
  installation = some 3;
  workflow_run = record {
    name = codes "CI";
    event = codes "push";
    conclusion = some (codes "success");
    head_branch = some (codes "main");
    head_sha = codes "abc";
    id = some 42;
    head_commit_msg = codes "feat: x";
    head_repository = codes "org/app";
  };
}

abbrev cfg : FilterConfig
cfg = record {
  allowed_repositories = [];
  release_branches = codes "main" ∷ [];
  ci_workflow_names = codes "CI" ∷ [];
}

release_commits :
    (is_release_commit (codes "chore(release): app 1.0.0") ≡ true)
    × (is_release_commit (codes "feat: x\nchore(release): y") ≡ true)
    × (is_release_commit (codes "docs: y [Skip CI]") ≡ true)
    × (is_release_commit (codes "chore: release") ≡ false)
unfolding is_release_commit has_line has_prefix index
release_commits = (refl, refl, refl, refl)

decisions :
    (should_handle_workflow_run payload cfg ≡ accepted)
    × (should_handle_workflow_run (record payload { action = codes "requested" }) cfg
        ≡ ignored (codes "workflow_run action is requested"))
unfolding should_handle_workflow_run should_handle_repository text_eq contains is_release_commit
    has_line has_prefix index
decisions = (refl, refl)

run_keys :
    (workflow_run_key payload ≡ codes "org/app:42:CI:main")
    × (release_queue_key payload ≡ codes "org/app:main")
unfolding workflow_run_key release_queue_key join format
run_keys = (refl, refl)

should_handle_workflow_run_iff_example :
    (should_handle_workflow_run payload cfg ≡ accepted) ↔ IsReleasable payload cfg
should_handle_workflow_run_iff_example = should_handle_workflow_run_iff payload cfg
