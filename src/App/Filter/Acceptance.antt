-- ===== src/App/Filter/Acceptance.antt =====
-- The workflow runs that ShouldHandleWorkflowRun of internal/app/filter.go accepts.
use hooversion.App.Filter.{
  WebhookPayload, FilterConfig, accepted, is_success, is_release_commit, should_handle_repository,
  should_handle_workflow_run,
}
use hooversion.Common.{
  ◌≡◌, ◌≢◌, ◌↔◌, ◌⊎◌, inl, inr, true, false, [], Option, none, some, arith, Option-cases,
}
use hooversion.Text.Laws.{text_eq_iff, text_eq_refl}
use hooversion.Text.{Text, codes, contains}

-- A completed, successful run of a configured workflow, for a push to a release branch of an
-- allowed repository itself, whose head is no release commit.
pub record IsReleasable (payload : WebhookPayload) (cfg : FilterConfig) : Type 0 where
  pub completed : payload.action ≡ codes "completed"
  pub successful : payload.workflow_run.conclusion ≡ some (codes "success")
  pub pushed : payload.workflow_run.event ≡ codes "push"
  pub configured : contains cfg.ci_workflow_names payload.workflow_run.name ≡ true
  pub branch :
      (b : Text) × (payload.workflow_run.head_branch ≡ some b)
      × (b ≢ [])
      × (contains cfg.release_branches b ≡ true)
  pub own :
      (payload.workflow_run.head_repository ≡ [])
      ⊎ (payload.workflow_run.head_repository ≡ payload.repository.full_name)
  pub allowed :
      (cfg.allowed_repositories ≡ [])
      ⊎ (contains cfg.allowed_repositories payload.repository.full_name ≡ true)
  pub no_release : is_release_commit payload.workflow_run.head_commit_msg ≡ false
  pub installed : payload.installation ≢ none
  pub has_sha : payload.workflow_run.head_sha ≢ []

is_success_iff : (c : Option Text) → (is_success c ≡ true) ↔ (c ≡ some (codes "success"))
is_success_iff none = ground arith
is_success_iff (some t) = ground (arith, text_eq_iff t (codes "success"))

-- Every run that is accepted is releasable, and every releasable run is accepted.
pub should_handle_workflow_run_iff :
    (payload : WebhookPayload) (cfg : FilterConfig)
    → (should_handle_workflow_run payload cfg ≡ accepted) ↔ IsReleasable payload cfg
unfolding should_handle_workflow_run should_handle_repository
should_handle_workflow_run_iff payload cfg =
    let run = payload.workflow_run in
    (
      λ h. record {
        completed = ground (arith, text_eq_iff payload.action (codes "completed"));
        successful = ground (arith, is_success_iff run.conclusion);
        pushed = ground (arith, text_eq_iff run.event (codes "push"));
        configured = ground arith;
        branch = elim (Option-cases run.head_branch) [
          | inl e ↦ absurd (ground (arith, e, h, text_eq_refl []))
          | inr (b, e) ↦ (b, e, ground (arith, text_eq_iff b []), ground arith)
        ];
        own = ground (
          arith,
          text_eq_iff run.head_repository [],
          text_eq_iff run.head_repository payload.repository.full_name,
        );
        allowed = ground arith;
        no_release = ground arith;
        installed = ground arith;
        has_sha = ground (arith, text_eq_iff run.head_sha []);
      },
      λ r.
          let (b, e, nonempty, listed) = r.branch in
          ground (
            arith,
            text_eq_iff payload.action (codes "completed"),
            is_success_iff run.conclusion,
            text_eq_iff run.event (codes "push"),
            e,
            nonempty,
            listed,
            text_eq_iff b [],
            text_eq_iff run.head_repository [],
            text_eq_iff run.head_repository payload.repository.full_name,
            text_eq_iff run.head_sha [],
          ),
    )
