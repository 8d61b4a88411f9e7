-- ===== src/Release/Execute/Staged.antt =====
-- internal/release: the stages of a release up to the push change nothing outside of the
-- repository, and those behind it find a journal that stays.
use hooversion.Common.{refl, Bool, true, List}
use hooversion.Release.Effects.{
  mutating, committing, tagging, external, published, git_command, make_dirs, write_outputs,
  update_version, update_dependencies, update_changelog, World, RunState,
}
use hooversion.Release.Publishing.Settled.{publish_github_releases-IsSettled}
use hooversion.Release.Stages.{
  Options, create_release_commit, create_annotated_tag, push_release, write_versions, make_release,
  complete_tags, push_stage, check_remote_tags, github_stage, publish,
}
use hooversion.Release.Triples.Rollbacks.{fine, release_head-IsQuiet}
use hooversion.Release.Triples.Steps.{
  weaken, strengthen, git_perform-IsQuiet, push-IsSettled, run_hooks-IsQuiet, run_hooks-IsOpen,
  perform-IsOpen, perform_all_leads, advance-IsQuiet, advance-IsSettled, finish_fine,
}
use hooversion.Release.Triples.{
  IsQuiet, IsSettled, IsOpen, quiet, settled, IsFine, settled-IsFine, open-IsFine, Leads, chain,
  perform-IsQuiet, query_leads, observe_leads, check_identity_leads, pure_leads, when_leads,
}
use hooversion.Text.{Text}
use hooversion.Types.{NormalizedConfig, ReleasePlan}

abbrev fine_settled : (s : RunState) → IsSettled s → IsFine s
fine_settled s = settled-IsFine

abbrev fine_open : (s : RunState) → IsOpen s → IsFine s
fine_open s = open-IsFine

module _ (world : World) where
  create_release_commit-IsQuiet :
      (message : Text) → Leads IsQuiet (create_release_commit world message) IsQuiet
  unfolding create_release_commit
  create_release_commit-IsQuiet message =
      chain (git_perform-IsQuiet world _ git_command _ refl) λ _.
        chain (query_leads fine world _) λ status.
          when_leads fine _ (pure_leads fine tt) (git_perform-IsQuiet world _ git_command _ refl)

  create_annotated_tag-IsQuiet :
      (tag message : Text) → Leads IsQuiet (create_annotated_tag world tag message) IsQuiet
  unfolding create_annotated_tag
  create_annotated_tag-IsQuiet tag message =
      chain (query_leads fine world _) λ _. git_perform-IsQuiet world _ git_command _ refl

  write_versions-IsQuiet :
      (config : NormalizedConfig) (plan : ReleasePlan)
      → Leads IsQuiet (write_versions world config plan) IsQuiet
  unfolding write_versions
  write_versions-IsQuiet config plan =
      chain
        (perform_all_leads world fine _ (λ release. perform-IsQuiet world (update_version _ _) refl)
          _)
        λ _.
          chain
            (perform_all_leads world fine _
              (λ pkg. perform-IsQuiet world (update_dependencies pkg _) refl) _)
            λ _.
              perform_all_leads world fine _
                (λ release. perform-IsQuiet world (update_changelog _ _ _) refl) _

  pub make_release-IsQuiet :
      (config : NormalizedConfig) (plan : ReleasePlan)
      → Leads IsQuiet (make_release world config plan) IsQuiet
  unfolding make_release
  make_release-IsQuiet config plan = chain (advance-IsQuiet world mutating) λ _.
      chain (run_hooks-IsQuiet world _) λ _. chain (observe_leads fine _) λ _.
        chain (write_versions-IsQuiet config plan) λ _. chain (run_hooks-IsQuiet world _) λ _.
          chain (observe_leads fine _) λ _. chain (check_identity_leads fine world) λ _.
            chain (advance-IsQuiet world committing) λ _.
              chain (create_release_commit-IsQuiet _) λ _. chain (release_head-IsQuiet world) λ _.
                chain (advance-IsQuiet world tagging) λ _.
                  perform_all_leads world fine _
                    (λ release.
                      chain (check_identity_leads fine world)
                        (λ _. create_annotated_tag-IsQuiet release.tag _))
                    _

  pub complete_tags-IsQuiet :
      (plan : ReleasePlan) → Leads IsQuiet (complete_tags world plan) IsQuiet
  unfolding complete_tags
  complete_tags-IsQuiet plan = chain (check_identity_leads fine world) λ _.
      perform_all_leads world fine _
        (λ release. chain (query_leads fine world _) λ ref.
          when_leads fine _ (create_annotated_tag-IsQuiet release.tag _) (pure_leads fine tt))
        _

  push_release-IsSettled :
      (branch : Text) (tags : List Text)
      → Leads IsSettled (push_release world branch tags) IsSettled
  unfolding push_release
  push_release-IsSettled branch tags = chain (query_leads fine_settled world _) λ _.
      chain (perform_all_leads world fine_settled _ (λ tag. query_leads fine_settled world _) tags)
        λ _. push-IsSettled world _ _

  push_stage-IsOpen :
      (plan : ReleasePlan) (should_push : Bool)
      → Leads IsQuiet (push_stage world plan should_push) IsOpen
  unfolding push_stage
  push_stage-IsOpen plan should_push =
      when_leads fine should_push
        (chain (check_identity_leads fine world) λ _.
          chain (strengthen (λ s q. quiet q) (advance-IsSettled world external refl))
            λ _. weaken (λ s q. settled q) (push_release-IsSettled _ _))
        (weaken (λ s q. quiet q) (pure_leads fine tt))

  github_stage-IsOpen :
      (config : NormalizedConfig) (plan : ReleasePlan) (token : Text)
      (should_publish should_push : Bool)
      → Leads IsOpen (github_stage world config plan token should_publish should_push) IsOpen
  unfolding github_stage check_remote_tags
  github_stage-IsOpen config plan token should_publish should_push =
      chain
        (when_leads fine_open _
          (chain (query_leads fine_open world _)
            λ head. perform_all_leads world fine_open _ (λ release. observe_leads fine_open _) _)
          (pure_leads fine_open tt))
        λ _.
          when_leads fine_open _
            (chain (advance-IsSettled world external refl) λ _.
              weaken (λ s q. settled q) (publish_github_releases-IsSettled world config plan token))
            (pure_leads fine_open tt)

  pub publish_fine :
      (config : NormalizedConfig) (plan : ReleasePlan) (o : Options)
      → Leads IsQuiet (publish world config plan o) IsFine
  unfolding publish
  publish_fine config plan o = chain (push_stage-IsOpen plan _) λ _.
      chain (perform-IsOpen world (make_dirs _) refl refl refl refl) λ _.
        chain (github_stage-IsOpen config plan _ _ _) λ _.
          chain (perform-IsOpen world (write_outputs _ true) refl refl refl refl) λ _.
            chain (advance-IsSettled world published refl) λ _.
              chain (strengthen (λ s q. settled q) (run_hooks-IsOpen world _))
                λ _. chain (strengthen fine_open (finish_fine world)) λ _. pure_leads (λ s h. h) _
