-- ===== src/Release/Stages.antt =====
-- internal/release/release.go: the stages of Execute that change the checkout, the repository and
-- what is published.
use hooversion.Common.{
  Bool, true, false, not, ◌&&◌, List, [], ◌∷◌, ◌++◌, Option, none, some, if◌then◌else◌, map, Result,
  ok, err,
}
use hooversion.Git
use hooversion.Git.Remote.{remote_tag_sha}
use hooversion.Git.WorkingTree.{join_path}
use hooversion.Git.{git_run, git_run_raw, head_sha, ref_sha, assert_valid_git_ref}
use hooversion.Release.Effects.{
  mutating, committing, tagging, external, published, git_command, push, make_dirs, write_outputs,
  update_version, update_dependencies, update_changelog, World, Action, pure, query, observe,
  perform, git_perform, run_hooks, check_identity, ◌>>=◌, ◌>>◌, when◌then◌else◌,
}
use hooversion.Release.Journals.{advance, finish}
use hooversion.Release.Message.{release_commit_message, named_version}
use hooversion.Release.Publishing.{publish_github_releases}
use hooversion.Release.Recovery.{release_head}
use hooversion.Release.Resume.{
  derive_resumable, is_resumable_release, verify_local_source, verify_source,
  verify_resumable_remote,
}
use hooversion.Release.{
  Error, from_git, plan_error, recovery_pending, tag_unresolved, tag_elsewhere, journal_mismatch,
}
use hooversion.Text.Maps.{TextMap, insert}
use hooversion.Text.{Text, codes, text_eq, trim_space}
use hooversion.Types.{NormalizedConfig, PackageRelease, ReleasePlan}

-- Options, without the authentication of Git; a switch that is not set is none
pub record Options : Type 0 where
  pub dry_run : Bool
  pub push_set : Option Bool
  pub github_set : Option Bool
  pub github_token : Text

-- Result
pub record Outcome : Type 0 where
  pub is_published : Bool
  pub plan : ReleasePlan

abbrev pub or_default : Option Bool → Bool → Bool
or_default none b = b
or_default (some a) b = a

module _ (world : World) where
  abbrev pub perform_all : {A : Type 0} → (A → Action (Unit {0})) → List A → Action (Unit {0})
  perform_all f [] = pure tt
  perform_all f (a ∷ as') = f a >> perform_all f as'

  abbrev pub on_sources :
      {A : Type 0} → (hooversion.Release.Resume.Transition.Sources → Result Error A) → Action A
  on_sources f = observe (λ trace. f (world.sources trace))

  -- CreateReleaseCommitWithEnv
  unfoldable pub create_release_commit : Text → Action (Unit {0})
  create_release_commit message =
      git_perform world (λ run args. git_run run args false) git_command
        (codes "add" ∷ codes "--all" ∷ [])
      >> (query world (λ s. git_run s.run (codes "status" ∷ codes "--porcelain" ∷ []) false)
          >>= λ status.
              when text_eq (trim_space status) []
              then pure tt
              else git_perform world (λ run args. git_run run args false) git_command
                  (codes "commit" ∷ codes "-m" ∷ message ∷ []))

  -- CreateAnnotatedTagWithEnv
  unfoldable pub create_annotated_tag : Text → Text → Action (Unit {0})
  create_annotated_tag tag message =
      query world (λ s. assert_valid_git_ref s.lower tag)
      >> git_perform world (λ run args. git_run run args false) git_command
          (codes "tag" ∷ codes "-a" ∷ tag ∷ codes "-m" ∷ message ∷ [])

  abbrev pub push_command : Text → List Text → List Text
  push_command branch tags =
      codes "push"
      ∷ codes "--atomic"
      ∷ codes "--no-verify"
      ∷ codes "--"
      ∷ codes "origin"
      ∷ (codes "HEAD:refs/heads/" ++ branch)
      ∷ map (λ tag. codes "refs/tags/" ++ tag) tags

  -- PushReleaseWithEnv
  unfoldable pub push_release : Text → List Text → Action (Unit {0})
  push_release branch tags =
      query world (λ s. assert_valid_git_ref s.lower branch)
      >> (perform_all (λ tag. query world (λ s. assert_valid_git_ref s.lower tag)) tags
          >> git_perform world (λ run args. git_run run args false) push (push_command branch tags))

  abbrev pub released_versions : List PackageRelease → TextMap Text → TextMap Text
  released_versions [] versions = versions
  released_versions (release ∷ releases) versions =
      released_versions releases (insert release.pkg.name release.next_version versions)

  abbrev pub in_checkout : Text → Text
  in_checkout path = join_path world.cwd path

  abbrev pub local_source : ReleasePlan → Action (Unit {0})
  local_source plan = on_sources (λ s. verify_local_source s.run plan)

  -- the versions, the dependencies on them and the changelogs
  unfoldable pub write_versions : NormalizedConfig → ReleasePlan → Action (Unit {0})
  write_versions config plan =
      perform_all
        (λ (release : PackageRelease). perform world (
          update_version (record release.pkg { manifest = in_checkout release.pkg.manifest })
            release.next_version))
        plan.releases
      >> (perform_all
            (λ pkg. perform world (update_dependencies pkg (released_versions plan.releases [])))
            config.packages
          >> perform_all
              (λ (release : PackageRelease). perform world (
                update_changelog (in_checkout release.pkg.changelog) release.notes
                  release.pkg.name))
              plan.releases)

  abbrev pub tag_release : PackageRelease → Action (Unit {0})
  tag_release release = create_annotated_tag release.tag (named_version release)

  -- the branch for a release that is not resumed
  unfoldable pub make_release : NormalizedConfig → ReleasePlan → Action (Unit {0})
  unfolding advance run_hooks write_versions create_release_commit release_head create_annotated_tag
  make_release config plan =
      advance world mutating
      >> (run_hooks world config.hooks.before_release
          >> (local_source plan
              >> (write_versions config plan
                  >> (run_hooks world config.hooks.after_version
                      >> (local_source plan
                          >> (check_identity world
                              >> (advance world committing
                                  >> (create_release_commit (release_commit_message plan)
                                      >> (release_head world
                                          >> (advance world tagging
                                              >> perform_all
                                                  (λ release.
                                                    check_identity world >> tag_release release)
                                                  plan.releases))))))))))

  -- the branch for a release that is resumed
  unfoldable pub complete_tags : ReleasePlan → Action (Unit {0})
  complete_tags plan =
      check_identity world
      >> perform_all
          (λ (release : PackageRelease).
            query world (λ s. ref_sha s.lower s.run (codes "refs/tags/" ++ release.tag)) >>= λ ref.
            when text_eq ref [] then tag_release release else pure tt)
          plan.releases

  -- the push, where it is asked for
  unfoldable pub push_stage : ReleasePlan → Bool → Action (Unit {0})
  unfolding advance push_release
  push_stage plan should_push =
      when should_push
      then (check_identity world
          >> (advance world external
              >> push_release plan.branch (map (λ release. release.tag) plan.releases)))
      else pure tt

  abbrev pub missing_or : Text → Text
  missing_or found = if text_eq found [] then codes "missing" else found

  abbrev pub expect_tag : Text → Text → Result hooversion.Git.Error Text → Result Error (Unit {0})
  expect_tag tag head (ok remote) =
      if text_eq remote head then ok tt else err (tag_elsewhere tag head (missing_or remote))
  expect_tag tag head (err e) = err (tag_unresolved tag e)

  -- without a push each tag must stand at the commit remotely
  unfoldable pub check_remote_tags : ReleasePlan → Action (Unit {0})
  check_remote_tags plan = query world (λ s. head_sha s.run) >>= λ head.
      perform_all
        (λ (release : PackageRelease).
          on_sources (λ s. expect_tag release.tag head (remote_tag_sha s.lower s.run release.tag)))
        plan.releases

  -- the publication on GitHub, where it is asked for
  unfoldable pub github_stage :
      NormalizedConfig → ReleasePlan → Text → Bool → Bool → Action (Unit {0})
  unfolding check_remote_tags advance
  github_stage config plan token should_publish should_push =
      (when should_publish && not should_push then check_remote_tags plan else pure tt)
      >> (when should_publish
          then (advance world external >> publish_github_releases world config plan token)
          else pure tt)

  -- what follows the mutations and the tags
  unfoldable pub publish : NormalizedConfig → ReleasePlan → Options → Action Outcome
  unfolding push_stage github_stage advance run_hooks finish
  publish config plan o =
      let should_push = or_default o.push_set config.push in
      let should_publish =
        or_default o.github_set true && config.github.enabled && config.github.releases in
      push_stage plan should_push
      >> (perform world (make_dirs config.output_dir)
          >> (github_stage config plan o.github_token should_publish should_push
              >> (perform world (write_outputs plan.releases true)
                  >> (advance world published
                      >> (run_hooks world config.hooks.after_release
                          >> (finish world
                              >> pure (record { is_published = true; plan = plan })))))))
