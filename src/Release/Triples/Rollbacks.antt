-- ===== src/Release/Triples/Rollbacks.antt =====
-- Rollback and recovery of internal/release/transaction.go publish nothing.
use hooversion.Common.{refl, true, false, List, [], ◌∷◌}
use hooversion.Git.{run_with_context}
use hooversion.Release.Effects.{
  Journal, FileSnapshot, Stat, absent, is_dir, stat_failed, remove_file, make_dirs, make_symlink,
  restore_file, delete_tag, move_head, restore_index, remove_journal, sync_metadata, World,
  RunState, modify,
}
use hooversion.Release.Journals.{finish}
use hooversion.Release.Recovery.{
  check_commit, release_head, restore_existing, restore_tag, restore_tags, remove_created,
  remove_by, remove_unless_absent, remove_present, restore_unlocked, remove_candidates,
  restore_path, restore_files, restore_head, restore_git_index, restore_all, rollback,
  confirm_release, recover,
}
use hooversion.Release.Triples.Steps.{git_perform-IsQuiet}
use hooversion.Release.Triples.{
  IsQuiet, IsFine, quiet-IsFine, Leads, chain, perform-IsQuiet, query_leads, check_identity_leads,
  raise_leads, pure_leads, when_leads, look_leads, with_journal_leads,
}
use hooversion.Text.Maps.{TextMap}
use hooversion.Text.{Text}

abbrev pub fine : (s : RunState) → IsQuiet s → IsFine s
fine s = quiet-IsFine

pub modify-IsQuiet : (f : Journal → Journal) → Leads IsQuiet (modify f) IsQuiet
unfolding modify
modify-IsQuiet f = record {
  run = λ s h. record { untouched = h.untouched; quiet_safe = h.quiet_safe };
}

module _ (world : World) where
  check_commit-IsQuiet : (at_head : Text) → Leads IsQuiet (check_commit world at_head) IsQuiet
  unfolding check_commit
  check_commit-IsQuiet at_head = with_journal_leads fine λ journal.
      chain (query_leads fine world _) λ parent. chain (query_leads fine world _) λ message.
        when_leads fine _ (raise_leads fine _)
          (when_leads fine _ (raise_leads fine _) (modify-IsQuiet _))

  pub release_head-IsQuiet : Leads IsQuiet (release_head world) IsQuiet
  unfolding release_head
  release_head-IsQuiet = chain (query_leads fine world _) λ at_head.
      with_journal_leads fine
        λ journal. when_leads fine _ (pure_leads fine tt) (check_commit-IsQuiet at_head)

  restore_existing-IsQuiet :
      (at_head tag original peeled raw : Text)
      → Leads IsQuiet (restore_existing world at_head tag original peeled raw) IsQuiet
  unfolding restore_existing
  restore_existing-IsQuiet at_head tag original peeled raw = with_journal_leads fine λ journal.
      when_leads fine _ (pure_leads fine tt) (
        when_leads fine _ (raise_leads fine _)
          (git_perform-IsQuiet world run_with_context delete_tag _ refl))

  restore_tag-IsQuiet :
      (at_head tag original : Text) → Leads IsQuiet (restore_tag world at_head tag original) IsQuiet
  unfolding restore_tag
  restore_tag-IsQuiet at_head tag original = chain (query_leads fine world _) λ peeled.
      when_leads fine _ (when_leads fine _ (pure_leads fine tt) (raise_leads fine _)) (
        chain (query_leads fine world _)
          λ raw. restore_existing-IsQuiet at_head tag original peeled _)

  restore_tags-IsQuiet :
      (at_head : Text) (tags : TextMap Text)
      → Leads IsQuiet (restore_tags world at_head tags) IsQuiet
  unfolding restore_tags
  restore_tags-IsQuiet at_head [] = pure_leads fine tt
  restore_tags-IsQuiet at_head ((tag, original) ∷ tags) =
      chain (restore_tag-IsQuiet at_head tag original) (λ _. restore_tags-IsQuiet at_head tags)

  remove_by-IsQuiet :
      (path : Text) (stat : Stat) → Leads IsQuiet (remove_by world path stat) IsQuiet
  unfolding remove_by
  remove_by-IsQuiet path absent = pure_leads fine tt
  remove_by-IsQuiet path stat_failed = raise_leads fine _
  remove_by-IsQuiet path is_dir = raise_leads fine _
  remove_by-IsQuiet path _ = perform-IsQuiet world (remove_file path) refl

  remove_candidates-IsQuiet :
      (paths : List Text) → Leads IsQuiet (remove_candidates world paths) IsQuiet
  unfolding remove_candidates remove_created
  remove_candidates-IsQuiet [] = pure_leads fine tt
  remove_candidates-IsQuiet (path ∷ paths) =
      chain
        (with_journal_leads fine λ journal.
          when_leads fine _ (pure_leads fine tt) (look_leads fine _ (remove_by-IsQuiet path)))
        (λ _. remove_candidates-IsQuiet paths)

  remove_unless_absent-IsQuiet :
      (path : Text) (stat : Stat) → Leads IsQuiet (remove_unless_absent world path stat) IsQuiet
  unfolding remove_unless_absent
  remove_unless_absent-IsQuiet path absent = pure_leads fine tt
  remove_unless_absent-IsQuiet path _ = perform-IsQuiet world (remove_file path) refl

  remove_present-IsQuiet : (path : Text) → Leads IsQuiet (remove_present world path) IsQuiet
  unfolding remove_present
  remove_present-IsQuiet path = look_leads fine _ (remove_unless_absent-IsQuiet path)

  restore_path-IsQuiet :
      (path : Text) (before : FileSnapshot) → Leads IsQuiet (restore_path world path before) IsQuiet
  unfolding restore_path
  restore_path-IsQuiet path before = when_leads fine _ (remove_present-IsQuiet path) (
      chain (perform-IsQuiet world (make_dirs _) refl) λ _.
        when_leads fine _
          (chain (remove_present-IsQuiet path)
            (λ _. perform-IsQuiet world (make_symlink _ path) refl))
          (perform-IsQuiet world (restore_file path _ _) refl))

  restore_files-IsQuiet :
      (files : TextMap FileSnapshot) → Leads IsQuiet (restore_files world files) IsQuiet
  unfolding restore_files
  restore_files-IsQuiet [] = pure_leads fine tt
  restore_files-IsQuiet ((path, before) ∷ files) =
      chain (restore_path-IsQuiet path before) (λ _. restore_files-IsQuiet files)

  restore_head-IsQuiet : (at_head : Text) → Leads IsQuiet (restore_head world at_head) IsQuiet
  unfolding restore_head
  restore_head-IsQuiet at_head = with_journal_leads fine λ journal.
      when_leads fine _ (pure_leads fine tt)
        (git_perform-IsQuiet world run_with_context move_head _ refl)

  restore_unlocked-IsQuiet : (stat : Stat) → Leads IsQuiet (restore_unlocked world stat) IsQuiet
  unfolding restore_unlocked
  restore_unlocked-IsQuiet absent =
      with_journal_leads fine λ journal. perform-IsQuiet world (restore_index _ _) refl
  restore_unlocked-IsQuiet stat_failed = raise_leads fine _
  restore_unlocked-IsQuiet _ = raise_leads fine _

  finish-IsQuiet : Leads IsQuiet (finish world) IsQuiet
  unfolding finish
  finish-IsQuiet =
      chain (perform-IsQuiet world remove_journal refl)
        (λ _. perform-IsQuiet world sync_metadata refl)

  restore_all-IsQuiet : (at_head : Text) → Leads IsQuiet (restore_all world at_head) IsQuiet
  unfolding restore_all restore_git_index
  restore_all-IsQuiet at_head = with_journal_leads fine λ journal.
      chain (restore_tags-IsQuiet at_head journal.tags) λ _.
        chain (query_leads fine world _) λ untracked.
          chain
            (when_leads fine _ (pure_leads fine _)
              (chain (query_leads fine world _) (λ changed. pure_leads fine _)))
            λ changed. chain (remove_candidates-IsQuiet _) λ _. chain (restore_files-IsQuiet _) λ _.
              chain (restore_head-IsQuiet at_head)
                λ _. chain (look_leads fine _ restore_unlocked-IsQuiet) λ _. finish-IsQuiet

  -- A rollback that starts where nothing was published publishes nothing.
  pub rollback-IsQuiet : Leads IsQuiet (rollback world) IsQuiet
  unfolding rollback
  rollback-IsQuiet = chain (check_identity_leads fine world) λ _.
      chain (query_leads fine world _) λ ref. with_journal_leads fine λ journal.
        when_leads fine _ (raise_leads fine _)
          (chain release_head-IsQuiet λ _. chain (query_leads fine world _) restore_all-IsQuiet)

  confirm_release-IsQuiet : Leads IsQuiet (confirm_release world) IsQuiet
  unfolding confirm_release
  confirm_release-IsQuiet = chain release_head-IsQuiet λ _. with_journal_leads fine λ journal.
      when_leads fine _ (raise_leads fine _) (
        chain (query_leads fine world _)
          λ at_head. when_leads fine _ (pure_leads fine false) (raise_leads fine _))

  pub recover-IsQuiet : Leads IsQuiet (recover world) IsQuiet
  unfolding recover
  recover-IsQuiet = chain (check_identity_leads fine world) λ _. with_journal_leads fine λ journal.
      when_leads fine _ confirm_release-IsQuiet (chain rollback-IsQuiet (λ _. pure_leads fine true))
