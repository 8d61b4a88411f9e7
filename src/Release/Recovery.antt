-- ===== src/Release/Recovery.antt =====
-- internal/release/transaction.go: the recovery of an interrupted release, its rollback, and what
-- becomes of a run that fails.
use hooversion.Common.{
  Bool, true, false, not, ◌&&◌, ◌||◌, List, [], ◌∷◌, ◌++◌, Option, none, some, ltb, ◌==◌,
  if◌then◌else◌, Result, ok, err,
}
use hooversion.Git.{run_with_context, head_sha, ref_sha, commit_message}
use hooversion.Release.Effects.{
  Phase, external, published, FileSnapshot, Journal, remove_file, make_dirs, make_symlink,
  restore_file, delete_tag, move_head, restore_index, Stat, absent, is_dir, stat_failed, World,
  RunState, Action, pure, raise, modify, query, perform, git_perform, check_identity, ◌>>=◌, ◌>>◌,
  when◌then◌else◌, look,
}
use hooversion.Release.Journals.{machine_paths, list_untracked, symbolic_head, finish, show_tag}
use hooversion.Release.Message.{release_commit_message, release_message_matches}
use hooversion.Release.{
  Error, file_error, changed_head, commit_drift, no_release_commit, recorded_commit_required,
  changed_branch, index_locked, missing_tag, moved_tag, is_directory, journal_retained,
  recovery_unfinished,
}
use hooversion.Text.Maps.{TextMap, lookup}
use hooversion.Text.Paths.{clean, render}
use hooversion.Text.{Text, codes, text_eq, contains, trim_space}
use hooversion.Types.{ReleasePlan}

-- Remote effects that cannot be taken back, or may have happened.
abbrev pub is_irreversible : Phase → Bool
is_irreversible external = true
is_irreversible published = true
is_irreversible phase = false

-- the order of two texts by their bytes, which is that of their code points
unfoldable pub text_lt : Text → Text → Bool
text_lt [] [] = false
text_lt [] (d ∷ t) = true
text_lt (c ∷ s) [] = false
text_lt (c ∷ s) (d ∷ t) = let rest = text_lt s t in ltb c d || (c == d && rest)

module _ {V : Type 0} where
  insert_sorted : Text × V → TextMap V → TextMap V
  insert_sorted entry [] = entry ∷ []
  insert_sorted entry (first ∷ rest) =
      let later = insert_sorted entry rest in
      if text_lt first.0 entry.0 then first ∷ later else entry ∷ first ∷ rest

  -- sort.Strings on the keys of a map
  unfoldable pub sorted_entries : TextMap V → TextMap V
  unfolding insert_sorted text_lt
  sorted_entries [] = []
  sorted_entries (entry ∷ entries) = insert_sorted entry (sorted_entries entries)

abbrev drop_last : List Text → List Text
drop_last [] = []
drop_last (e ∷ []) = []
drop_last (e ∷ f ∷ es) = e ∷ drop_last (f ∷ es)

-- filepath.Dir: the elements but the last, cleaned
unfoldable pub parent_dir : Text → Text
parent_dir path = let p = clean path in render (record p { elements = drop_last p.elements })

abbrev plan_message : Option ReleasePlan → Text
plan_message none = []
plan_message (some plan) = release_commit_message plan

abbrev pub ended : Error → Result Error (Unit {0}) × RunState → Error × RunState
ended cause (ok u, s) = (cause, s)
ended cause (err e, s) = (recovery_unfinished cause e, s)

unfoldable pub with_journal : {A : Type 0} → (Journal → Action A) → Action A
with_journal f s = f s.journal s

module _ (world : World) where
  abbrev head : Action Text
  head = query world (λ s. head_sha s.run)

  abbrev revision : Text → Action Text
  revision ref = query world (λ s. ref_sha s.lower s.run ref)

  -- the release commit behind the source of the journal
  unfoldable pub check_commit : Text → Action (Unit {0})
  check_commit at_head = with_journal λ journal. revision (codes "HEAD^") >>= λ parent.
      query world (λ s. commit_message s.run (codes "HEAD")) >>= λ message.
      when not (text_eq parent journal.source)
        || not (release_message_matches message (plan_message journal.plan))
      then raise (changed_head at_head journal.source)
      else when not (text_eq journal.release_head []) && not (text_eq journal.release_head at_head)
      then raise commit_drift
      else modify (λ journal. record journal { release_head = at_head })

  -- releaseHead
  unfoldable pub release_head : Action (Unit {0})
  unfolding check_commit
  release_head = head >>= λ at_head.
      with_journal
        λ journal. when text_eq at_head journal.source then pure tt else check_commit at_head

  abbrev delete_command : Text → Text → List Text
  delete_command tag raw = codes "update-ref" ∷ codes "-d" ∷ (codes "refs/tags/" ++ tag) ∷ raw ∷ []

  -- what becomes of a tag that exists
  unfoldable pub restore_existing : Text → Text → Text → Text → Text → Action (Unit {0})
  restore_existing at_head tag original peeled raw = with_journal λ journal.
      when text_eq raw original
      then pure tt
      else when not (text_eq original [])
          || not (text_eq peeled at_head)
          || text_eq journal.release_head []
      then raise (moved_tag tag)
      else git_perform world run_with_context delete_tag (delete_command tag raw)

  -- one round of the loop over the tags
  unfoldable pub restore_tag : Text → Text → Text → Action (Unit {0})
  unfolding restore_existing
  restore_tag at_head tag original = revision (codes "refs/tags/" ++ tag) >>= λ peeled.
      when text_eq peeled []
      then (when text_eq original [] then pure tt else raise (missing_tag tag))
      else (query world (λ s. run_with_context s.run (show_tag tag)) >>= λ raw.
          restore_existing at_head tag original peeled (trim_space raw))

  unfoldable pub restore_tags : Text → TextMap Text → Action (Unit {0})
  unfolding restore_tag
  restore_tags at_head [] = pure tt
  restore_tags at_head ((tag, original) ∷ tags) =
      restore_tag at_head tag original >> restore_tags at_head tags

  unfoldable pub remove_by : Text → Stat → Action (Unit {0})
  remove_by path absent = pure tt
  remove_by path stat_failed = raise file_error
  remove_by path is_dir = raise (is_directory path)
  remove_by path _ = perform world (remove_file path)

  -- a file that the release created
  unfoldable pub remove_created : Text → Action (Unit {0})
  unfolding remove_by
  remove_created path = look (λ trace. world.stat trace path) (remove_by path)

  abbrev was_there : Journal → Text → Bool
  was_there journal path = elim (lookup path journal.files) [
    | none ↦ contains journal.untracked path
    | some snapshot ↦ true
  ]

  -- the loop over the candidates
  unfoldable pub remove_candidates : List Text → Action (Unit {0})
  unfolding remove_created
  remove_candidates [] = pure tt
  remove_candidates (path ∷ paths) =
      (with_journal λ journal. when was_there journal path then pure tt else remove_created path)
      >> remove_candidates paths

  unfoldable pub remove_unless_absent : Text → Stat → Action (Unit {0})
  remove_unless_absent path absent = pure tt
  remove_unless_absent path _ = perform world (remove_file path)

  -- Remove where a missing file is no error
  unfoldable pub remove_present : Text → Action (Unit {0})
  unfolding remove_unless_absent
  remove_present path = look (λ trace. world.stat trace path) (remove_unless_absent path)

  -- one round of the loop over the files of the journal
  unfoldable pub restore_path : Text → FileSnapshot → Action (Unit {0})
  unfolding remove_present
  restore_path path before =
      when not before.present
      then remove_present path
      else (perform world (make_dirs (parent_dir path))
          >> (when not (text_eq before.link [])
              then (remove_present path >> perform world (make_symlink before.link path))
              else perform world (restore_file path before.content before.mode)))

  unfoldable pub restore_files : TextMap FileSnapshot → Action (Unit {0})
  unfolding restore_path
  restore_files [] = pure tt
  restore_files ((path, before) ∷ files) = restore_path path before >> restore_files files

  abbrev changed_paths : Text → Text → Action (List Text)
  changed_paths source at_head =
      when text_eq at_head source
      then pure []
      else (query world (λ s.
            run_with_context s.run (
              codes "diff" ∷ codes "--name-only" ∷ codes "-z" ∷ source ∷ at_head ∷ codes "--" ∷ []))
          >>= λ changed. pure (machine_paths changed))

  abbrev move_command : Journal → Text → List Text
  move_command journal at_head =
      codes "update-ref" ∷ journal.head_ref ∷ journal.source ∷ at_head ∷ []

  -- the branch goes back to the source
  unfoldable pub restore_head : Text → Action (Unit {0})
  restore_head at_head = with_journal λ journal.
      when text_eq at_head journal.source
      then pure tt
      else git_perform world run_with_context move_head (move_command journal at_head)

  unfoldable pub restore_unlocked : Stat → Action (Unit {0})
  restore_unlocked absent =
      with_journal λ journal. perform world (restore_index journal.index journal.index_mode)
  restore_unlocked stat_failed = raise file_error
  restore_unlocked _ = raise index_locked

  unfoldable pub restore_git_index : Action (Unit {0})
  unfolding restore_unlocked
  restore_git_index = look world.index_lock restore_unlocked

  -- the part of rollback that changes the repository
  unfoldable pub restore_all : Text → Action (Unit {0})
  unfolding restore_tags remove_candidates restore_files sorted_entries restore_head
      restore_git_index finish machine_paths
  restore_all at_head = with_journal λ journal.
      restore_tags at_head journal.tags
      >> (query world (λ s. run_with_context s.run list_untracked) >>= λ untracked.
          changed_paths journal.source at_head >>= λ changed.
          remove_candidates (machine_paths untracked ++ changed)
          >> (restore_files (sorted_entries journal.files)
              >> (restore_head at_head >> (restore_git_index >> finish world))))

  -- rollback
  unfoldable pub rollback : Action (Unit {0})
  unfolding restore_all release_head
  rollback =
      check_identity world
      >> (query world (λ s. run_with_context s.run symbolic_head) >>= λ ref. with_journal λ journal.
          when not (text_eq (trim_space ref) journal.head_ref)
          then raise changed_branch
          else (release_head >> (head >>= restore_all)))

  -- the part of recover for a release that is resumed and never rolled back
  unfoldable pub confirm_release : Action Bool
  unfolding release_head
  confirm_release =
      release_head
      >> (with_journal λ journal.
          when text_eq journal.release_head []
          then raise no_release_commit
          else (head >>= λ at_head.
              when text_eq at_head journal.release_head
              then pure false
              else raise (recorded_commit_required journal.release_head)))

  -- recover
  unfoldable pub recover : Action Bool
  unfolding confirm_release rollback
  recover =
      check_identity world
      >> (with_journal λ journal.
          when is_irreversible journal.phase then confirm_release else (rollback >> pure true))

  -- abort, which returns the error of the run
  unfoldable pub abort : Error → RunState → Error × RunState
  unfolding rollback
  abort cause s =
      if is_irreversible s.journal.phase
      then (journal_retained cause, s)
      else ended cause (rollback s)
