-- ===== src/Release/Journals.antt =====
-- internal/release/transaction.go: the journal of a release, how it is loaded and checked, how it
-- is saved, and the snapshot that it starts from. The maps of the journal are lists of pairs in the
-- order of sort.Strings on their keys.
use hooversion.Common.{
  ℕ, ◌+◌, ◌*◌, ◌^◌, Bool, true, false, not, ◌&&◌, ◌||◌, List, [], ◌∷◌, ◌++◌, Option, none, some,
  ltb, ◌==◌, if◌then◌else◌, length, take, filter, Result, ok, err,
}
use hooversion.Git.{run_with_context, assert_valid_git_ref, head_sha, ref_sha}
use hooversion.Release.Effects.{
  Phase, prepared, external, other_phase, FileSnapshot, Journal, Effect, save_journal, save_failed,
  to_result, remove_journal, sync_metadata, Trace, Stat, absent, regular, symlink, World, Action,
  pure, raise, modify, query, observe, perform, ◌>>=◌, ◌>>◌, look, raise, pure,
}
use hooversion.Release.{
  Error, from_git, file_error, journal_mismatch, journal_index, journal_branch, journal_phase,
  unsafe_path, git_error,
}
use hooversion.Text.Maps.{TextMap, lookup, insert}
use hooversion.Text.Paths.{is_abs, clean, render, rel, dot, dot_dot}
use hooversion.Text.{Text, codes, text_eq, has_prefix, trim_space, split, join}
use hooversion.Types.{NormalizedConfig, PackageRelease, ReleasePlan}

-- filepath.IsLocal
unfoldable pub is_local : Text → Bool
is_local path =
    let cleaned = render (clean path) in
    not (is_abs path || text_eq path [])
    && not (text_eq cleaned dot_dot || has_prefix cleaned (codes "../"))

-- the paths that no journal may hold
unfoldable pub is_unsafe : Text → Bool
unfolding is_local
is_unsafe path =
    not (is_local path)
    || text_eq (render (clean path)) dot
    || text_eq path (codes ".git")
    || has_prefix path (codes ".git/")

abbrev pub is_known : Phase → Bool
is_known (other_phase name) = false
is_known phase = true

abbrev phase_name : Phase → Text
phase_name (other_phase name) = name
phase_name phase = []

abbrev pub then_check : Result Error (Unit {0}) → Result Error (Unit {0}) → Result Error (Unit {0})
then_check (ok u) r = r
then_check (err e) r = err e

unfoldable pub check_paths : TextMap FileSnapshot → Result Error (Unit {0})
check_paths [] = ok tt
check_paths ((path, snapshot) ∷ files) =
    then_check (if is_unsafe path then err (unsafe_path path) else ok tt) (check_paths files)

unfoldable pub check_tags : (ℕ → ℕ) → TextMap Text → Result Error (Unit {0})
check_tags lower [] = ok tt
check_tags lower ((tag, raw) ∷ tags) =
    then_check (from_git (assert_valid_git_ref lower tag)) (check_tags lower tags)

abbrev max_index_bytes : ℕ
max_index_bytes = 16 * 2 ^ 20

-- what follows the comparison of the journal with its plan
unfoldable pub check_parts : (ℕ → ℕ) → Journal → ReleasePlan → Result Error (Unit {0})
unfolding check_paths check_tags is_unsafe
check_parts lower journal plan =
    if ltb (length journal.index) 12
      || ltb max_index_bytes (length journal.index)
      || not (text_eq (take 4 journal.index) (codes "DIRC"))
    then err journal_index
    else if not (text_eq journal.head_ref (codes "HEAD"))
        && not (text_eq journal.head_ref (codes "refs/heads/" ++ plan.branch))
    then err journal_branch
    else then_check (from_git (assert_valid_git_ref lower plan.branch)) (
        then_check
          (if is_known journal.phase then ok tt else err (journal_phase (phase_name journal.phase)))
          (then_check (check_paths journal.files) (check_tags lower journal.tags)))

-- the checks of a decoded journal
unfoldable pub check_journal :
    World → NormalizedConfig → (ℕ → ℕ) → Journal → Result Error (Unit {0})
unfolding check_parts
check_journal world config lower journal = elim journal.plan [
  | none ↦ err journal_mismatch
  | some plan ↦
      if not (journal.version == 1)
        || not (text_eq journal.checkout world.cwd)
        || not (text_eq journal.source plan.source_sha)
        || not (text_eq journal.config_digest (world.digest config))
      then err journal_mismatch
      else check_parts lower journal plan
]

-- how a save is told in the trace
abbrev pub save_effect : Journal → Option Error → Effect
save_effect journal none = save_journal journal
save_effect journal (some e) = save_failed journal

module _ (world : World) where
  -- what load makes of the stored journal; a decoded one stays in memory even if its checks fail
  unfoldable pub load_stored : NormalizedConfig → Result Error (Option Journal) → Action Bool
  unfolding check_journal
  load_stored config (err e) = raise e
  load_stored config (ok none) = pure false
  load_stored config (ok (some journal)) =
      modify (λ _. journal)
      >> (observe (λ trace. check_journal world config (world.sources trace).lower journal)
          >> pure true)

  -- load
  unfoldable pub load : NormalizedConfig → Action Bool
  unfolding load_stored
  load config = look world.stored (load_stored config)

  -- save; a file is replaced as a whole or not at all
  unfoldable pub save : Action (Unit {0})
  save s =
      let outcome = world.outcome s.trace (save_journal s.journal) in
      if world.fits_journal s.journal
      then (to_result outcome, record s { trace = save_effect s.journal outcome ∷ s.trace })
      else (err file_error, s)

  -- advance
  unfoldable pub advance : Phase → Action (Unit {0})
  unfolding save
  advance phase = modify (λ journal. record journal { phase = phase }) >> save

  -- finish
  unfoldable pub finish : Action (Unit {0})
  unfolding perform
  finish = perform world remove_journal >> perform world sync_metadata

-- machinePaths
unfoldable pub machine_paths : Text → List Text
machine_paths raw = filter (λ path. not (text_eq path [])) (split raw 0)

abbrev relative_text : Option (List Text) → Result Error Text
relative_text none = err file_error
relative_text (some []) = ok dot
relative_text (some (e ∷ es)) = ok (join (e ∷ es) (codes "/"))

abbrev bind_result : {A B : Type 0} → Result Error A → (A → Result Error B) → Result Error B
bind_result (ok a) f = f a
bind_result (err e) f = err e

abbrev max_snapshot_bytes : ℕ
max_snapshot_bytes = 64 * 2 ^ 20

abbrev pub show_tag : Text → List Text
show_tag tag =
    codes "show-ref" ∷ codes "--verify" ∷ codes "--hash" ∷ (codes "refs/tags/" ++ tag) ∷ []

module _ (world : World) (trace : Trace) where
  -- the name of a path in the journal
  unfoldable pub journal_path : Text → Result Error Text
  journal_path path =
      if is_abs path
      then bind_result (relative_text (rel (clean world.cwd) (clean path)))
          (λ p. ok (render (clean p)))
      else ok (render (clean path))

  abbrev file_snapshot : Text → ℕ → Stat → Result Error FileSnapshot
  file_snapshot path mode regular =
      bind_result (world.read_file trace path)
        λ content. ok (record { content = content; mode = mode; link = []; present = true })
  file_snapshot path mode symlink =
      bind_result (world.read_link trace path)
        λ link. ok (record { content = []; mode = mode; link = link; present = true })
  file_snapshot path mode absent =
      ok (record { content = []; mode = 0; link = []; present = false })
  file_snapshot path mode _ = err file_error

  abbrev snapshot_size : FileSnapshot → ℕ
  snapshot_size snapshot = length snapshot.content + length snapshot.link

  -- the loop over the paths; `total` is the size so far
  unfoldable pub snapshot_files :
      List Text → ℕ → TextMap FileSnapshot → Result Error (TextMap FileSnapshot)
  unfolding journal_path is_unsafe
  snapshot_files [] total files = ok files
  snapshot_files (path ∷ paths) total files = bind_result (journal_path path) λ name.
      let seen = snapshot_files paths total files in
      elim (lookup name files) [
        | some snapshot ↦ seen
        | none ↦
            if is_unsafe name
            then err (unsafe_path name)
            else bind_result (file_snapshot name (world.mode_of trace name) (world.stat trace name))
                λ snapshot.
                  let size = total + snapshot_size snapshot in
                  let rest = snapshot_files paths size (insert name snapshot files) in
                  if snapshot.present && ltb max_snapshot_bytes size then err file_error else rest
      ]

  -- the object of a tag, "" for one that is absent
  unfoldable pub tag_object : Text → Result Error Text
  tag_object tag =
      let sources = world.sources trace in
      elim (run_with_context sources.run (show_tag tag)) [
        | ok raw ↦ ok (trim_space raw)
        | err e ↦
            bind_result (from_git (ref_sha sources.lower sources.run (codes "refs/tags/" ++ tag)))
              λ peeled. if text_eq peeled [] then ok [] else err (git_error e)
      ]

  -- the loop over the releases
  unfoldable pub snapshot_tags : List PackageRelease → TextMap Text → Result Error (TextMap Text)
  unfolding tag_object
  snapshot_tags [] tags = ok tags
  snapshot_tags (release ∷ releases) tags =
      bind_result (tag_object release.tag)
        λ raw. snapshot_tags releases (insert release.tag raw tags)

abbrev list_files : List Text
list_files = codes "ls-files" ∷ codes "-z" ∷ []

abbrev pub list_untracked : List Text
list_untracked = codes "ls-files" ∷ codes "--others" ∷ codes "--exclude-standard" ∷ codes "-z" ∷ []

abbrev pub symbolic_head : List Text
symbolic_head = codes "rev-parse" ∷ codes "--symbolic-full-name" ∷ codes "HEAD" ∷ []

module _ (world : World) where
  -- the journal of a release that starts at this commit; one that starts at another commit than the
  -- source of its plan is resumed, and its commit is never rolled back
  unfoldable pub fresh_journal :
      NormalizedConfig → ReleasePlan → Text → Text → Text → Text × ℕ → Journal
  unfolding machine_paths
  fresh_journal config plan untracked head_ref source (index, mode) =
      let resumed = not (text_eq source plan.source_sha) in
      record {
        index = index;
        index_mode = mode;
        version = 1;
        phase = if resumed then external else prepared;
        checkout = world.cwd;
        config_digest = world.digest config;
        source = plan.source_sha;
        release_head = if resumed then source else [];
        head_ref = trim_space head_ref;
        plan = some plan;
        files = [];
        untracked = machine_paths untracked;
        tags = [];
      }

  -- snapshot
  unfoldable pub snapshot : NormalizedConfig → ReleasePlan → List Text → Action (Unit {0})
  unfolding fresh_journal snapshot_files snapshot_tags save
  snapshot config plan paths = query world (λ s. run_with_context s.run list_files) >>= λ tracked.
      query world (λ s. run_with_context s.run list_untracked) >>= λ untracked.
      query world (λ s. run_with_context s.run symbolic_head) >>= λ head_ref.
      query world (λ s. head_sha s.run) >>= λ source.
      observe (λ trace. world.read_index trace) >>= λ index.
      modify (λ _. fresh_journal config plan untracked head_ref source index)
      >> (observe (λ trace. snapshot_files world trace (paths ++ machine_paths tracked) 0 [])
          >>= λ files.
              modify (λ journal. record journal { files = files })
              >> (observe (λ trace. snapshot_tags world trace plan.releases []) >>= λ tags.
                  modify (λ journal. record journal { tags = tags }) >> save world))
