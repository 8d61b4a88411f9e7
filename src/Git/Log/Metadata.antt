-- ===== src/Git/Log/Metadata.antt =====
-- The parser of `git log` output of internal/git/git.go reads back what the format spells.
use hooversion.Common.{
  Bool, map, ℕ, suc, ◌*◌, ◌%◌, ◌≡◌, ◌≢◌, refl, ap, ◌∙◌, true, false, List, [], ◌∷◌, ◌++◌,
  append_assoc, arith, All, ◌==◌, length, ok,
}
use hooversion.Git.Log.{trim_nul, ends_in_nul, metadata_from, parse_commit_metadata}
use hooversion.Git.{is_commit_hash, trim_end}
use hooversion.Text.Laws.{split-append, split_absent}
use hooversion.Text.{trim_right, is_space, Text, text_eq, contains, split}
use hooversion.Types.{RawCommit}

abbrev NoNul : Text → Type 0
NoNul = All (λ c. c ≢ 0)

-- A commit in the output of `git log`, with the spaces that stand behind its subject and its body;
-- Git ends a body with a newline.
pub record LogEntry : Type 0 where
  pub commit : RawCommit
  pub behind_subject : Text
  pub behind_body : Text

abbrev pub subject_field : LogEntry → Text
subject_field e = e.commit.subject ++ e.behind_subject

abbrev pub body_field : LogEntry → Text
body_field e = e.commit.body ++ e.behind_body

-- An object name, and a subject and a body with no NUL, each up to the spaces behind it.
pub record IsLogged (e : LogEntry) : Type 0 where
  pub hash_form : is_commit_hash e.commit.hash ≡ true
  pub hash_bytes : NoNul e.commit.hash
  pub subject_bytes : NoNul (subject_field e)
  pub subject_trimmed : trim_end e.commit.subject ≡ e.commit.subject
  pub subject_spaces : All (λ c. is_space c ≡ true) e.behind_subject
  pub body_bytes : NoNul (body_field e)
  pub body_trimmed : trim_end e.commit.body ≡ e.commit.body
  pub body_spaces : All (λ c. is_space c ≡ true) e.behind_body
  pub no_files : e.commit.files ≡ []

abbrev pub commits_of : List LogEntry → List RawCommit
commits_of = map (λ (e : LogEntry). e.commit)

-- %H%x00%s%x00%b with a NUL behind each record
abbrev pub log_output : List LogEntry → Text
log_output [] = []
log_output (e ∷ entries) =
    e.commit.hash ++ (0 ∷ (subject_field e ++ (0 ∷ (body_field e ++ (0 ∷ log_output entries)))))

trim_right-spaces : (p : ℕ → Bool) (t : Text) → All (λ c. p c ≡ true) t → trim_right p t ≡ []
unfolding trim_right
trim_right-spaces p [] h = refl
trim_right-spaces p (c ∷ t) (x, h) = rw (trim_right-spaces p t h, x) refl

-- Spaces behind a text are trimmed with those that it ends in.
trim_right-append :
    (p : ℕ → Bool) (s t : Text) → All (λ c. p c ≡ true) t → trim_right p (s ++ t) ≡ trim_right p s
unfolding trim_right
trim_right-append p [] t h = trim_right-spaces p t h
trim_right-append p (c ∷ s) t h = rw (trim_right-append p s t h) refl

trim_end-append :
    (s t : Text) → All (λ c. is_space c ≡ true) t → trim_end s ≡ s → trim_end (s ++ t) ≡ s
unfolding trim_end
trim_end-append s t h e = trim_right-append is_space s t h ∙ e

-- The object names differ from one another and from those seen.
abbrev pub DistinctHashes : List Text → List RawCommit → Type 0
DistinctHashes seen [] = Unit
DistinctHashes seen (c ∷ commits) =
    (contains seen c.hash ≡ false) × DistinctHashes (c.hash ∷ seen) commits

abbrev fields_of : List LogEntry → List Text
fields_of [] = []
fields_of (c ∷ commits) = c.commit.hash ∷ subject_field c ∷ body_field c ∷ fields_of commits

metadata_from-fields_of :
    (commits : List LogEntry) (seen : List Text)
    → All IsLogged commits
    → DistinctHashes seen (commits_of commits)
    → metadata_from seen (fields_of commits) ≡ ok (commits_of commits)
unfolding metadata_from
metadata_from-fields_of [] seen h d = refl
metadata_from-fields_of (c ∷ commits) seen (h, hs) (fresh, d) =
    let l = h in
    rw (l.hash_form, fresh, metadata_from-fields_of commits (c.commit.hash ∷ seen) hs d)
      (rw
        (
          trim_end-append c.commit.subject c.behind_subject l.subject_spaces l.subject_trimmed,
          trim_end-append c.commit.body c.behind_body l.body_spaces l.body_trimmed,
        )
        (rw (← l.no_files) refl))

trim_nul-last : (s : Text) → trim_nul (s ++ 0 ∷ []) ≡ s
unfolding trim_nul
trim_nul-last [] = refl
trim_nul-last (c ∷ []) = refl
trim_nul-last (c ∷ d ∷ s) = ap (◌∷◌ c) (trim_nul-last (d ∷ s))

ends_in_nul-last : (s : Text) → ends_in_nul (s ++ 0 ∷ []) ≡ true
unfolding ends_in_nul
ends_in_nul-last [] = refl
ends_in_nul-last (c ∷ []) = refl
ends_in_nul-last (c ∷ d ∷ s) = ends_in_nul-last (d ∷ s)

-- the output without its last NUL
abbrev trimmed_output : LogEntry → List LogEntry → Text
trimmed_output c [] = c.commit.hash ++ (0 ∷ (subject_field c ++ (0 ∷ body_field c)))
trimmed_output c (d ∷ commits) =
    c.commit.hash
    ++ (0 ∷ (subject_field c ++ (0 ∷ (body_field c ++ (0 ∷ trimmed_output d commits)))))

log_output-trimmed :
    (c : LogEntry) (commits : List LogEntry)
    → log_output (c ∷ commits) ≡ trimmed_output c commits ++ 0 ∷ []
log_output-trimmed c [] = simp append_assoc
log_output-trimmed c (d ∷ commits) = rw (log_output-trimmed d commits) (simp append_assoc)

split-trimmed_output :
    (c : LogEntry) (commits : List LogEntry)
    → All IsLogged (c ∷ commits)
    → split (trimmed_output c commits) 0 ≡ fields_of (c ∷ commits)
split-trimmed_output c [] (h, hs) =
    split-append c.commit.hash _ 0 h.hash_bytes
    ∙ ap (◌∷◌ c.commit.hash) (
        split-append (subject_field c) _ 0 h.subject_bytes
        ∙ ap (◌∷◌ (subject_field c)) (split_absent (body_field c) 0 h.body_bytes))
split-trimmed_output c (d ∷ commits) (h, hs) =
    split-append c.commit.hash _ 0 h.hash_bytes
    ∙ ap (◌∷◌ c.commit.hash) (
        split-append (subject_field c) _ 0 h.subject_bytes
        ∙ ap (◌∷◌ (subject_field c)) (
            split-append (body_field c) _ 0 h.body_bytes
            ∙ ap (◌∷◌ (body_field c)) (split-trimmed_output d commits hs)))

length-fields_of : (commits : List LogEntry) → length (fields_of commits) ≡ 3 * length commits
length-fields_of [] = refl
length-fields_of (c ∷ commits) = omega (arith, length-fields_of commits)

output-ne-nil :
    (c : LogEntry) (commits : List LogEntry) → text_eq (log_output (c ∷ commits)) [] ≡ false
unfolding text_eq
output-ne-nil c commits = front c.commit.hash
  where
    front :
        (s : Text)
        → text_eq
            (s ++ (0 ∷ (subject_field c ++ (0 ∷ (body_field c ++ (0 ∷ log_output commits))))))
            []
          ≡ false
    front [] = refl
    front (d ∷ s) = refl

thirds : (n : ℕ) → (suc (suc (suc (3 * n))) % 3 == 0) ≡ true
thirds n = ground arith

-- The commits that `git log` prints, with distinct object names and any spaces behind their subjects
-- and bodies, such as the newline that Git puts behind a body, are read back in their order, less
-- those spaces.
pub parse_commit_metadata-log_output :
    (commits : List LogEntry)
    → All IsLogged commits
    → DistinctHashes [] (commits_of commits)
    → parse_commit_metadata (log_output commits) ≡ ok (commits_of commits)
unfolding parse_commit_metadata text_eq
parse_commit_metadata-log_output [] h d = refl
parse_commit_metadata-log_output (c ∷ commits) h d =
    let out = trimmed_output c commits in
    ground (
      arith,
      output-ne-nil c commits,
      ap ends_in_nul (log_output-trimmed c commits),
      ap trim_nul (log_output-trimmed c commits),
      ends_in_nul-last out,
      trim_nul-last out,
      split-trimmed_output c commits h,
      thirds (length commits),
      length-fields_of commits,
      metadata_from-fields_of (c ∷ commits) [] h d,
    )
