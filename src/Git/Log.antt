-- ===== src/Git/Log.antt =====
-- internal/git/git.go: the commits of a range, from the output of `git log` and of one batch of
-- `git diff-tree`. The theorems about the first parser are in Metadata.
pub mod Metadata
use hooversion.Common.{
  ℕ, zero, suc, ◌%◌, Bool, true, false, not, ◌&&◌, ◌||◌, List, [], ◌∷◌, ◌++◌, Option, none, some,
  leb, ◌==◌, if◌then◌else◌, length, Result, ok, err, ◌>>=◌, ◌>>=?◌,
}
use hooversion.Git.{
  Runner, Error, truncated_metadata, malformed_metadata, bad_identity, diff_failed, truncated_diff,
  malformed_diff, trim_end, git_run, git_run_raw, is_hex_lower, is_commit_hash,
}
use hooversion.Text.Maps.{TextMap, lookup, insert}
use hooversion.Text.{Text, codes, text_eq, contains, has_rune, split}
use hooversion.Types.{RawCommit}

-- strings.TrimSuffix(output, "\x00")
unfoldable pub trim_nul : Text → Text
trim_nul [] = []
trim_nul (c ∷ []) = if c == 0 then [] else c ∷ []
trim_nul (c ∷ d ∷ s) = c ∷ trim_nul (d ∷ s)

ends_in_nul : Text → Bool
ends_in_nul [] = false
ends_in_nul (c ∷ []) = c == 0
ends_in_nul (c ∷ d ∷ s) = ends_in_nul (d ∷ s)

-- splitNUL
unfoldable pub split_nul : Text → List Text
split_nul [] = []
split_nul (c ∷ s) = split (trim_nul (c ∷ s)) 0

-- the loop of parseCommitMetadata; a rest of one or two fields is the failed test of len(fields)%3,
-- which the source makes first, so `metadata_from` is called where three divides the length
metadata_from : List Text → List Text → Result Error (List RawCommit)
metadata_from seen [] = ok []
metadata_from seen (hash ∷ []) = err malformed_metadata
metadata_from seen (hash ∷ subject ∷ []) = err malformed_metadata
metadata_from seen (hash ∷ subject ∷ body ∷ fields) =
    let rest = metadata_from (hash ∷ seen) fields in
    if not (is_commit_hash hash) || contains seen hash
    then err (bad_identity hash)
    else rest >>= λ commits. ok (
        record { hash = hash; subject = trim_end subject; body = trim_end body; files = [] }
        ∷ commits)

-- parseCommitMetadata
unfoldable pub parse_commit_metadata : Text → Result Error (List RawCommit)
unfolding metadata_from ends_in_nul
parse_commit_metadata output =
    let fields = split (trim_nul output) 0 in
    if text_eq output []
    then ok []
    else if not (ends_in_nul output)
    then err truncated_metadata
    else if not (length fields % 3 == 0)
    then err malformed_metadata
    else metadata_from [] fields

abbrev is_octal : ℕ → Bool
is_octal c = leb b'0' c && leb c b'7'

-- the status letter, to the end of the text
is_status : Text → Bool
is_status (c ∷ []) = has_rune c (codes "ACDMTUXB")
is_status _ = false

-- six octal digits and a space, and the text behind them
match_mode : Text → Option Text
match_mode (a ∷ b ∷ c ∷ d ∷ e ∷ f ∷ g ∷ s) =
    if is_octal a && is_octal b && is_octal c && is_octal d && is_octal e && is_octal f && g == b' '
    then some s
    else none
match_mode _ = none

-- one or more digits of an object name and a space; `seen` tells whether one was read
match_object : Bool → Text → Option Text
match_object seen [] = none
match_object seen (c ∷ s) =
    let rest = match_object true s in
    if is_hex_lower c then rest else if seen && c == b' ' then some s else none

is_some_status : Option Text → Bool
unfolding is_status
is_some_status none = false
is_some_status (some s) = is_status s

-- rawDiffHeaderRE
unfoldable pub is_diff_header : Text → Bool
unfolding match_mode match_object is_some_status
is_diff_header [] = false
is_diff_header (c ∷ s) =
    c == b':'
    && is_some_status (
        match_mode s >>=? λ r.
        match_mode r >>=? λ r. match_object false r >>=? λ r. match_object false r)

-- commits[i].Files = append(commits[i].Files, file)
append_file : ℕ → Text → List RawCommit → List RawCommit
append_file i file [] = []
append_file zero file (c ∷ commits) = record c { files = c.files ++ file ∷ [] } ∷ commits
append_file (suc i) file (c ∷ commits) = c ∷ append_file i file commits

indexes_from : ℕ → List RawCommit → TextMap ℕ → TextMap ℕ
indexes_from i [] indexes = indexes
indexes_from i (c ∷ commits) indexes = indexes_from (suc i) commits (insert c.hash i indexes)

-- the identity of a commit: its index, unless it is unknown or was seen
identity : TextMap ℕ → List Text → Text → Option ℕ
identity indexes seen hash = if contains seen hash then none else lookup hash indexes

-- the loop of parseCommitDiffs; `current` is none for -1
diffs_from :
    TextMap ℕ → List Text → Option ℕ → List Text → List RawCommit → Result Error (List RawCommit)
diffs_from indexes seen current [] commits = ok commits
diffs_from indexes seen current (field ∷ []) commits =
    if is_commit_hash field
    then elim (identity indexes seen field) [
      | none ↦ err (bad_identity field)
      | some i ↦ ok commits
    ]
    else err malformed_diff
diffs_from indexes seen current (field ∷ path ∷ fields) commits = elim (is_commit_hash field) [
  | true ↦ elim (identity indexes seen field) [
    | none ↦ err (bad_identity field)
    | some i ↦ diffs_from indexes (field ∷ seen) (some i) (path ∷ fields) commits
  ]
  | false ↦ elim current [
    | none ↦ err malformed_diff
    | some i ↦ elim (is_diff_header field && not (text_eq path [])) [
      | true ↦ diffs_from indexes seen (some i) fields (append_file i path commits)
      | false ↦ err malformed_diff
    ]
  ]
]

-- parseCommitDiffs
unfoldable pub parse_commit_diffs : Text → List RawCommit → Result Error (List RawCommit)
unfolding diffs_from identity append_file indexes_from ends_in_nul
parse_commit_diffs output commits =
    if text_eq output []
    then ok commits
    else if not (ends_in_nul output)
    then err truncated_diff
    else diffs_from (indexes_from 0 commits []) [] none (split (trim_nul output) 0) commits

resolve : Runner → Text → Result Error Text
resolve run ref =
    git_run run
      (codes "rev-parse"
        ∷ codes "--verify"
        ∷ codes "--end-of-options"
        ∷ (ref ++ codes "^{commit}")
        ∷ [])
      false

range_arg : Runner → Text → Text → Result Error Text
unfolding resolve
range_arg run from end =
    if text_eq from []
    then ok end
    else resolve run from >>= λ start. ok (start ++ (codes ".." ++ end))

-- the standard input of the batch: a line for each commit
hash_lines : List RawCommit → Text
hash_lines [] = []
hash_lines (c ∷ commits) = c.hash ++ (b'\n' ∷ hash_lines commits)

with_files : Runner → List RawCommit → Result Error (List RawCommit)
unfolding hash_lines
with_files run [] = ok []
with_files run (c ∷ commits) =
    let res =
      run
        (codes "diff-tree"
          ∷ codes "--stdin"
          ∷ codes "--root"
          ∷ codes "--no-renames"
          ∷ codes "--raw"
          ∷ codes "-z"
          ∷ codes "-r"
          ∷ [])
        (hash_lines (c ∷ commits)) in
    if not (res.code == 0)
    then err (diff_failed res.stderr)
    else parse_commit_diffs res.stdout (c ∷ commits)

-- CommitsWithEnv
unfoldable pub commits_between : Runner → Text → Text → Result Error (List RawCommit)
unfolding range_arg with_files
commits_between run from to = resolve run to >>= λ end. range_arg run from end >>= λ range.
    git_run_raw run (
      codes "log"
      ∷ codes "--reverse"
      ∷ codes "--no-patch"
      ∷ codes "-z"
      ∷ codes "--format=%H%x00%s%x00%b"
      ∷ range
      ∷ codes "--"
      ∷ [])
    >>= λ metadata. parse_commit_metadata metadata >>= λ commits. with_files run commits
