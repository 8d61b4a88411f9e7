-- ===== src/Git.antt =====
-- internal/git/git.go: the queries that read a repository, the validation of ref names and the
-- parsers of machine output. The Git executable, started by internal/process, is a parameter: a
-- function from the arguments and the standard input of a command to its outcome. It stands for one
-- state of the repository, so it serves the queries and not the commands that change it.
pub mod Log
pub mod Refs
pub mod Remote
pub mod WorkingTree
mod Examples
use hooversion.Common.{
  ℕ, zero, suc, ◌+◌, ◌-◌, ◌%◌, Bool, true, false, not, ◌&&◌, ◌||◌, List, [], ◌∷◌, ◌++◌, Option,
  none, some, leb, ltb, ◌==◌, if◌then◌else◌, length, any, all, map, Result, ok, err, ◌>>=◌, ◌>>=?◌,
  ◌>>◌, drop,
}
use hooversion.Text.Maps.{TextMap, lookup, insert}
use hooversion.Text.{
  Text, codes, text_eq, contains, has_prefix, has_rune, contains_any, is_space, trim_right,
  trim_space, split, index, to_lower,
}
use hooversion.Types.{RawCommit}

-- What a child process can end with: an exit status, or a failure to start or to wait for it.
pub data Failure : Type 0 where
  exit_status start_failure : Failure

pub record CommandResult : Type 0 where
  pub stdout : Text
  pub stderr : Text
  pub code : ℕ
  pub failure : Option Failure

abbrev pub Runner : Type 0
Runner = List Text → Text → CommandResult

pub data Error : Type 0 where
  start_failed : Error
  command_failed : List Text → Text → Error
  no_tag no_remote : Error
  invalid_ref invalid_revision : Text → Error
  truncated_metadata malformed_metadata : Error
  bad_identity : Text → Error
  diff_failed : Text → Error
  truncated_diff malformed_diff : Error
  not_clean : List Text → Error
  bad_status : Text → Error
  incomplete_rename : Error
  invalid_path : Text → Error

-- err != nil && !isCommandExit(err)
abbrev pub is_start_failure : Option Failure → Bool
is_start_failure (some start_failure) = true
is_start_failure _ = false

abbrev detail : CommandResult → Text
detail res = if text_eq res.stderr [] then res.stdout else res.stderr

-- trimEnd
unfoldable pub trim_end : Text → Text
trim_end = trim_right is_space

-- gitRunRawWithBase
unfoldable pub git_run_raw : Runner → List Text → Result Error Text
git_run_raw run args =
    let res = run args [] in
    if is_start_failure res.failure
    then err start_failed
    else if not (res.code == 0)
    then err (command_failed args (detail res))
    else ok res.stdout

-- gitRunWithBase
unfoldable pub git_run : Runner → List Text → Bool → Result Error Text
git_run run args allow_failure =
    let res = run args [] in
    if is_start_failure res.failure
    then err start_failed
    else if not (res.code == 0) && not allow_failure
    then err (command_failed args (detail res))
    else ok (trim_end res.stdout)

-- RunWithContext
unfoldable pub run_with_context : Runner → List Text → Result Error Text
run_with_context run args =
    let res = run args [] in
    elim res.failure [ none ↦ ok res.stdout | some f ↦ err (command_failed args res.stderr) ]

-- hasForbiddenRefRune
unfoldable pub has_forbidden_ref_rune : Text → Bool
has_forbidden_ref_rune = any (λ r. leb r 0x20 || r == 0x7f || has_rune r (codes "~^:?*\\"))

abbrev pub has_text : Text → Text → Bool
has_text s sub = elim (index s sub) [ none ↦ false | some i ↦ true ]

-- strings.HasSuffix
unfoldable pub has_suffix : Text → Text → Bool
has_suffix s suffix =
    leb (length suffix) (length s) && text_eq (drop (length s - length suffix) s) suffix

-- what the loop over the components refuses
unfoldable pub is_bad_component : (ℕ → ℕ) → Text → Bool
is_bad_component lower component =
    text_eq component []
    || text_eq component (codes ".")
    || text_eq component (codes "..")
    || has_prefix component (codes ".")
    || has_suffix component (codes ".")
    || has_suffix (to_lower lower component) (codes ".lock")

-- the first expression of AssertValidGitRef
unfoldable pub is_bad_name : Text → Bool
is_bad_name name =
    text_eq name []
    || text_eq name (codes "@")
    || has_prefix name (codes "-")
    || has_prefix name (codes "refs/")
    || has_prefix name (codes "/")
    || has_suffix name (codes "/")
    || has_text name (codes "//")
    || has_text name (codes "..")
    || has_text name (codes "@{")
    || has_forbidden_ref_rune name
    || has_text name (codes "[")

-- AssertValidGitRef; `lower` is unicode.ToLower beyond ASCII
unfoldable pub assert_valid_git_ref : (ℕ → ℕ) → Text → Result Error (Unit {0})
assert_valid_git_ref lower name =
    if is_bad_name name || any (is_bad_component lower) (split name b'/')
    then err (invalid_ref name)
    else ok tt

-- LatestTagWithEnv
unfoldable pub latest_tag : Runner → Text → Result Error Text
latest_tag run pattern =
    git_run run
      (codes "describe" ∷ codes "--tags" ∷ codes "--abbrev=0" ∷ codes "--match" ∷ pattern ∷ []) true
    >>= λ output. if text_eq (trim_space output) [] then err no_tag else ok (trim_space output)

-- HeadShaWithEnv
unfoldable pub head_sha : Runner → Result Error Text
head_sha run =
    git_run run (codes "rev-parse" ∷ codes "HEAD" ∷ []) false >>= λ out. ok (trim_space out)

abbrev pub is_hex_lower : ℕ → Bool
is_hex_lower c = (leb b'0' c && leb c b'9') || (leb b'a' c && leb c b'f')

-- isFullSha, on a text of ASCII runes or not: a longer rune has no place in it
unfoldable pub is_full_sha : Text → Bool
is_full_sha s = length s == 40 && all (λ c. is_hex_lower c || (leb b'A' c && leb c b'F')) s

-- commitHashRE
unfoldable pub is_commit_hash : Text → Bool
is_commit_hash s = (length s == 40 || length s == 64) && all is_hex_lower s

-- the revision that RefShaWithEnv asks for
commit_ref : (ℕ → ℕ) → Text → Result Error Text
commit_ref lower ref =
    if text_eq ref (codes "HEAD") || text_eq ref (codes "HEAD^") || is_full_sha ref
    then ok ref
    else if has_prefix ref (codes "refs/tags/")
    then (assert_valid_git_ref lower (drop 10 ref) >> ok (ref ++ codes "^{commit}"))
    else if has_prefix ref (codes "refs/heads/")
    then (assert_valid_git_ref lower (drop 11 ref) >> ok ref)
    else err (invalid_revision ref)

ref_sha_from : Runner → Text → Result Error Text
ref_sha_from run revision =
    let res =
      run
        (codes "rev-parse"
          ∷ codes "--verify"
          ∷ codes "--quiet"
          ∷ codes "--end-of-options"
          ∷ revision
          ∷ [])
        [] in
    if is_start_failure res.failure
    then err start_failed
    else if not (res.code == 0)
    then ok []
    else ok (trim_space res.stdout)

-- RefShaWithEnv; "" for a missing ref
unfoldable pub ref_sha : (ℕ → ℕ) → Runner → Text → Result Error Text
unfolding commit_ref ref_sha_from
ref_sha lower run ref = commit_ref lower ref >>= ref_sha_from run

-- CommitMessageWithEnv
unfoldable pub commit_message : Runner → Text → Result Error Text
commit_message run ref =
    git_run run (codes "show" ∷ codes "-s" ∷ codes "--format=%B" ∷ ref ∷ []) false
