-- ===== src/Git/Remote.antt =====
-- internal/git/git.go: the queries of the remote repository, of the checked-out branch and of files
-- at a revision.
pub mod Origin
use hooversion.Common.{
  ℕ, Bool, true, false, not, ◌&&◌, ◌||◌, List, [], ◌∷◌, ◌++◌, Option, none, some, leb, ◌==◌,
  if◌then◌else◌, length, any, all, map, Result, ok, err, ◌>>=◌, ◌>>◌, drop, ◌>>=?◌,
}
use hooversion.Git.{
  Runner, Error, start_failed, command_failed, no_remote, invalid_path, is_start_failure, detail,
  git_run, git_run_raw, assert_valid_git_ref, ref_sha, head_sha, has_suffix,
}
use hooversion.Git.Log.{split_nul}
use hooversion.Text.Paths.{is_abs, clean, render, dot, dot_dot}
use hooversion.Text.{
  Text, codes, text_eq, has_prefix, has_rune, trim_space, split, fields, cut_rune, take_while,
  drop_while,
}
use hooversion.Types.{RawCommit}

abbrev remote_url : Runner → Result Error Text
remote_url run = git_run run (codes "config" ∷ codes "--get" ∷ codes "remote.origin.url" ∷ []) true

abbrev first_field : List Text → Text
first_field [] = []
first_field (field ∷ rest) = field

-- RemoteBranchShaWithAuthEnv; "" for a branch that is missing remotely
unfoldable pub remote_branch_sha : (ℕ → ℕ) → Runner → Text → Result Error Text
remote_branch_sha lower run branch =
    assert_valid_git_ref lower branch
    >> (remote_url run >>= λ remote.
        if text_eq (trim_space remote) []
        then err no_remote
        else (git_run run
              (codes "ls-remote"
                ∷ codes "--"
                ∷ codes "origin"
                ∷ (codes "refs/heads/" ++ branch)
                ∷ [])
              false
            >>= λ output. ok (first_field (fields output))))

-- The object names of a tag so far: its own, and that of the commit behind it.
pub record TagNames : Type 0 where
  pub direct : Text
  pub peeled : Text

-- one round of the loop over the lines
unfoldable pub tag_line : Text → List Text → TagNames → TagNames
tag_line tag (sha ∷ name ∷ rest) names =
    if text_eq name (codes "refs/tags/" ++ tag)
    then record names { direct = sha }
    else if text_eq name (codes "refs/tags/" ++ (tag ++ codes "^{}"))
    then record names { peeled = sha }
    else names
tag_line tag _ names = names

unfoldable pub tag_lines : Text → List Text → TagNames → TagNames
unfolding tag_line
tag_lines tag [] names = names
tag_lines tag (line ∷ lines) names = tag_lines tag lines (tag_line tag (fields line) names)

unfoldable pub tag_commit : TagNames → Text
tag_commit names = if text_eq names.peeled [] then names.direct else names.peeled

-- RemoteTagShaWithAuthEnv; "" for a tag that is missing remotely
unfoldable pub remote_tag_sha : (ℕ → ℕ) → Runner → Text → Result Error Text
unfolding tag_lines tag_commit
remote_tag_sha lower run tag =
    assert_valid_git_ref lower tag
    >> (remote_url run >>= λ remote.
        if text_eq (trim_space remote) []
        then err no_remote
        else (git_run run
              (codes "ls-remote"
                ∷ codes "--"
                ∷ codes "origin"
                ∷ (codes "refs/tags/" ++ tag)
                ∷ (codes "refs/tags/" ++ (tag ++ codes "^{}"))
                ∷ [])
              false
            >>= λ out.
                ok (
                  tag_commit
                    (tag_lines tag (split out 0xa) (record { direct = []; peeled = [] })))))

-- TagExistsWithEnv
unfoldable pub tag_exists : (ℕ → ℕ) → Runner → Text → Result Error Bool
tag_exists lower run tag =
    let res =
      run
        (codes "rev-parse" ∷ codes "--verify" ∷ codes "--quiet" ∷ (codes "refs/tags/" ++ tag) ∷ [])
        [] in
    assert_valid_git_ref lower tag
    >> (if is_start_failure res.failure then err start_failed else ok (res.code == 0))

-- the paths that FileAtRefWithEnv refuses
unfoldable pub leaves_root : Text → Bool
leaves_root path =
    let cleaned = render (clean path) in
    is_abs path
    || text_eq cleaned dot
    || text_eq cleaned dot_dot
    || has_prefix cleaned (codes "../")

-- FileAtRefWithEnv
unfoldable pub file_at_ref : (ℕ → ℕ) → Runner → Text → Text → Result Error Text
unfolding leaves_root
file_at_ref lower run ref path =
    let name = ref ++ b':' ∷ render (clean path) in
    let res = run (codes "show" ∷ name ∷ []) [] in
    ref_sha lower run ref >>= λ sha.
    if leaves_root path
    then err (invalid_path path)
    else if is_start_failure res.failure
    then err start_failed
    else if not (res.code == 0)
    then err (command_failed (codes "show" ∷ name ∷ []) (detail res))
    else ok res.stdout

-- CurrentBranchWithEnv; `env` is envutil.Get on the environment of the release
unfoldable pub current_branch : (Text → Text) → Runner → Result Error Text
current_branch env run = git_run run (codes "branch" ∷ codes "--show-current" ∷ []) false >>= λ out.
    let ref_name = env (codes "GITHUB_REF_NAME") in
    if not (text_eq (trim_space out) [])
    then ok (trim_space out)
    else if not (text_eq (env (codes "GITHUB_HEAD_REF")) [])
    then ok (env (codes "GITHUB_HEAD_REF"))
    else if not (text_eq (env (codes "GITHUB_REF_TYPE")) (codes "tag")) && not (text_eq ref_name [])
    then ok ref_name
    else (git_run run (codes "rev-parse" ∷ codes "--abbrev-ref" ∷ codes "HEAD" ∷ []) false
        >>= λ head. ok (trim_space head))

-- IsGitRepository
unfoldable pub is_git_repository : Runner → Bool
is_git_repository run = (run (codes "rev-parse" ∷ codes "--is-inside-work-tree" ∷ []) []).code == 0

-- readCommit
unfoldable pub read_commit : Runner → Text → Result Error RawCommit
unfolding split_nul
read_commit run hash =
    git_run run (codes "show" ∷ codes "-s" ∷ codes "--format=%s" ∷ hash ∷ codes "--" ∷ []) false
    >>= λ subject.
        git_run run (codes "show" ∷ codes "-s" ∷ codes "--format=%b" ∷ hash ∷ codes "--" ∷ []) false
        >>= λ body.
            git_run_raw run (
              codes "diff-tree"
              ∷ codes "--root"
              ∷ codes "--no-commit-id"
              ∷ codes "--name-only"
              ∷ codes "-z"
              ∷ codes "-r"
              ∷ hash
              ∷ codes "--"
              ∷ [])
            >>= λ files.
                ok (record { hash = hash; subject = subject; body = body; files = split_nul files })

-- LastCommit
unfoldable pub last_commit : Runner → Result Error RawCommit
unfolding read_commit
last_commit run = head_sha run >>= read_commit run

abbrev is_name_rune : ℕ → Bool
is_name_rune c = not (c == b'/') && not (c == b'.')

-- `[^/]+/[^/.]+` and an optional ".git", to the end of the text: the first group
unfoldable pub repository_path : Text → Option Text
repository_path s = cut_rune s b'/' >>=? λ (owner, rest).
    let name = take_while is_name_rune rest in
    let tail = drop_while is_name_rune rest in
    if text_eq owner [] || text_eq name [] || not (text_eq tail [] || text_eq tail (codes ".git"))
    then none
    else some (owner ++ b'/' ∷ name)

-- what stands before the repository in both expressions: a host and a separator
unfoldable pub behind_host : ℕ → Text → Option Text
unfolding repository_path
behind_host sep s =
    cut_rune s sep >>=? λ (host, rest). if text_eq host [] then none else repository_path rest

-- sshRepoRE and httpsRepoRE
unfoldable pub repository_of : Text → Text
unfolding behind_host
repository_of remote =
    let found =
      if has_prefix remote (codes "git@")
      then behind_host b':' (drop 4 remote)
      else if has_prefix remote (codes "https://")
      then behind_host b'/' (drop 8 remote)
      else if has_prefix remote (codes "http://")
      then behind_host b'/' (drop 7 remote)
      else none in
    elim found [ none ↦ [] | some path ↦ path ]

-- OriginRepositoryWithEnv; "" for no origin, and for an address of another shape
unfoldable pub origin_repository : Runner → Result Error Text
unfolding repository_of
origin_repository run = remote_url run >>= λ remote.
    if text_eq (trim_space remote) [] then ok [] else ok (repository_of (trim_space remote))
