-- ===== src/Git/Examples.antt =====
-- Tests of git.go, and its theorems at concrete outputs.
use hooversion.Common.{
  ◌≡◌, refl, arith, true, false, [], ◌∷◌, ◌++◌, none, some, All, ok, err, ℕ, List, Bool,
  if◌then◌else◌, inr,
}
use hooversion.Git.Log.Metadata.{LogEntry, IsLogged, log_output, parse_commit_metadata-log_output}
use hooversion.Git.Log.{
  parse_commit_metadata, parse_commit_diffs, is_diff_header, trim_nul, split_nul,
}
use hooversion.Git.Remote.Origin.{repository_of-address}
use hooversion.Git.Remote.{repository_of}
use hooversion.Git.WorkingTree.Covered.{
  IsCovered, HidesNothing, ensure_clean_working_tree-IsCovered,
}
use hooversion.Git.WorkingTree.{status_command, exempt_paths, is_exempt}
use hooversion.Git.Refs.{IsSafeRef, IsRevision, assert_valid_git_ref-IsSafeRef, ref_sha-IsRevision}
use hooversion.Git.{
  Runner, exit_status, assert_valid_git_ref, is_bad_name, is_bad_component, has_suffix,
  has_forbidden_ref_rune, ref_sha, is_commit_hash, is_full_sha, trim_end, invalid_ref, latest_tag,
  no_tag, git_run, git_run_raw,
}
use hooversion.Text.Maps.{lookup, insert}
use hooversion.Text.{
  Text, codes, text_eq, contains, has_prefix, has_rune, index, split, to_lower, is_space, trim_left,
  trim_right, trim_space,
}
use hooversion.Types.{RawCommit}

-- unicode.ToLower is the identity on the texts below
abbrev lower : ℕ → ℕ
lower c = c

abbrev hash_a : Text
hash_a = codes "aaaaaaaaaaaaaaaaaaaaaaaaaaaaaaaaaaaaaaaa"

abbrev hash_b : Text
hash_b = codes "bbbbbbbbbbbbbbbbbbbbbbbbbbbbbbbbbbbbbbbb"

abbrev commit_a : RawCommit
commit_a = record { hash = hash_a; subject = codes "fix: x"; body = []; files = [] }

abbrev commit_b : RawCommit
commit_b = record { hash = hash_b; subject = codes "feat: y"; body = codes "text"; files = [] }

diffs :
    (is_diff_header (codes ":100644 100644 0a 0b M") ≡ true)
    × (is_diff_header (codes ":100644 100644 0a 0b R100") ≡ false)
unfolding is_diff_header has_rune
diffs = (refl, refl)

batch :
    parse_commit_diffs
      (hash_a
        ++ (0
            ∷ (codes ":100644 100644 0a 0b M" ++ (0 ∷ (codes "a.go" ++ (0 ∷ (hash_b ++ 0 ∷ [])))))))
      (commit_a ∷ commit_b ∷ [])
    ≡ ok (record commit_a { files = codes "a.go" ∷ [] } ∷ commit_b ∷ [])
unfolding parse_commit_diffs trim_nul split is_commit_hash contains text_eq lookup insert
    is_diff_header has_rune
batch = refl

-- Git ends a body with a newline
abbrev entries : List LogEntry
entries =
    record { commit = commit_a; behind_subject = []; behind_body = [] }
    ∷ record { commit = commit_b; behind_subject = codes " "; behind_body = codes "\n" }
    ∷ []

commits-IsLogged : All IsLogged entries
unfolding is_commit_hash trim_end trim_right is_space
commits-IsLogged = (
  record {
    hash_form = refl;
    hash_bytes = ground arith;
    subject_bytes = ground arith;
    subject_trimmed = refl;
    subject_spaces = tt;
    body_bytes = tt;
    body_trimmed = refl;
    body_spaces = tt;
    no_files = refl;
  },
  (
    record {
      hash_form = refl;
      hash_bytes = ground arith;
      subject_bytes = ground arith;
      subject_trimmed = refl;
      subject_spaces = (refl, tt);
      body_bytes = ground arith;
      body_trimmed = refl;
      body_spaces = (refl, tt);
      no_files = refl;
    },
    tt,
  ),
)

parse_commit_metadata-log_output_example :
    parse_commit_metadata (log_output entries) ≡ ok (commit_a ∷ commit_b ∷ [])
unfolding contains text_eq
parse_commit_metadata-log_output_example =
    parse_commit_metadata-log_output entries commits-IsLogged (refl, (refl, tt))

refusals :
    (assert_valid_git_ref lower (codes "a..b") ≡ err (invalid_ref (codes "a..b")))
    × (assert_valid_git_ref lower (codes "-x") ≡ err (invalid_ref (codes "-x")))
unfolding assert_valid_git_ref is_bad_name is_bad_component has_suffix has_forbidden_ref_rune index
    has_prefix has_rune split text_eq to_lower
refusals = (refl, refl)

assert_valid_git_ref-IsSafeRef_example : IsSafeRef lower (codes "core@v1.2.3")
unfolding assert_valid_git_ref is_bad_name is_bad_component has_suffix has_forbidden_ref_rune index
    has_prefix has_rune split text_eq to_lower
assert_valid_git_ref-IsSafeRef_example =
    assert_valid_git_ref-IsSafeRef lower (codes "core@v1.2.3") refl

abbrev answering : Runner
answering args input = record { stdout = hash_a ++ 10 ∷ []; stderr = []; code = 0; failure = none }

abbrev missing : Runner
missing args input = record { stdout = []; stderr = []; code = 128; failure = some exit_status }

no_tags : latest_tag missing (codes "v*") ≡ err no_tag
unfolding latest_tag git_run trim_end trim_space trim_left trim_right text_eq
no_tags = refl

ref_sha-IsRevision_example : IsRevision lower (codes "refs/tags/v1.0.0")
unfolding ref_sha assert_valid_git_ref is_bad_name is_bad_component has_suffix
    has_forbidden_ref_rune index has_prefix has_rune split text_eq to_lower is_full_sha trim_space
    trim_left trim_right is_space
ref_sha-IsRevision_example =
    ref_sha-IsRevision lower answering (codes "refs/tags/v1.0.0") {sha = hash_a} refl

-- A tree with one changed file, which is managed.
abbrev one_change : Runner
one_change args input = record {
  stdout = if contains args (codes "status") then codes " M out/a.md" ++ (0 ∷ []) else [];
  stderr = [];
  code = 0;
  failure = none;
}

abbrev managed : List (Text × Bool)
managed = (codes "/repo/out/a.md", false) ∷ (codes "/repo/out", true) ∷ []

ensure_clean_working_tree-IsCovered_example :
    (out : Text) × (git_run_raw one_change status_command ≡ ok out)
    × IsCovered (is_exempt (codes "/repo") (exempt_paths (codes "/repo") managed)) (split_nul out)
    × All
        (HidesNothing one_change
          (codes "/repo")
          (is_exempt (codes "/repo") (exempt_paths (codes "/repo") managed)))
        managed
unfolding contains git_run_raw has_prefix hooversion.Git.WorkingTree.ensure_clean_working_tree
    hooversion.Text.Paths.clean hooversion.Text.Paths.is_abs hooversion.Text.Paths.leads_down
    hooversion.Text.Paths.rel hooversion.Text.Paths.rel_elements hooversion.Text.Paths.render
    hooversion.Text.byte_len hooversion.Text.contains_any hooversion.Text.join split split_nul
    trim_nul
ensure_clean_working_tree-IsCovered_example =
    ensure_clean_working_tree-IsCovered one_change (codes "/repo") managed refl

repository_of-address_example :
    (repository_of (codes "git@github.com:openhoo/hooversion.git") ≡ codes "openhoo/hooversion")
    × (repository_of (codes "https://github.com/openhoo/hooversion.git")
        ≡ codes "openhoo/hooversion")
repository_of-address_example =
    repository_of-address (codes "github.com") (codes "openhoo") (codes "hooversion") (codes ".git")
      (λ e. cc) (λ e. cc) (λ e. cc) (omega arith) (omega arith) (ground arith) (inr refl)
