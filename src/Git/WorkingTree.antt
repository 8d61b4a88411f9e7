-- ===== src/Git/WorkingTree.antt =====
-- internal/git/git.go: the gate for a clean working tree. The map of managed paths is a list of
-- pairs, in the order in which its range statements visit it; the order shows in messages only.
-- Messages hold the paths as Git gave them, without the quoting of displayGitPath.
pub mod Covered
use hooversion.Common.{
  ℕ, Bool, true, false, not, ◌&&◌, ◌||◌, List, [], ◌∷◌, ◌++◌, Option, none, some, ltb, ◌==◌,
  if◌then◌else◌, take, drop, map, Result, ok, err, ◌>>=◌,
}
use hooversion.Git.{Runner, Error, not_clean, bad_status, incomplete_rename, git_run_raw}
use hooversion.Git.Log.{split_nul}
use hooversion.Text.Paths.{CleanPath, is_abs, clean, render, rel, leads_down}
use hooversion.Text.{Text, codes, text_eq, contains, contains_any, join, byte_len}

-- filepath.Join of two elements
unfoldable pub join_path : Text → Text → Text
join_path base path =
    if text_eq base []
    then if text_eq path [] then [] else render (clean path)
    else if text_eq path []
    then render (clean base)
    else render (clean (base ++ b'/' ∷ path))

-- the function `abs`
unfoldable pub absolute : Text → Text → Text
unfolding join_path
absolute cwd path = if is_abs path then render (clean path) else join_path cwd path

-- the keys of the map `exempt`
unfoldable pub exempt_paths : Text → List (Text × Bool) → List Text
unfolding absolute
exempt_paths cwd [] = []
exempt_paths cwd ((path, scoped) ∷ managed) = absolute cwd path ∷ exempt_paths cwd managed

unfoldable pub is_exempt : Text → List Text → Text → Bool
unfolding absolute
is_exempt cwd exempt path = contains exempt (absolute cwd path)

abbrev pub status_of : Text → Text
status_of entry = take 2 entry

abbrev pub path_of : Text → Text
path_of entry = drop 3 entry

-- strings.ContainsAny(status, "RC")
abbrev pub is_rename : Text → Bool
is_rename entry = contains_any (status_of entry) (codes "RC")

abbrev pub describe : Text → Text
describe entry = status_of entry ++ b' ' ∷ path_of entry

abbrev pub report : Bool → Text → Result Error (List Text) → Result Error (List Text)
report clean_record entry rest =
    rest >>= λ unexpected. ok (if clean_record then unexpected else describe entry ∷ unexpected)

-- the loop over the status records
unfoldable pub unexpected_changes : (Text → Bool) → List Text → Result Error (List Text)
unexpected_changes managed [] = ok []
unexpected_changes managed (entry ∷ []) =
    if ltb (byte_len entry) 4
    then err (bad_status entry)
    else if is_rename entry
    then err incomplete_rename
    else report (managed (path_of entry)) entry (ok [])
unexpected_changes managed (entry ∷ source ∷ rest) =
    let plain = unexpected_changes managed (source ∷ rest) in
    let renamed = unexpected_changes managed rest in
    if ltb (byte_len entry) 4
    then err (bad_status entry)
    else if is_rename entry
    then report (managed (path_of entry) && managed source) entry renamed
    else report (managed (path_of entry)) entry plain

abbrev pub scope_of : Text → Text → Option (List Text)
scope_of cwd dir = rel (clean cwd) (clean (absolute cwd dir))

abbrev pub scope_text : Option (List Text) → Text
scope_text none = []
scope_text (some elements) = join elements (codes "/")

unfoldable pub unmanaged : (Text → Bool) → List Text → List Text
unmanaged managed [] = []
unmanaged managed (path ∷ paths) =
    let rest = unmanaged managed paths in
    if managed path then rest else (codes "?? " ++ path) ∷ rest

abbrev pub ignored_command : Option (List Text) → List Text
ignored_command scope =
    codes "ls-files"
    ∷ codes "--others"
    ∷ codes "--ignored"
    ∷ codes "--exclude-standard"
    ∷ codes "-z"
    ∷ codes "--"
    ∷ scope_text scope
    ∷ []

abbrev pub status_command : List Text
status_command =
    codes "status" ∷ codes "--porcelain=v1" ∷ codes "-z" ∷ codes "--untracked-files=all" ∷ []

-- the loop over the managed directories: what Git ignores inside of them
unfoldable pub ignored_files :
    Runner → Text → (Text → Bool) → List (Text × Bool) → Result Error (List Text)
unfolding unmanaged absolute
ignored_files run cwd managed [] = ok []
ignored_files run cwd managed ((dir, scoped) ∷ dirs) =
    let rest = ignored_files run cwd managed dirs in
    if scoped && leads_down (scope_of cwd dir)
    then (git_run_raw run (ignored_command (scope_of cwd dir)) >>= λ out.
        rest >>= λ found. ok (unmanaged managed (split_nul out) ++ found))
    else rest

unfoldable pub verdict : List Text → Result Error (Unit {0})
verdict [] = ok tt
verdict (line ∷ lines) = err (not_clean (line ∷ lines))

-- what follows the status records that were read
abbrev pub judge_ignored :
    Runner → Text → (Text → Bool) → List (Text × Bool) → List Text → Result Error (Unit {0})
judge_ignored run cwd exempt managed changes =
    ignored_files run cwd exempt managed >>= λ ignored. verdict (changes ++ ignored)

abbrev pub judge :
    Runner → Text → (Text → Bool) → List (Text × Bool) → Text → Result Error (Unit {0})
judge run cwd exempt managed status_out =
    unexpected_changes exempt (split_nul status_out) >>= judge_ignored run cwd exempt managed

-- EnsureCleanWorkingTreeWithEnv
unfoldable pub ensure_clean_working_tree :
    Runner → Text → List (Text × Bool) → Result Error (Unit {0})
unfolding is_exempt exempt_paths unexpected_changes ignored_files verdict
ensure_clean_working_tree run cwd managed =
    git_run_raw run status_command
    >>= judge run cwd (is_exempt cwd (exempt_paths cwd managed)) managed
