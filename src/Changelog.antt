-- ===== src/Changelog.antt =====
-- internal/changelog/changelog.go: the release notes of a version, and the text of a changelog file
-- that they are put into. The date is the text that the caller's clock gives; UpdateWithFS writes
-- what `assemble` returns.
pub mod Groups
pub mod Assembly
mod Examples
use hooversion.Commit.{breaking_change}
use hooversion.Common.{
  ℕ, Bool, true, false, not, ◌&&◌, ◌||◌, List, [], ◌∷◌, ◌++◌, Option, none, some, ◌==◌,
  if◌then◌else◌, take, length, ltb,
}
use hooversion.Text.Maps.{TextMap, lookup, insert}
use hooversion.Text.{
  Text, codes, text_eq, has_prefix, is_space, trim_left, trim_right, trim_space, join, replace_all,
  byte_len,
}
use hooversion.Types.{ParsedCommit}

-- groupTitles
abbrev pub group_titles : List (Text × Text)
group_titles =
    (codes "major", codes "Breaking Changes")
    ∷ (codes "feat", codes "Features")
    ∷ (codes "fix", codes "Bug Fixes")
    ∷ (codes "perf", codes "Performance")
    ∷ []

abbrev pub other_changes : Text
other_changes = codes "Other Changes"

-- the loop over the titles: whether some key is the type of the commit
is_group_key : List (Text × Text) → Text → Bool
is_group_key [] kind = false
is_group_key ((key, title) ∷ titles) kind = text_eq key kind || is_group_key titles kind

-- the key that a commit is pushed under
unfoldable pub bucket_key : ParsedCommit → Text
unfolding is_group_key
bucket_key c =
    if c.breaking
    then codes "major"
    else if is_group_key group_titles c.kind
    then c.kind
    else other_changes

abbrev pub commits_of : Option (List ParsedCommit) → List ParsedCommit
commits_of none = []
commits_of (some commits) = commits

-- the loop over the commits; `order`, which nothing reads, is left out
buckets_from : TextMap (List ParsedCommit) → List ParsedCommit → TextMap (List ParsedCommit)
buckets_from buckets [] = buckets
buckets_from buckets (c ∷ commits) =
    buckets_from
      (insert (bucket_key c) (commits_of (lookup (bucket_key c) buckets) ++ c ∷ []) buckets) commits

pub record CommitGroup : Type 0 where
  pub title : Text
  pub commits : List ParsedCommit

-- a group is added if its bucket is not empty
abbrev pub group_if : Text → List ParsedCommit → List CommitGroup
group_if title [] = []
group_if title (c ∷ commits) = record { title = title; commits = c ∷ commits } ∷ []

titled_groups : TextMap (List ParsedCommit) → List (Text × Text) → List CommitGroup
titled_groups buckets [] = group_if other_changes (commits_of (lookup other_changes buckets))
titled_groups buckets ((key, title) ∷ titles) =
    group_if title (commits_of (lookup key buckets)) ++ titled_groups buckets titles

-- groupCommits
unfoldable pub group_commits : List ParsedCommit → List CommitGroup
unfolding buckets_from titled_groups
group_commits commits = titled_groups (buckets_from [] commits) group_titles

-- hash7, for object names: their runes are bytes
unfoldable pub hash7 : Text → Text
hash7 h = if ltb 7 (byte_len h) then take 7 h else h

breaking_lines : ParsedCommit → Option Text → List Text
breaking_lines c none = []
breaking_lines c (some text) = (codes "  - BREAKING: " ++ text) ∷ []

-- the lines of one commit
unfoldable pub commit_lines : ParsedCommit → List Text
unfolding breaking_lines
commit_lines c =
    let scope = if text_eq c.scope [] then [] else codes "**" ++ (c.scope ++ codes ":** ") in
    (codes "- " ++ (scope ++ (c.description ++ (codes " (" ++ (hash7 c.hash ++ codes ")")))))
    ∷ (if c.breaking && not (text_eq c.body [])
        then breaking_lines c (breaking_change c.body)
        else [])

commits_lines : List ParsedCommit → List Text
commits_lines [] = []
commits_lines (c ∷ commits) = commit_lines c ++ commits_lines commits

groups_lines : List CommitGroup → List Text
unfolding commits_lines
groups_lines [] = []
groups_lines (g ∷ groups) =
    (codes "### " ++ g.title) ∷ [] ∷ (commits_lines g.commits ++ ([] ∷ groups_lines groups))

-- the cutset of strings.TrimRight
abbrev is_cut : ℕ → Bool
is_cut c = c == 32 || c == 9 || c == 10 || c == 11 || c == 12 || c == 13

-- GenerateNotes
unfoldable pub generate_notes : Text → Text → List ParsedCommit → Text
unfolding groups_lines
generate_notes version date commits = trim_right is_cut (
    join
      ((codes "## " ++ (version ++ (codes " (" ++ (date ++ codes ")"))))
        ∷ []
        ∷ groups_lines (group_commits commits))
      (codes "\n"))

-- the text up to the first line break, and the text behind it
unfoldable pub first_line : Text → Text
first_line [] = []
first_line (c ∷ s) = if c == b'\n' then [] else c ∷ first_line s

unfoldable pub after_line : Text → Text
after_line [] = []
after_line (c ∷ s) = if c == b'\n' then s else after_line s

-- trimEnd
unfoldable pub trim_end : Text → Text
trim_end = trim_right is_space

abbrev is_newline : ℕ → Bool
is_newline c = c == b'\n'

-- `normalized` after the default for a blank file
normalize : Text → Text → Text
normalize existing title =
    let normalized = replace_all existing (codes "\r\n") (codes "\n") in
    if text_eq (trim_space normalized) [] then title ++ codes "\n" else normalized

-- the header and the body of a normalized file
header_of : Text → Text → Text
header_of normalized title =
    if has_prefix (first_line normalized) (codes "# ") then first_line normalized else title

body_of : Text → Text
body_of normalized =
    if has_prefix (first_line normalized) (codes "# ")
    then trim_left is_newline (after_line normalized)
    else normalized

-- assemble
unfoldable pub assemble : Text → Text → Text → Text
unfolding normalize header_of body_of
assemble existing title notes =
    let normalized = normalize existing title in
    header_of normalized title
    ++ (codes "\n\n" ++ (notes ++ (codes "\n\n" ++ (trim_end (body_of normalized) ++ codes "\n"))))
