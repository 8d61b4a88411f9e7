-- ===== src/Commit.antt =====
-- internal/commit/commit.go. The regular expressions are read as the one way that a text can match
-- them; a submatch that is absent is "".
pub mod Headers
mod Examples
use hooversion.Common.{
  ℕ, ◌+◌, ◌<◌, Bool, true, false, not, ◌&&◌, ◌||◌, List, [], ◌∷◌, ◌++◌, Option, none, some, leb,
  ltb, ◌==◌, if◌then◌else◌, length, any, map, ◌>>=?◌, drop,
}
use hooversion.Text.{
  Text, codes, text_eq, contains, has_prefix, has_rune, take_while, drop_while, trim_space, split,
  replace_all,
}
use hooversion.Types.{RawCommit, ParsedCommit, CommitPolicy}

abbrev is_lower : ℕ → Bool
is_lower c = leb b'a' c && leb c b'z'

-- the class [a-z0-9-]
unfoldable pub is_kind_rune : ℕ → Bool
is_kind_rune c = is_lower c || (leb b'0' c && leb c b'9') || c == b'-'

-- the class [^()\r\n]
unfoldable pub is_scope_rune : ℕ → Bool
is_scope_rune c = not (c == b'(' || c == b')' || c == b'\r' || c == b'\n')

-- The submatches of HeaderRE.
pub record Header : Type 0 where
  pub kind : Text
  pub scope : Text
  pub bang : Bool
  pub description : Text

match_kind : Text → Option (Text × Text)
match_kind [] = none
match_kind (c ∷ s) =
    if is_lower c then some (c ∷ take_while is_kind_rune s, drop_while is_kind_rune s) else none

scope_span : Text → Text → Option (Text × Text)
scope_span [] rest = none
scope_span (c ∷ s) [] = none
scope_span (c ∷ s) (d ∷ rest) = if d == b')' then some (c ∷ s, rest) else none

match_scope : Text → Option (Text × Text)
unfolding scope_span
match_scope [] = some ([], [])
match_scope (c ∷ s) =
    if c == b'('
    then scope_span (take_while is_scope_rune s) (drop_while is_scope_rune s)
    else some ([], c ∷ s)

match_bang : Text → Bool × Text
match_bang [] = (false, [])
match_bang (c ∷ s) = if c == b'!' then (true, s) else (false, c ∷ s)

-- ": (.+)" up to the end of the text
match_description : Text → Option Text
match_description (c ∷ d ∷ e ∷ s) =
    if c == b':' && d == b' ' && not (has_rune b'\n' (e ∷ s)) then some (e ∷ s) else none
match_description _ = none

match_tail : Text → Text → Option Header
unfolding match_description match_bang
match_tail kind s = match_scope s >>=? λ (scope, r).
    match_description (match_bang r).1 >>=? λ description.
    some (record { kind = kind; scope = scope; bang = (match_bang r).0; description = description })

-- HeaderRE.FindStringSubmatch
unfoldable pub match_header : Text → Option Header
unfolding match_kind match_scope match_tail
match_header s = match_kind s >>=? λ (kind, r). match_tail kind r

abbrev fold_case : ℕ → ℕ
fold_case c = if leb b'A' c && leb c b'Z' then c + 32 else c

-- IsIgnoredSubject: one disjunct for each of ignoredSubjectPatterns
unfoldable pub is_ignored_subject : Text → Bool
unfolding has_prefix
is_ignored_subject subject =
    has_prefix subject (codes "Merge ")
    || has_prefix subject (codes "Revert \"")
    || has_prefix (map fold_case subject) (codes "revert: ")
    || has_prefix subject (codes "chore(release): ")
    || has_prefix subject (codes "chore(release)!: ")

-- the class \s
unfoldable pub is_pattern_space : ℕ → Bool
is_pattern_space c = c == 9 || c == 10 || c == 12 || c == 13 || c == 32

-- the text behind ^BREAKING[ -]CHANGE:\s*
unfoldable pub footer_rest : Text → Option Text
footer_rest s =
    if has_prefix s (codes "BREAKING CHANGE:") || has_prefix s (codes "BREAKING-CHANGE:")
    then some (drop_while is_pattern_space (drop 16 s))
    else none

-- \S.*$ on the text behind the prefix
is_footer_text : Text → Bool
is_footer_text [] = false
is_footer_text (c ∷ s) = not (has_rune b'\n' s)

-- The text of a line that breakingFooterLinePattern matches, with its prefix replaced by "".
unfoldable pub footer_text : Text → Option Text
unfolding is_footer_text
footer_text line =
    footer_rest (trim_space line) >>=? λ r. if is_footer_text r then some (trim_space r) else none

unfoldable pub is_blank : Text → Bool
is_blank line = text_eq (trim_space line) []

-- Whether a footer counts: `before` is the line above it, and `alone` is len(lines) == 1.
abbrev pub is_separate : Option Text → Bool → Bool
is_separate none alone = alone
is_separate (some line) alone = is_blank line

-- the loop of BreakingChange
find_footer : Option Text → Bool → List Text → Option Text
find_footer before alone [] = none
find_footer before alone (line ∷ lines) =
    let later = find_footer (some line) alone lines in
    elim (footer_text line) [
      | none ↦ later
      | some text ↦ if is_separate before alone then some text else later
    ]

unfoldable pub body_lines : Text → List Text
body_lines body = split (replace_all body (codes "\r\n") (codes "\n")) b'\n'

-- BreakingChange; none is ("", false)
unfoldable pub breaking_change : Text → Option Text
unfolding find_footer
breaking_change body = let lines = body_lines body in find_footer none (length lines == 1) lines

abbrev text_or_empty : Option Text → Text
text_or_empty none = []
text_or_empty (some t) = t

abbrev is_found : Option Text → Bool
is_found none = false
is_found (some t) = true

parse_match : RawCommit → Option Header → ParsedCommit
parse_match raw none = record {
  hash = raw.hash;
  subject = raw.subject;
  body = raw.body;
  files = raw.files;
  kind = [];
  scope = [];
  breaking = false;
  breaking_description = [];
  description = raw.subject;
  conforms = false;
}
parse_match raw (some m) =
    let footer : Option Text = breaking_change raw.body in
    record {
      hash = raw.hash;
      subject = raw.subject;
      body = raw.body;
      files = raw.files;
      kind = m.kind;
      scope = m.scope;
      breaking = is_found footer || m.bang;
      breaking_description = text_or_empty footer;
      description = m.description;
      conforms = true;
    }

-- Parse; the source's policy argument is not read
unfoldable pub parse : RawCommit → ParsedCommit
unfolding parse_match
parse raw = parse_match raw (match_header raw.subject)

-- The messages of CommitLintIssue.
pub data Issue : Type 0 where
  header_mismatch description_required header_too_long : Issue
  type_not_allowed : Text → Issue

-- policy != nil && len(policy.AllowedTypes) > 0 && !contains(policy.AllowedTypes, type)
unfoldable pub refuses_type : Option CommitPolicy → Text → Bool
refuses_type none kind = false
refuses_type (some policy) kind =
    ltb 0 (length policy.allowed_types) && not (contains policy.allowed_types kind)

abbrev issue_if : Bool → Issue → List Issue
issue_if b issue = if b then issue ∷ [] else []

lint_match : Text → Option CommitPolicy → Option Header → List Issue
lint_match subject policy none = header_mismatch ∷ []
lint_match subject policy (some m) =
    issue_if (refuses_type policy m.kind) (type_not_allowed m.kind)
    ++ (issue_if (is_blank m.description) description_required
        ++ issue_if (ltb 100 (length subject)) header_too_long)

-- Lint
unfoldable pub lint : ParsedCommit → Option CommitPolicy → List Issue
unfolding lint_match
lint c policy =
    if is_ignored_subject c.subject
    then []
    else lint_match c.subject policy (match_header c.subject)

abbrev pub scope_text : Text → Text
scope_text [] = []
scope_text (c ∷ s) = b'(' ∷ (c ∷ s ++ (b')' ∷ []))

-- Format
unfoldable pub format : ParsedCommit → Text
format c =
    c.kind
    ++ (scope_text c.scope
        ++ ((if c.breaking then b'!' ∷ [] else []) ++ (b':' ∷ b' ' ∷ c.description)))
