-- ===== src/Commit/Examples.antt =====
-- Tests of commit.go, and its theorems at concrete commits.
use hooversion.Commit.Headers.{IsHeader, header_text, match_header_sound, parse-format}
use hooversion.Commit.{
  Header, match_header, is_ignored_subject, lint, parse, format, breaking_change, body_lines,
  is_found, footer_text, footer_rest, is_blank, is_kind_rune, is_scope_rune, is_pattern_space,
  refuses_type, header_mismatch, type_not_allowed, description_required,
}
use hooversion.Common.{◌≡◌, refl, true, [], ◌∷◌, Option, none, some, ◌||◌}
use hooversion.Text.{
  Text, codes, text_eq, contains, has_prefix, has_rune, take_while, drop_while, trim_space, split,
  replace_all,
}
use hooversion.Types.{RawCommit, ParsedCommit, CommitPolicy}

abbrev subject : Text
subject = codes "feat(api,cli)!: drop v1"

abbrev header : Header
header = record {
  kind = codes "feat";
  scope = codes "api,cli";
  bang = true;
  description = codes "drop v1";
}

subject_matches : match_header subject ≡ some header
unfolding match_header take_while drop_while is_kind_rune is_scope_rune has_rune
subject_matches = refl

match_header_refusals :
    (match_header (codes "Feat: x") ≡ none)
    × (match_header (codes "feat(): x") ≡ none)
    × (match_header (codes "feat:x") ≡ none)
unfolding match_header take_while drop_while is_kind_rune is_scope_rune has_rune
match_header_refusals = (refl, refl, refl)

match_header_sound_example : (subject ≡ header_text header) × IsHeader header
match_header_sound_example = match_header_sound subject subject_matches

abbrev raw : RawCommit
raw = record {
  hash = codes "abc";
  subject = subject;
  body = codes "why\r\n\r\nBREAKING CHANGE: v1 is gone \n";
  files = [];
}

abbrev commit : ParsedCommit
commit = record {
  hash = codes "abc";
  subject = subject;
  body = raw.body;
  files = [];
  kind = codes "feat";
  scope = codes "api,cli";
  breaking = true;
  breaking_description = codes "v1 is gone";
  description = codes "drop v1";
  conforms = true;
}

parse-raw : parse raw ≡ commit
unfolding parse match_header take_while drop_while is_kind_rune is_scope_rune has_rune
    breaking_change body_lines replace_all split footer_text footer_rest trim_space has_prefix
    is_pattern_space is_blank text_eq
parse-raw = refl

parse-format_example :
    let p = parse raw in
    (p.kind ≡ commit.kind)
    × (p.scope ≡ commit.scope)
    × (p.description ≡ commit.description)
    × (p.breaking ≡ (is_found (breaking_change raw.body) || true))
    × (p.conforms ≡ true)
unfolding format is_kind_rune is_scope_rune has_rune
parse-format_example =
    parse-format commit raw (refl, (refl, (refl, (refl, tt))))
      (refl, (refl, (refl, (refl, (refl, (refl, (refl, tt))))))) (λ e. cc, refl) refl

abbrev strict : Option CommitPolicy
strict = some (record { allowed_types = codes "fix" ∷ []; release_types = [] })

lint_reports :
    (lint commit strict ≡ type_not_allowed (codes "feat") ∷ [])
    × (lint (record commit { subject = codes "feat:  " }) none ≡ description_required ∷ [])
    × (lint (record commit { subject = codes "oops" }) none ≡ header_mismatch ∷ [])
    × (lint (record commit { subject = codes "REVERT: oops" }) none ≡ [])
unfolding lint is_ignored_subject match_header take_while drop_while is_kind_rune is_scope_rune
    has_rune refuses_type contains is_blank trim_space text_eq
lint_reports = (refl, refl, refl, refl)
