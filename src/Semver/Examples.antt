-- ===== src/Semver/Examples.antt =====
-- Tests of semver.go, and its theorems at concrete versions.
use hooversion.Common.{◌≡◌, refl, [], ◌∷◌, ok, err, if◌then◌else◌}
use hooversion.Semver.Bump.{fits, bumped, checked_bump-successor}
use hooversion.Semver.Highest.{rank, highest_rank, highest-rank, IsOutcome}
use hooversion.Semver.RoundTrip.{IsValid, parse-string, parse-IsValid}
use hooversion.Semver.{
  SemVer, invalid_version, component_range, parse, string, checked_bump, highest, is_identifiers,
  has_leading_zero, is_suffix_rune, atoi, match_version,
}
use hooversion.Text.Decimal.{is_digit, value_from}
use hooversion.Text.{codes, split, trim_space, take_while, drop_while}
use hooversion.Types.{minor, patch, no_release, unset}

abbrev candidate : SemVer
candidate = record {
  core_major = 1;
  core_minor = 12;
  core_patch = 3;
  pre = codes "rc.1";
  build = codes "b5";
}

parse-candidate : parse (codes " 1.12.3-rc.1+b5\n") ≡ ok candidate
unfolding parse match_version trim_space take_while drop_while is_digit is_suffix_rune
    is_identifiers split has_leading_zero atoi value_from
parse-candidate = refl

parse_refusals :
    (parse (codes "1.2") ≡ err invalid_version)
    × (parse (codes "1.2.3-01") ≡ err invalid_version)
    × (parse (codes "1.2.3-a..b") ≡ err invalid_version)
    × (parse (codes "1.2.9223372036854775808") ≡ err component_range)
    × (parse (codes "01.2.3")
        ≡ ok (record { core_major = 1; core_minor = 2; core_patch = 3; pre = []; build = [] }))
unfolding parse match_version trim_space take_while drop_while is_digit is_suffix_rune
    is_identifiers split has_leading_zero atoi value_from
parse_refusals = (refl, refl, refl, refl, refl)

candidate-IsValid : IsValid candidate
candidate-IsValid = parse-IsValid (codes " 1.12.3-rc.1+b5\n") parse-candidate

parse-string_example : parse (string candidate) ≡ ok candidate
parse-string_example = parse-string candidate candidate-IsValid

checked_bump-successor_example :
    checked_bump candidate minor
    ≡ (if fits candidate then bumped candidate minor else err invalid_version)
checked_bump-successor_example = checked_bump-successor candidate minor

abbrev next_minor : SemVer
next_minor = record { core_major = 1; core_minor = 13; core_patch = 0; pre = []; build = [] }

bump_candidate : checked_bump candidate minor ≡ ok next_minor
unfolding checked_bump
bump_candidate = refl

highest-rank_example :
    (rank (highest (patch ∷ unset ∷ minor ∷ no_release ∷ []))
      ≡ highest_rank (patch ∷ unset ∷ minor ∷ no_release ∷ []))
    × IsOutcome (highest (patch ∷ unset ∷ minor ∷ no_release ∷ []))
highest-rank_example = highest-rank (patch ∷ unset ∷ minor ∷ no_release ∷ [])
