-- ===== src/Semver.antt =====
-- internal/semver/semver.go. An int is the bit pattern of a 64-bit word: a value of 2 ^ 63 or more
-- is negative. The regular expression is read as the one way that a text can match it.
pub mod Bump
pub mod Highest
pub mod RoundTrip
mod Examples
use hooversion.Common.{
  ℕ, suc, ◌+◌, ◌-◌, ◌%◌, ◌^◌, Bool, true, false, not, ◌&&◌, ◌||◌, List, [], ◌∷◌, ◌++◌, Option, none,
  some, leb, ltb, ◌==◌, if◌then◌else◌, length, all, any, Result, ok, err, ◌>>=?◌,
}
use hooversion.Text.Decimal.{is_digit, format, value_from}
use hooversion.Text.{Text, trim_space, split, take_while, drop_while}
use hooversion.Types.{ReleaseType, major, minor, patch, no_release, unset, other}

pub record SemVer : Type 0 where
  pub core_major : ℕ
  pub core_minor : ℕ
  pub core_patch : ℕ
  pub pre : Text
  pub build : Text

pub data Error : Type 0 where
  invalid_version component_range invalid_release_type bump_range : Error

abbrev pub int_mod : ℕ
int_mod = 2 ^ 64

abbrev pub max_int : ℕ
max_int = 2 ^ 63 - 1

abbrev pub is_negative : ℕ → Bool
is_negative n = leb (2 ^ 63) n

-- n + 1 in int
abbrev pub increment : ℕ → ℕ
increment n = (n + 1) % int_mod

-- the verb %d
unfoldable pub format_int : ℕ → Text
unfolding format
format_int n = if is_negative n then b'-' ∷ format (int_mod - n) else format n

abbrev suffix_text : ℕ → Text → Text
suffix_text mark [] = []
suffix_text mark (c ∷ s) = mark ∷ c ∷ s

-- SemVer.String
unfoldable pub string : SemVer → Text
string v =
    format_int v.core_major
    ++ (b'.'
        ∷ (format_int v.core_minor
            ++ (b'.'
                ∷ (format_int v.core_patch
                    ++ (suffix_text b'-' v.pre ++ suffix_text b'+' v.build)))))

-- the class [0-9A-Za-z-]
unfoldable pub is_identifier_rune : ℕ → Bool
is_identifier_rune c =
    (leb b'0' c && leb c b'9')
    || (leb b'A' c && leb c b'Z')
    || (leb b'a' c && leb c b'z')
    || c == b'-'

-- the class with the dot that joins identifiers
unfoldable pub is_suffix_rune : ℕ → Bool
unfolding is_identifier_rune
is_suffix_rune c = is_identifier_rune c || c == b'.'

abbrev is_nonempty : Text → Bool
is_nonempty [] = false
is_nonempty (c ∷ s) = true

-- ids: one or more identifiers joined by dots, over runes of the class with the dot
unfoldable pub is_identifiers : Text → Bool
is_identifiers s = all is_nonempty (split s b'.')

-- (\d+), on the digits and the text behind them
number_span : Text → Text → Option (Text × Text)
number_span [] rest = none
number_span (c ∷ d) rest = some (c ∷ d, rest)

number : Text → Option (Text × Text)
unfolding number_span
number s = number_span (take_while is_digit s) (drop_while is_digit s)

dot : Text → Option Text
dot [] = none
dot (c ∷ s) = if c == b'.' then some s else none

-- (ids) behind its mark, on the span of the class and the text behind it
suffix_span : Text → Text → Option (Text × Text)
suffix_span ids rest = if is_identifiers ids then some (ids, rest) else none

-- (?:<mark>(ids))?
suffix : ℕ → Text → Option (Text × Text)
unfolding suffix_span
suffix mark [] = some ([], [])
suffix mark (c ∷ s) =
    if not (c == mark)
    then some ([], c ∷ s)
    else suffix_span (take_while is_suffix_rune s) (drop_while is_suffix_rune s)

pub record Match : Type 0 where
  pub m1 : Text
  pub m2 : Text
  pub m3 : Text
  pub m4 : Text
  pub m5 : Text

at_end : Match → Text → Option Match
at_end m [] = some m
at_end m (c ∷ s) = none

-- the three numbers of the core, and the text behind them
match_core : Text → Option (Text × Text × Text × Text)
match_core s = number s >>=? λ (a, r1). dot r1 >>=? λ r2.
    number r2 >>=? λ (b, r3). dot r3 >>=? λ r4. number r4 >>=? λ (c, r5). some (a, b, c, r5)

match_suffixes : Text × Text × Text × Text → Option Match
match_suffixes (a, b, c, rest) = suffix b'-' rest >>=? λ (p, r6).
    suffix b'+' r6 >>=? λ (q, r7). at_end (record { m1 = a; m2 = b; m3 = c; m4 = p; m5 = q }) r7

-- versionPattern.FindStringSubmatch
unfoldable pub match_version : Text → Option Match
unfolding match_core match_suffixes number dot suffix at_end
match_version s = match_core s >>=? match_suffixes

-- a numeric identifier with a leading zero
unfoldable pub has_leading_zero : Text → Bool
unfolding is_digit
has_leading_zero [] = false
has_leading_zero (c ∷ []) = false
has_leading_zero (c ∷ d ∷ s) = all is_digit (c ∷ d ∷ s) && c == b'0'

-- strconv.Atoi on a text of digits
unfoldable pub atoi : Text → Option ℕ
atoi s = if leb (value_from 0 s) max_int then some (value_from 0 s) else none

convert : Match → Option ℕ → Option ℕ → Option ℕ → Result Error SemVer
convert m (some a) (some b) (some c) =
    ok (record { core_major = a; core_minor = b; core_patch = c; pre = m.m4; build = m.m5 })
convert m _ _ _ = err component_range

of_match : Option Match → Result Error SemVer
unfolding convert
of_match none = err invalid_version
of_match (some m) =
    if any has_leading_zero (split m.m4 b'.')
    then err invalid_version
    else convert m (atoi m.m1) (atoi m.m2) (atoi m.m3)

unfoldable pub parse : Text → Result Error SemVer
unfolding of_match
parse s = of_match (match_version (trim_space s))

-- Bump, with the zero values of the fields that the literals leave out
unfoldable pub bump : SemVer → ReleaseType → SemVer
bump v major = record {
  core_major = increment v.core_major;
  core_minor = 0;
  core_patch = 0;
  pre = [];
  build = [];
}
bump v minor = record {
  core_major = v.core_major;
  core_minor = increment v.core_minor;
  core_patch = 0;
  pre = [];
  build = [];
}
bump v _ = record {
  core_major = v.core_major;
  core_minor = v.core_minor;
  core_patch = increment v.core_patch;
  pre = [];
  build = [];
}

abbrev raise_minor : ReleaseType → ReleaseType
raise_minor major = major
raise_minor _ = minor

abbrev raise_patch : ReleaseType → ReleaseType
raise_patch unset = patch
raise_patch r = r

-- the loop of Highest from a result so far
highest_from : ReleaseType → List ReleaseType → ReleaseType
highest_from result [] = result
highest_from result (major ∷ ts) = major
highest_from result (minor ∷ ts) = highest_from (raise_minor result) ts
highest_from result (patch ∷ ts) = highest_from (raise_patch result) ts
highest_from result (t ∷ ts) = highest_from result ts

unfoldable pub highest : List ReleaseType → ReleaseType
unfolding highest_from
highest ts = highest_from unset ts

or_minimum : ReleaseType → ReleaseType → ReleaseType
or_minimum unset minimum = minimum
or_minimum h minimum = h

-- Min
unfoldable pub min_release : ReleaseType → ReleaseType → ReleaseType
unfolding highest or_minimum
min_release current minimum = or_minimum (highest (current ∷ minimum ∷ [])) minimum

unfoldable pub any_negative : SemVer → Bool
any_negative v = is_negative v.core_major || is_negative v.core_minor || is_negative v.core_patch

abbrev pub is_bump : ReleaseType → Bool
is_bump major = true
is_bump minor = true
is_bump patch = true
is_bump _ = false

unfoldable pub checked_bump : SemVer → ReleaseType → Result Error SemVer
unfolding bump any_negative
checked_bump v t =
    if any_negative v
    then err invalid_version
    else if not (is_bump t)
    then err invalid_release_type
    else if any_negative (bump v t)
    then err bump_range
    else ok (bump v t)
