-- ===== src/Release/Message.antt =====
-- internal/release: CommitMessage of release.go, and splitSubjectBody and releaseMessageMatches of
-- resume.go.
pub mod Squash
use hooversion.Common.{
  ℕ, Bool, true, false, not, ◌&&◌, ◌||◌, List, [], ◌∷◌, ◌++◌, Option, none, some, if◌then◌else◌,
  map, drop,
}
use hooversion.Text.Decimal.{is_digit}
use hooversion.Text.{
  Text, codes, text_eq, has_prefix, take_while, drop_while, trim_space, join, cut_rune,
}
use hooversion.Types.{PackageRelease, ReleasePlan}

abbrev pub prefix : Text
prefix = codes "chore(release): "

abbrev pub blank_line : Text
blank_line = codes "\n\n"

-- "%s %s"
abbrev pub named_version : PackageRelease → Text
named_version release = release.pkg.name ++ b' ' ∷ release.next_version

abbrev pub summary_part : PackageRelease → Text
summary_part release = release.pkg.name ++ b'@' ∷ release.next_version

abbrev pub notes_block : PackageRelease → Text
notes_block release = codes "# " ++ (named_version release ++ (blank_line ++ release.notes))

-- the part of the subject behind the prefix
unfoldable pub release_subject : List PackageRelease → Text
release_subject (release ∷ []) = named_version release
release_subject releases = join (map summary_part releases) (codes ", ")

unfoldable pub release_body : List PackageRelease → Text
release_body (release ∷ []) = release.notes
release_body releases = join (map notes_block releases) blank_line

-- CommitMessage
unfoldable pub release_commit_message : ReleasePlan → Text
unfolding release_subject release_body
release_commit_message plan =
    prefix ++ (release_subject plan.releases ++ (blank_line ++ release_body plan.releases))

-- " (#", digits and ")", to the end of the text
unfoldable pub is_squash_mark : Text → Bool
is_squash_mark s =
    has_prefix s (codes " (#")
    && not (text_eq (take_while is_digit (drop 3 s)) [])
    && text_eq (drop_while is_digit (drop 3 s)) (codes ")")

-- squashMergeSuffix.ReplaceAllString(s, "")
unfoldable pub without_squash_mark : Text → Text
without_squash_mark [] = []
without_squash_mark (c ∷ s) = if is_squash_mark (c ∷ s) then [] else c ∷ without_squash_mark s

-- splitSubjectBody
unfoldable pub split_subject_body : Text → Text × Text
unfolding cut_rune trim_space
split_subject_body message = elim (cut_rune message 0xa) [
  | none ↦ (message, [])
  | some (subject, rest) ↦ (subject, trim_space (0xa ∷ rest))
]

abbrev pub rejoined : Text × Text → Text
rejoined (subject, body) = without_squash_mark subject ++ (blank_line ++ body)

-- releaseMessageMatches
unfoldable pub release_message_matches : Text → Text → Bool
unfolding without_squash_mark split_subject_body text_eq
release_message_matches message expected =
    text_eq message expected || text_eq (rejoined (split_subject_body message)) expected
