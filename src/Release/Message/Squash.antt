-- ===== src/Release/Message/Squash.antt =====
-- internal/release/resume.go: the mark that a squash merge leaves on the subject of a release commit.
use hooversion.Common.{
  ℕ, ◌≡◌, ◌≢◌, refl, ap, true, false, [], ◌∷◌, ◌++◌, All, arith, length, length-append, All-append,
  All_mono, ◌<◌, sym,
}
use hooversion.Release.Message.{
  blank_line, is_squash_mark, without_squash_mark, split_subject_body, rejoined,
  release_message_matches, release_commit_message,
}
use hooversion.Text.Decimal.{is_digit, format, format-IsDigits, format-ne-nil}
use hooversion.Text.Laws.{
  text_eq_iff, text_eq_ne, text_eq_refl, IsTrimmed, trim_space_of_IsTrimmed, cut_rune-append,
}
use hooversion.Text.Spans.{take_while-append, drop_while-append}
use hooversion.Text.{Text, codes, drop_while, trim_space, has_prefix}
use hooversion.Types.{ReleasePlan}

-- What GitHub puts behind the subject of the pull request with this number.
abbrev pub squash_mark : ℕ → Text
squash_mark number = codes " (#" ++ (format number ++ codes ")")

drop_while-mark :
    (t : Text) (number : ℕ) → 1 < length (drop_while is_digit (t ++ squash_mark number))
unfolding drop_while is_digit
drop_while-mark [] number = ground (arith, length-append {0} (format number) (codes ")"))
drop_while-mark (c ∷ t) number =
    ground (arith, drop_while-mark t number, length-append {0} t (squash_mark number))

is_squash_mark-append :
    (c : ℕ) (s : Text) (number : ℕ) → is_squash_mark (c ∷ (s ++ squash_mark number)) ≡ false
unfolding is_squash_mark has_prefix
is_squash_mark-append c [] number = ground arith
is_squash_mark-append c (d ∷ []) number = ground arith
is_squash_mark-append c (d ∷ e ∷ t) number =
    let rest = drop_while is_digit (t ++ squash_mark number) in
    ground (
      arith,
      drop_while-mark t number,
      text_eq_iff rest (codes ")"),
      ap (length {A = ℕ}) {x = rest} {y = codes ")"},
    )

is_squash_mark-mark : (number : ℕ) → is_squash_mark (squash_mark number) ≡ true
unfolding is_squash_mark has_prefix is_digit
is_squash_mark-mark number =
    let digits = format-IsDigits number in
    rw (
      take_while-append is_digit (format number) (codes ")") digits refl,
      drop_while-append is_digit (format number) (codes ")") digits refl,
      text_eq_ne (format number) [] (format-ne-nil number),
      text_eq_refl (codes ")"),
    )

-- The mark is taken off whatever stands before it, and nothing else is.
without_squash_mark-append :
    (s : Text) (number : ℕ) → without_squash_mark (s ++ squash_mark number) ≡ s
unfolding without_squash_mark
without_squash_mark-append [] number = rw (is_squash_mark-mark number)
without_squash_mark-append (c ∷ s) number =
    rw (is_squash_mark-append c s number) (ap (λ t. c ∷ t) (without_squash_mark-append s number))

split_subject_body-lines :
    (subject body : Text)
    → All (λ c. c ≢ 0xa) subject
    → IsTrimmed body
    → split_subject_body (subject ++ (blank_line ++ body)) ≡ (subject, body)
unfolding split_subject_body
split_subject_body-lines subject body no_line trimmed =
    let e : trim_space (0xa ∷ 0xa ∷ body) ≡ trim_space body = unfold trim_space in refl in
    rw (
      split_subject_body,
      cut_rune-append subject (0xa ∷ body) 0xa no_line,
      e,
      trim_space_of_IsTrimmed body trimmed,
    )

squash_mark-All : (number : ℕ) → All (λ c. c ≢ 0xa) (squash_mark number)
unfolding is_digit
squash_mark-All number =
    let digits : All (λ c. c ≢ 0xa) (format number) =
      All_mono (λ (c : ℕ) h. ground arith) (format number) (format-IsDigits number) in
    let tail =
      All-append (λ c. c ≢ 0xa) (format number) (codes ")") digits ((λ e. omega arith), tt) in
    (omega arith, (omega arith, (omega arith, tail)))

-- releaseMessageMatches accepts the message of a release commit with the mark of a squash merge
-- behind its subject, whatever the number of the pull request, for every plan whose message has a
-- subject of one line and a body without spaces at its ends.
pub release_message_matches-squash_mark :
    (plan : ReleasePlan) (subject body : Text) (number : ℕ)
    → release_commit_message plan ≡ subject ++ (blank_line ++ body)
    → All (λ c. c ≢ 0xa) subject
    → IsTrimmed body
    → release_message_matches
        ((subject ++ squash_mark number) ++ (blank_line ++ body))
        (release_commit_message plan)
      ≡ true
unfolding release_message_matches
release_message_matches-squash_mark plan subject body number e no_line trimmed =
    let split =
      split_subject_body-lines (subject ++ squash_mark number) body
        (All-append (λ c. c ≢ 0xa) subject _ no_line (squash_mark-All number)) trimmed in
    let message = (subject ++ squash_mark number) ++ (blank_line ++ body) in
    let joined : rejoined (split_subject_body message) ≡ release_commit_message plan =
      rw (split, without_squash_mark-append subject number) (sym e) in
    ground (
      arith,
      text_eq_iff (rejoined (split_subject_body message)) (release_commit_message plan),
      joined,
    )
