-- ===== src/Changelog/Assembly.antt =====
-- How `assemble` of internal/changelog/changelog.go places new notes in a file.
use hooversion.Changelog.{
  first_line, after_line, trim_end, is_newline, normalize, header_of, body_of, assemble,
}
use hooversion.Common.{◌≡◌, ◌≢◌, refl, ap, ◌∙◌, true, false, [], ◌∷◌, ◌++◌, arith, All, All-append}
use hooversion.Text.Laws.{trim_right-cons_ne, replace_all_absent}
use hooversion.Text.{Text, codes, text_eq, has_prefix, is_space, trim_left, trim_space}

abbrev pub NoReturn : Text → Type 0
NoReturn = All (λ c. c ≢ b'\r')

abbrev pub NoNewline : Text → Type 0
NoNewline = All (λ c. c ≢ b'\n')

first_line-append : (a b : Text) → NoNewline a → first_line (a ++ (b'\n' ∷ b)) ≡ a
unfolding first_line
first_line-append [] b h = refl
first_line-append (c ∷ a) b h = ground (arith, first_line-append a b h.1)

after_line-append : (a b : Text) → NoNewline a → after_line (a ++ (b'\n' ∷ b)) ≡ b
unfolding after_line
after_line-append [] b h = refl
after_line-append (c ∷ a) b h = ground (arith, after_line-append a b h.1)

-- A title line of the form "# <name>".
abbrev pub title_line : Text → Text
title_line name = b'#' ∷ b' ' ∷ name

not_blank : (s : Text) → text_eq (trim_space (b'#' ∷ s)) [] ≡ false
unfolding trim_space trim_left is_space text_eq
not_blank s = rw (trim_right-cons_ne is_space b'#' s refl) refl

-- Let a file have a title line, an empty line and a body that does not start with a line break, and
-- no carriage return. Then `assemble` keeps the title line, whatever the default title, puts the
-- new notes below it between empty lines, and the old body below them, without the space at its
-- end.
pub assemble-file :
    (name body title notes : Text)
    → NoReturn name
    → NoNewline name
    → NoReturn body
    → trim_left is_newline body ≡ body
    → assemble (title_line name ++ (codes "\n\n" ++ body)) title notes
      ≡ title_line name
        ++ (codes "\n\n" ++ (notes ++ (codes "\n\n" ++ (trim_end body ++ codes "\n"))))
unfolding assemble normalize header_of body_of has_prefix trim_left
assemble-file name body title notes r n rb nb =
    let file = title_line name ++ (codes "\n\n" ++ body) in
    let clean : NoReturn file =
      All-append (λ c. c ≢ b'\r') (title_line name) (codes "\n\n" ++ body)
        (ground arith, (ground arith, r)) (ground arith, (ground arith, rb)) in
    let same = replace_all_absent file (codes "\n") (codes "\n") b'\r' clean in
    let line =
      first_line-append (title_line name) (b'\n' ∷ body) (ground arith, (ground arith, n)) in
    let after =
      after_line-append (title_line name) (b'\n' ∷ body) (ground arith, (ground arith, n)) in
    let normal : normalize file title ≡ file =
      ground (arith, same, not_blank (b' ' ∷ (name ++ (codes "\n\n" ++ body)))) in
    let titled : has_prefix (first_line file) (codes "# ") ≡ true =
      ap (λ l. has_prefix l (codes "# ")) line in
    let header : header_of file title ≡ title_line name = ground (arith, titled, line) in
    let trimmed : trim_left is_newline (after_line file) ≡ body =
      ap (trim_left is_newline) after ∙ nb in
    let rest : body_of file ≡ body = ground (arith, titled, trimmed) in
    rw normal (rw (header, rest) refl)
