-- ===== src/Changelog/Examples.antt =====
-- Tests of changelog.go, and its theorems at concrete commits.
use hooversion.Changelog.Assembly.{title_line, assemble-file}
use hooversion.Changelog.Groups.{with_key, later_groups, group_commits-major}
use hooversion.Changelog.{
  bucket_key, group_commits, hash7, commit_lines, generate_notes, first_line, after_line, trim_end,
  assemble,
}
use hooversion.Common.{arith, ◌≡◌, refl, [], ◌∷◌, ◌++◌}
use hooversion.Routing.Examples.{fix_core}
use hooversion.Text.Maps.{lookup, insert}
use hooversion.Text.{
  codes, text_eq, has_prefix, is_space, trim_left, trim_right, trim_space, join, replace_all,
  byte_len,
}
use hooversion.Types.{ParsedCommit}

abbrev major_core : ParsedCommit
major_core = record fix_core { kind = codes "major" }

notes :
    generate_notes (codes "1.2.4") (codes "2024-05-01") (fix_core ∷ [])
    ≡ codes "## 1.2.4 (2024-05-01)\n\n### Bug Fixes\n\n- x (a1)"
unfolding generate_notes group_commits bucket_key commit_lines hash7 lookup insert text_eq join
    trim_right byte_len
notes = refl

first_notes :
    assemble [] (codes "# Changelog") (codes "## 1.0.0") ≡ codes "# Changelog\n\n## 1.0.0\n\n\n"
unfolding assemble first_line after_line trim_end trim_left trim_right trim_space replace_all
    has_prefix text_eq is_space
first_notes = refl

group_commits-major_example :
    group_commits (fix_core ∷ major_core ∷ [])
    ≡ record {
      title = codes "Breaking Changes";
      commits = with_key (codes "major") (fix_core ∷ []) ++ major_core ∷ [];
    }
      ∷ later_groups (fix_core ∷ major_core ∷ [])
group_commits-major_example = group_commits-major (fix_core ∷ []) major_core [] refl refl

assemble-file_example :
    assemble
      (title_line (codes "Log") ++ (codes "\n\n" ++ codes "## 1.0.0\n"))
      (codes "# Changelog")
      (codes "## 1.1.0")
    ≡ title_line (codes "Log")
      ++ (codes "\n\n"
          ++ (codes "## 1.1.0" ++ (codes "\n\n" ++ (trim_end (codes "## 1.0.0\n") ++ codes "\n"))))
unfolding trim_left
assemble-file_example =
    assemble-file (codes "Log") (codes "## 1.0.0\n") (codes "# Changelog") (codes "## 1.1.0")
      (ground arith) (ground arith) (ground arith) refl
