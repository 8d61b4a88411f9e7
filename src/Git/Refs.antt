-- ===== src/Git/Refs.antt =====
-- The names that AssertValidGitRef of internal/git/git.go lets through, and the revisions that
-- RefShaWithEnv asks Git for.
use hooversion.Common.{
  ◌-◌, length, length-append, drop-append, any, any-false, All_mono, ℕ, ◌<◌, ◌≡◌, ◌≢◌, ◌⊎◌, inl,
  inr, ap, true, false, [], ◌∷◌, ◌++◌, none, arith, All, Bool-cases, ok, bind-eq-ok, drop,
}
use hooversion.Git.{
  is_bad_component, has_suffix, Runner, has_forbidden_ref_rune, has_text, is_bad_name,
  assert_valid_git_ref, is_full_sha, commit_ref, ref_sha_from, ref_sha,
}
use hooversion.Text.Laws.{text_eq_iff, text_eq_refl, has_prefix-append, has_prefix-split}
use hooversion.Text.{to_lower, split, Text, codes, text_eq, has_prefix, has_rune, index}

index_prefix : (s sub : Text) → has_prefix s sub ≡ true → index s sub ≢ none
unfolding index
index_prefix [] sub h = ground arith
index_prefix (c ∷ s) sub h = ground arith

pub index-append-ne-none : (a sub b : Text) → index (a ++ (sub ++ b)) sub ≢ none
unfolding index
index-append-ne-none [] sub b = index_prefix (sub ++ b) sub (has_prefix-append sub b)
index-append-ne-none (x ∷ a) sub b = ground (arith, index-append-ne-none a sub b)

has_text-absent : (s sub a b : Text) → has_text s sub ≡ false → s ≢ a ++ (sub ++ b)
has_text-absent s sub a b h e =
    ground (arith, index-append-ne-none a sub b, ap (λ t. index t sub) e)

has_suffix-append : (before suffix : Text) → has_suffix (before ++ suffix) suffix ≡ true
unfolding has_suffix
has_suffix-append before suffix =
    let behind : length (before ++ suffix) - length suffix ≡ length before =
      omega (arith, length-append before suffix) in
    rw (behind, drop-append before suffix, text_eq_refl suffix)
      (ground (arith, length-append before suffix))

has_suffix-absent : (s suffix before : Text) → has_suffix s suffix ≡ false → s ≢ before ++ suffix
has_suffix-absent s suffix before h e =
    ground (arith, ap (λ t. has_suffix t suffix) e, has_suffix-append before suffix)

has_prefix-absent : (s prefix rest : Text) → has_prefix s prefix ≡ false → s ≢ prefix ++ rest
has_prefix-absent s prefix rest h e =
    ground (arith, ap (λ t. has_prefix t prefix) e, has_prefix-append prefix rest)

-- A part of a name between its slashes: it is not empty, neither starts nor ends with a dot, and
-- does not end in ".lock", in lower case or another.
pub record IsSafeComponent (lower : ℕ → ℕ) (component : Text) : Type 0 where
  pub not_empty : component ≢ []
  pub no_dot_first : (rest : Text) → component ≢ codes "." ++ rest
  pub no_dot_last : (before : Text) → component ≢ before ++ codes "."
  pub no_lock : (before : Text) → to_lower lower component ≢ before ++ codes ".lock"

-- A rune that stands for itself in a name.
abbrev pub IsPlainRune : ℕ → Type 0
IsPlainRune c =
    (0x20 < c)
    × (c ≢ 0x7f)
    × (c ≢ b'~')
    × (c ≢ b'^')
    × (c ≢ b':')
    × (c ≢ b'?')
    × (c ≢ b'*')
    × (c ≢ b'\\')

-- A name that Git can take neither for an option nor for "@", a full ref, a range or another
-- revision syntax, and each part of which can be the name of a file for a ref.
pub record IsSafeRef (lower : ℕ → ℕ) (name : Text) : Type 0 where
  pub nonempty : name ≢ []
  pub not_head : name ≢ codes "@"
  pub no_option : (rest : Text) → name ≢ codes "-" ++ rest
  pub no_full_ref : (rest : Text) → name ≢ codes "refs/" ++ rest
  pub no_range : (before after : Text) → name ≢ before ++ (codes ".." ++ after)
  pub no_reflog : (before after : Text) → name ≢ before ++ (codes "@{" ++ after)
  pub no_bracket : (before after : Text) → name ≢ before ++ (codes "[" ++ after)
  pub no_special : All IsPlainRune name
  pub safe_components : All (IsSafeComponent lower) (split name b'/')

has_forbidden-All : (s : Text) → has_forbidden_ref_rune s ≡ false → All IsPlainRune s
unfolding has_forbidden_ref_rune has_rune
has_forbidden-All [] h = tt
has_forbidden-All (c ∷ s) h =
    let rest : has_forbidden_ref_rune s ≡ false = ground arith in
    (ground arith, has_forbidden-All s rest)

component-IsSafeComponent :
    (lower : ℕ → ℕ) (component : Text)
    → is_bad_component lower component ≡ false
    → IsSafeComponent lower component
unfolding is_bad_component
component-IsSafeComponent lower component h = record {
  not_empty = λ e. ground (arith, text_eq_iff component []);
  no_dot_first = λ rest. has_prefix-absent component (codes ".") rest (ground arith);
  no_dot_last = λ before. has_suffix-absent component (codes ".") before (ground arith);
  no_lock =
      λ before. has_suffix-absent (to_lower lower component) (codes ".lock") before (ground arith);
}

-- A name that passes AssertValidGitRef is neither empty nor "@", starts neither with a dash nor
-- with "refs/", contains none of "..", "@{" and "[", and has no space or control rune below 0x21,
-- no DEL and none of "~^:?*\"; and each of its parts between slashes is not empty, neither starts
-- nor ends with a dot, and does not end in ".lock".
pub assert_valid_git_ref-IsSafeRef :
    (lower : ℕ → ℕ) (name : Text) → assert_valid_git_ref lower name ≡ ok tt → IsSafeRef lower name
unfolding assert_valid_git_ref is_bad_name
assert_valid_git_ref-IsSafeRef lower name h =
    let parts : any (is_bad_component lower) (split name b'/') ≡ false = ground arith in
    record {
      nonempty = λ e. ground (arith, text_eq_iff name []);
      not_head = λ e. ground (arith, text_eq_iff name (codes "@"));
      no_option = λ rest. has_prefix-absent name (codes "-") rest (ground arith);
      no_full_ref = λ rest. has_prefix-absent name (codes "refs/") rest (ground arith);
      no_range = λ before after. has_text-absent name (codes "..") before after (ground arith);
      no_reflog = λ before after. has_text-absent name (codes "@{") before after (ground arith);
      no_bracket = λ before after. has_text-absent name (codes "[") before after (ground arith);
      no_special = has_forbidden-All name (ground arith);
      safe_components =
          All_mono (component-IsSafeComponent lower) (split name b'/')
            (any-false (is_bad_component lower) (split name b'/') parts);
    }

-- The revisions that RefShaWithEnv may ask Git for: HEAD, its parent, a full object name, or a safe
-- tag or branch name behind its prefix.
abbrev pub IsRevision : (ℕ → ℕ) → Text → Type 0
IsRevision lower ref =
    (ref ≡ codes "HEAD")
    ⊎ (ref ≡ codes "HEAD^")
    ⊎ (is_full_sha ref ≡ true)
    ⊎ ((tag : Text) × (ref ≡ codes "refs/tags/" ++ tag) × IsSafeRef lower tag)
    ⊎ ((branch : Text) × (ref ≡ codes "refs/heads/" ++ branch) × IsSafeRef lower branch)

commit_ref-IsRevision :
    (lower : ℕ → ℕ) (ref : Text) {r : Text} → commit_ref lower ref ≡ ok r → IsRevision lower ref
unfolding commit_ref
commit_ref-IsRevision lower ref h = elim (Bool-cases (text_eq ref (codes "HEAD"))) [
  | inl e ↦ inl ((text_eq_iff ref _).0 e)
  | inr n1 ↦ elim (Bool-cases (text_eq ref (codes "HEAD^"))) [
    | inl e ↦ inr (inl ((text_eq_iff ref _).0 e))
    | inr n2 ↦ elim (Bool-cases (is_full_sha ref)) [
      | inl e ↦ inr (inr (inl e))
      | inr n3 ↦ elim (Bool-cases (has_prefix ref (codes "refs/tags/"))) [
        | inl e ↦ inr (
            inr (
              inr (
                inl (
                  drop 10 ref,
                  has_prefix-split ref (codes "refs/tags/") e,
                  assert_valid_git_ref-IsSafeRef lower (drop 10 ref) (ground arith),
                ))))
        | inr n4 ↦ elim (Bool-cases (has_prefix ref (codes "refs/heads/"))) [
          | inl e ↦ inr (
              inr (
                inr (
                  inr (
                    drop 11 ref,
                    has_prefix-split ref (codes "refs/heads/") e,
                    assert_valid_git_ref-IsSafeRef lower (drop 11 ref) (ground arith),
                  ))))
          | inr n5 ↦ absurd (ground arith)
        ]
      ]
    ]
  ]
]

-- RefShaWithEnv returns without an error only for HEAD, HEAD^, a full object name, and a tag or a
-- branch name behind its prefix that AssertValidGitRef lets through with the safety above.
pub ref_sha-IsRevision :
    (lower : ℕ → ℕ) (run : Runner) (ref : Text) {sha : Text}
    → ref_sha lower run ref ≡ ok sha
    → IsRevision lower ref
ref_sha-IsRevision lower run ref {sha} h =
    let (r, e, _) =
      bind-eq-ok (commit_ref lower ref) (ref_sha_from run) {b = sha} (unfold ref_sha in h) in
    commit_ref-IsRevision lower ref e
