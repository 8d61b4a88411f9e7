-- ===== src/Release/Resume/Selection/RoundTrip.antt =====
-- internal/release: the subject that CommitMessage writes, read back as DeriveResumableWithEnv reads
-- it.
use hooversion.Common.{
  ℕ, ◌<◌, suc, ◌≡◌, ◌≢◌, refl, ap, ◌∙◌, true, false, List, [], ◌∷◌, ◌++◌, none, some, arith, All,
  ◌==◌, length, drop, length-append, take-append, map, All-append, All_mono,
}
use hooversion.Git.Refs.{index-append-ne-none}
use hooversion.Git.{has_text}
use hooversion.Plan.{tag_for}
use hooversion.Release.Message.{named_version, summary_part, release_subject}
use hooversion.Release.Resume.Selection.{
  Selected, Known, select, select_one, select_single, select_part, select_parts, split_comma,
}
use hooversion.Text.Laws.{text_eq_refl, text_eq_ne, cut_rune-append}
use hooversion.Text.Maps.{lookup}
use hooversion.Text.{Text, codes, last_index, join, index, has_prefix, cons_first}
use hooversion.Types.{NormalizedConfig, PackageRelease}

abbrev NoComma : Text → Type 0
NoComma = All (λ c. c ≢ b',')

has_text_absent : (s : Text) → NoComma s → has_text s (codes ", ") ≡ false
unfolding index has_prefix
has_text_absent [] h = refl
has_text_absent (c ∷ s) h = ground (arith, has_text_absent s h.1)

has_text_present : (a sub b : Text) → has_text (a ++ (sub ++ b)) sub ≡ true
has_text_present a sub b = ground (arith, index-append-ne-none a sub b)

split_comma_absent : (s : Text) → NoComma s → split_comma s ≡ s ∷ []
unfolding split_comma
split_comma_absent [] h = refl
split_comma_absent (c ∷ []) h = refl
split_comma_absent (c ∷ d ∷ s) h = ground (arith, split_comma_absent (d ∷ s) h.1)

split_comma_step :
    (c d : ℕ) (s : Text) → c ≢ b',' → split_comma (c ∷ d ∷ s) ≡ cons_first c (split_comma (d ∷ s))
unfolding split_comma
split_comma_step c d s h = ground arith

split_comma-append :
    (s t : Text) → NoComma s → split_comma (s ++ (codes ", " ++ t)) ≡ s ∷ split_comma t
unfolding split_comma
split_comma-append [] t h = refl
split_comma-append (c ∷ []) t h = split_comma_step c b',' (b' ' ∷ t) h.0
split_comma-append (c ∷ d ∷ s) t h =
    split_comma_step c d (s ++ (codes ", " ++ t)) h.0
    ∙ ap (cons_first c) (split_comma-append (d ∷ s) t h.1)

split_comma-join :
    (part : Text) (parts : List Text)
    → All NoComma (part ∷ parts)
    → split_comma (join (part ∷ parts) (codes ", ")) ≡ part ∷ parts
unfolding join
split_comma-join part [] h = split_comma_absent part h.0
split_comma-join part (next ∷ parts) h =
    split_comma-append part (join (next ∷ parts) (codes ", ")) h.0
    ∙ ap (λ rest. part ∷ rest) (split_comma-join next parts h.1)

last_index_absent : (s : Text) (sep : ℕ) → All (λ c. c ≢ sep) s → last_index s sep ≡ none
unfolding last_index
last_index_absent [] sep h = refl
last_index_absent (c ∷ s) sep h = ground (arith, last_index_absent s sep h.1)

last_index-append :
    (s t : Text) (sep : ℕ) → All (λ c. c ≢ sep) t → last_index (s ++ sep ∷ t) sep ≡ some (length s)
unfolding last_index
last_index-append [] t sep h = ground (arith, last_index_absent t sep h)
last_index-append (c ∷ s) t sep h = ground (arith, last_index-append s t sep h)

length_pos : {A : Type 0} (xs : List A) → xs ≢ [] → 0 < length xs
length_pos [] h = absurd (h refl)
length_pos (x ∷ xs) h = omega arith

drop_past : (s : Text) (c : ℕ) (t : Text) → drop (suc (length s)) (s ++ c ∷ t) ≡ t
drop_past [] c t = refl
drop_past (d ∷ s) c t = drop_past s c t

-- A release that its subject names without ambiguity, of a package that was read at its version.
pub record IsNamed (known : Known) (release : PackageRelease) : Type 0 where
  pub known_at : lookup release.pkg.name known ≡ some (release.pkg, release.next_version)
  pub name_nonempty : release.pkg.name ≢ []
  pub name_runes : All (λ c. (c ≢ b',') × (c ≢ b' ')) release.pkg.name
  pub version_nonempty : release.next_version ≢ []
  pub version_runes : All (λ c. (c ≢ b',') × (c ≢ b'@')) release.next_version

abbrev pub chosen : NormalizedConfig → PackageRelease → Selected
chosen config release = record {
  pkg = release.pkg;
  next_version = release.next_version;
  tag = tag_for config release.pkg release.next_version;
}

module _ (config : NormalizedConfig) (known : Known) where
  select_one_named :
      (release : PackageRelease)
      → IsNamed known release
      → select_one config known release.pkg.name release.next_version ≡ some (chosen config release)
  unfolding select_one
  select_one_named release h = rw (h.known_at, text_eq_refl release.next_version) refl

  select_part_named :
      (release : PackageRelease)
      → IsNamed known release
      → select_part config known (summary_part release) ≡ some (chosen config release)
  unfolding select_part
  select_part_named release h =
      let name = release.pkg.name in
      let version = release.next_version in
      let found =
        last_index-append name version b'@' (All_mono (λ c k. k.1) version h.version_runes) in
      let first : (length name == 0) ≡ false = ground (arith, length_pos name h.name_nonempty) in
      let last : (suc (length name) == length (summary_part release)) ≡ false =
        ground
          (arith, length-append {0} name (b'@' ∷ version), length_pos version h.version_nonempty) in
      rw
        (
          select_part,
          found,
          first,
          last,
          take-append name (b'@' ∷ version),
          drop_past name b'@' version,
        )
        (select_one_named release h)

  select_parts_named :
      (releases : List PackageRelease)
      → All (IsNamed known) releases
      → select_parts config known (map summary_part releases) ≡ some (map (chosen config) releases)
  unfolding select_parts
  select_parts_named [] h = refl
  select_parts_named (release ∷ releases) h =
      rw (select_part_named release h.0, select_parts_named releases h.1) refl

  select_single_named :
      (release : PackageRelease)
      → IsNamed known release
      → select_single config known (named_version release) ≡ some (chosen config release ∷ [])
  unfolding select_single
  select_single_named release h =
      let name = release.pkg.name in
      let version = release.next_version in
      rw
        (
          cut_rune-append name version b' ' (All_mono (λ c k. k.1) name h.name_runes),
          text_eq_ne name [] h.name_nonempty,
          text_eq_ne version [] h.version_nonempty,
          select_one_named release h,
        )
        refl

NoComma-between :
    {release : PackageRelease} (known : Known) (mark : ℕ)
    → IsNamed known release
    → mark ≢ b','
    → NoComma (release.pkg.name ++ mark ∷ release.next_version)
NoComma-between {release} known mark h ne =
    All-append (λ c. c ≢ b',') release.pkg.name (mark ∷ release.next_version)
      (All_mono (λ c k. k.0) release.pkg.name h.name_runes)
      (ne, All_mono (λ c k. k.0) release.next_version h.version_runes)

summary_parts-All :
    (known : Known) (releases : List PackageRelease)
    → All (IsNamed known) releases
    → All NoComma (map summary_part releases)
summary_parts-All known [] h = tt
summary_parts-All known (release ∷ releases) h =
    (NoComma-between known b'@' h.0 (λ e. omega arith), summary_parts-All known releases h.1)

-- The subject that CommitMessage writes for one or more releases selects the packages of these
-- releases, at their versions and with the tags of these, in their order: for packages that are
-- read at the versions released, with names that are not empty and have neither comma nor space,
-- and versions that are not empty and have neither comma nor "@".
pub select-release_subject :
    (config : NormalizedConfig) (known : Known) (release : PackageRelease)
    (releases : List PackageRelease)
    → All (IsNamed known) (release ∷ releases)
    → select config known (release_subject (release ∷ releases))
      ≡ some (map (chosen config) (release ∷ releases))
unfolding select release_subject
select-release_subject config known release [] h =
    let absent =
      has_text_absent (named_version release) (NoComma-between known b' ' h.0 (λ e. omega arith)) in
    rw (select, release_subject, absent) (select_single_named config known release h.0)
select-release_subject config known release (next ∷ releases) h =
    let parts = map summary_part (next ∷ releases) in
    let subject = join (map summary_part (release ∷ next ∷ releases)) (codes ", ") in
    let present : has_text subject (codes ", ") ≡ true =
      unfold join in
      has_text_present (summary_part release) (codes ", ") (join parts (codes ", ")) in
    rw
      (
        select,
        release_subject,
        present,
        split_comma-join (summary_part release) parts
            (summary_parts-All known (release ∷ next ∷ releases) h),
        select_parts_named config known (release ∷ next ∷ releases) h,
      )
      (ground arith)
