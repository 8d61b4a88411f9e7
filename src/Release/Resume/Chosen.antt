-- ===== src/Release/Resume/Chosen.antt =====
-- internal/release/resume.go: the packages that a reconstruction selects, the manifests that it read
-- and the tags that it compared.
use hooversion.Common.{
  ◌≡◌, ◌⊎◌, inl, inr, refl, ap, ◌∙◌, Bool, true, false, not, ◌&&◌, ◌||◌, List, [], ◌∷◌, ◌++◌,
  Option, none, some, arith, All, Result, ok, err, ◌>>=?◌, bind-eq-ok, bind-eq-some, Bool-cases,
  ok-injective, some-eq, subst, if◌then◌else◌, leb, length, drop, take, suc, ◌==◌, ℕ,
}
use hooversion.Git
use hooversion.Git.{has_text, ref_sha, head_sha, commit_message}
use hooversion.Plan.{tag_for}
use hooversion.Release.Resume.Selection.{
  Selected, Known, select, select_one, select_single, select_part, select_parts, split_comma,
}
use hooversion.Release.Resume.Transition.{Sources, infer_release_transition}
use hooversion.Release.Resume.{
  known_packages, check_tags, releases_of, given, when, notes_in, resumed_release,
}
use hooversion.Release
use hooversion.Release.{Error, from_git, or_error}
use hooversion.Text.Laws.{text_eq_iff}
use hooversion.Text.Maps.{lookup, insert}
use hooversion.Text.{Text, codes, text_eq, cut_rune, last_index}
use hooversion.Types.{ReleaseType, NormalizedPackageConfig, NormalizedConfig, PackageRelease}

pub given-eq :
    {A B : Type 0} (o : Option A) (f : A → Result Error (Option B)) {b : B}
    → given o f ≡ ok (some b)
    → (a : A) × (o ≡ some a) × (f a ≡ ok (some b))
given-eq none f h = cc
given-eq (some a) f h = (a, refl, h)

pub when-eq :
    {B : Type 0} (c : Bool) (r : Result Error (Option B)) {b : B}
    → when c r ≡ ok (some b)
    → (c ≡ true) × (r ≡ ok (some b))
when-eq true r h = (refl, h)
when-eq false r h = cc

pub from_git-eq :
    {A : Type 0} (r : Result hooversion.Git.Error A) {a : A} → from_git r ≡ ok a → r ≡ ok a
from_git-eq (ok a) h = ap ok (ok-injective h)
from_git-eq (err e) h = cc

or_error-eq : {A : Type 0} (e : Error) (o : Option A) {a : A} → or_error e o ≡ ok a → o ≡ some a
or_error-eq e none h = cc
or_error-eq e (some a) h = ap some (ok-injective h)

-- A tag that is absent, or stands at the commit.
abbrev pub IsFreeOrAt : Sources → Text → Text → Type 0
IsFreeOrAt s head tag =
    (ref : Text) × (ref_sha s.lower s.run (codes "refs/tags/" ++ tag) ≡ ok ref)
    × ((ref ≡ []) ⊎ (ref ≡ head))

pub check_tags-All :
    (s : Sources) (head : Text) (entries : List Selected)
    → check_tags s head entries ≡ ok tt
    → All (λ entry. IsFreeOrAt s head entry.tag) entries
unfolding check_tags
check_tags-All s head [] h = tt
check_tags-All s head (entry ∷ entries) h =
    let asked = ref_sha s.lower s.run (codes "refs/tags/" ++ entry.tag) in
    let (ref, e, k) =
      bind-eq-ok (from_git asked)
        (λ ref.
          if not (text_eq ref []) && not (text_eq ref head)
          then err (hooversion.Release.tag_drift entry.tag head ref)
          else check_tags s head entries)
        {b = tt} h in
    let found = from_git-eq asked e in
    let later : check_tags s head entries ≡ ok tt = ground arith in
    let rest = check_tags-All s head entries later in
    elim (Bool-cases (text_eq ref [])) [
      | inl a ↦ ((ref, found, inl ((text_eq_iff ref []).0 a)), rest)
      | inr a ↦ ((ref, found, inr ((text_eq_iff ref head).0 (ground arith))), rest)
    ]

-- What the manifests say of the packages that were read.
abbrev AreRead : Sources → Known → Type 0
AreRead s = All (λ (name, (pkg, version)). s.manifest_version pkg ≡ some version)

insert-AreRead :
    (s : Sources) (name : Text) (pkg : NormalizedPackageConfig) (version : Text) (known : Known)
    → s.manifest_version pkg ≡ some version
    → AreRead s known
    → AreRead s (insert name (pkg, version) known)
unfolding insert
insert-AreRead s name pkg version [] e h = (e, tt)
insert-AreRead s name pkg version ((key, value) ∷ known) e h =
    elim (Bool-cases (text_eq key name)) [
      | inl x ↦ rw (insert, x) (e, h.1)
      | inr x ↦ rw (insert, x) (h.0, insert-AreRead s name pkg version known e h.1)
    ]

pub known_packages-AreRead :
    (s : Sources) (pkgs : List NormalizedPackageConfig) (known : Known) {all : Known}
    → known_packages s pkgs known ≡ ok all
    → AreRead s known
    → AreRead s all
unfolding known_packages
known_packages-AreRead s [] known h k = subst (AreRead s) (ok-injective h) k
known_packages-AreRead s (pkg ∷ pkgs) known {all} h k =
    let (version, e, later) =
      bind-eq-ok (or_error hooversion.Release.manifest_error (s.manifest_version pkg))
        (λ version. known_packages s pkgs (insert pkg.name (pkg, version) known)) {b = all} h in
    known_packages-AreRead s pkgs (insert pkg.name (pkg, version) known) later
      (insert-AreRead s pkg.name pkg version known (or_error-eq _ (s.manifest_version pkg) e) k)

lookup-AreRead :
    (s : Sources) (name : Text) (known : Known) {pkg : NormalizedPackageConfig} {version : Text}
    → AreRead s known
    → lookup name known ≡ some (pkg, version)
    → s.manifest_version pkg ≡ some version
unfolding lookup
lookup-AreRead s name [] h e = cc
lookup-AreRead s name ((key, (p, v)) ∷ known) {pkg} {version} h e =
    elim (Bool-cases (text_eq key name)) [
      | inl x ↦
          let both : ◌≡◌ {A = NormalizedPackageConfig × Text} (p, v) (pkg, version) =
            some-eq (rw (lookup, x) at e) in
          subst (λ (b : NormalizedPackageConfig × Text). s.manifest_version b.0 ≡ some b.1) both h.0
      | inr x ↦ lookup-AreRead s name known h.1 (rw (lookup, x) at e)
    ]

unless-eq :
    {A : Type 0} (c : Bool) (o : Option A) {a : A} → (if c then none else o) ≡ some a → o ≡ some a
unless-eq true o h = cc
unless-eq false o h = h

if-eq :
    {A : Type 0} (c : Bool) (o : Option A) {a : A} → (if c then o else none) ≡ some a → o ≡ some a
if-eq true o h = h
if-eq false o h = cc

-- A package at the version of its manifest, under the tag of that version.
abbrev pub IsCurrent : Sources → NormalizedConfig → NormalizedPackageConfig → Text → Text → Type 0
IsCurrent s config pkg version tag =
    (s.manifest_version pkg ≡ some version) × (tag ≡ tag_for config pkg version)

abbrev pub IsChosen : Sources → NormalizedConfig → Selected → Type 0
IsChosen s config entry = IsCurrent s config entry.pkg entry.next_version entry.tag

module _ (s : Sources) (config : NormalizedConfig) (known : Known) (read : AreRead s known) where
  select_one-IsChosen :
      (name version : Text) {entry : Selected}
      → select_one config known name version ≡ some entry
      → IsChosen s config entry
  unfolding select_one
  select_one-IsChosen name version {entry} h =
      let ((pkg, current), e, k) =
        bind-eq-some (lookup name known)
          (λ (found : NormalizedPackageConfig × Text).
            if text_eq found.1 version
            then some (record {
              pkg = found.0;
              next_version = version;
              tag = tag_for config found.0 version;
            })
            else none)
          {b = entry} h in
      let same : text_eq current version ≡ true = ground arith in
      let chosen : Selected = record {
        pkg = pkg;
        next_version = version;
        tag = tag_for config pkg version;
      } in
      let e' : chosen ≡ entry = some-eq (rw same at k) in
      let at_version =
        lookup-AreRead s name known read e ∙ ap some ((text_eq_iff current version).0 same) in
      subst (IsChosen s config) e' (at_version, refl)

  select_part-IsChosen :
      (part : Text) {entry : Selected}
      → select_part config known part ≡ some entry
      → IsChosen s config entry
  unfolding select_part
  select_part-IsChosen part {entry} h =
      let choice = λ (i : ℕ). select_one config known (take i part) (drop (suc i) part) in
      let (i, e, k) =
        bind-eq-some (last_index part b'@')
          (λ i. if i == 0 || suc i == length part then none else choice i) {b = entry} h in
      let chosen = unless-eq (i == 0 || suc i == length part) (choice i) {a = entry} k in
      select_one-IsChosen (take i part) (drop (suc i) part) chosen

  select_single-All :
      (subject : Text) {entries : List Selected}
      → select_single config known subject ≡ some entries
      → All (IsChosen s config) entries
  unfolding select_single
  select_single-All subject {entries} h =
      let choice = λ (p : Text × Text).
        select_one config known p.0 p.1 >>=? λ (entry : Selected). some (entry ∷ []) in
      let ((name, version), e, k) =
        bind-eq-some (cut_rune subject b' ')
          (λ p. if text_eq p.0 [] || text_eq p.1 [] then none else choice p) {b = entries} h in
      let chosen =
        unless-eq (text_eq name [] || text_eq version []) (choice (name, version)) {a = entries}
          k in
      let (entry, e', k') =
        bind-eq-some (select_one config known name version) (λ entry. some (entry ∷ []))
          {b = entries} chosen in
      subst (All (IsChosen s config)) (some-eq k') (select_one-IsChosen name version e', tt)

  select_parts-All :
      (parts : List Text) {entries : List Selected}
      → select_parts config known parts ≡ some entries
      → All (IsChosen s config) entries
  unfolding select_parts
  select_parts-All [] h = subst (All (IsChosen s config)) (some-eq h) tt
  select_parts-All (part ∷ parts) {entries} h =
      let (entry, e, k) =
        bind-eq-some (select_part config known part)
          (λ entry. select_parts config known parts >>=? λ rest. some (entry ∷ rest)) {b = entries}
          h in
      let (rest, e', k') =
        bind-eq-some (select_parts config known parts) (λ rest. some (entry ∷ rest)) {b = entries}
          k in
      subst (All (IsChosen s config)) (some-eq k')
        (select_part-IsChosen part e, select_parts-All parts e')

  pub select-All :
      (subject : Text) {entries : List Selected}
      → select config known subject ≡ some entries
      → All (IsChosen s config) entries
  unfolding select
  select-All subject {entries} h = elim (Bool-cases (not (has_text subject (codes ", ")))) [
    | inl c ↦ select_single-All subject (rw (select, c) at h)
    | inr c ↦
        let (chosen, e, k) =
          bind-eq-some (select_parts config known (split_comma subject))
            (λ chosen. if leb 2 (length chosen) then some chosen else none) {b = entries}
            (rw (select, c) at h) in
        let same : chosen ≡ entries = some-eq (if-eq (leb 2 (length chosen)) (some chosen) k) in
        subst (All (IsChosen s config)) same (select_parts-All (split_comma subject) e)
  ]

pub releases_of-All :
    (P : NormalizedPackageConfig → Text → Text → Type 0) (s : Sources) (config : NormalizedConfig)
    (several : Bool) (body : Text) (entries : List Selected) {releases : List PackageRelease}
    → All (λ entry. P entry.pkg entry.next_version entry.tag) entries
    → releases_of s config several body entries ≡ some releases
    → All (λ release. P release.pkg release.next_version release.tag) releases
unfolding releases_of
releases_of-All P s config several body [] {releases} h e =
    subst (All (λ (r : PackageRelease). P r.pkg r.next_version r.tag)) (some-eq e) tt
releases_of-All P s config several body (entry ∷ entries) {releases} h e =
    let Q = All (λ (r : PackageRelease). P r.pkg r.next_version r.tag) in
    let make = λ (t : Text × ReleaseType). resumed_release entry (notes_in several body entry) t in
    let (transition, _, k) =
      bind-eq-some (infer_release_transition s config entry.pkg entry.next_version)
        (λ t. releases_of s config several body entries >>=? λ rest. some (make t ∷ rest))
        {b = releases} e in
    let (rest, e', k') =
      bind-eq-some (releases_of s config several body entries)
        (λ rest. some (make transition ∷ rest)) {b = releases} k in
    subst Q (some-eq k') (h.0, releases_of-All P s config several body entries h.1 e')
