-- ===== src/Release/Resume/Transition/Parent.antt =====
-- internal/release/resume.go: the transition that inferReleaseTransition reads off the manifest of
-- the parent commit.
use hooversion.Common.{
  ◌≡◌, ◌⊎◌, inl, inr, refl, ap, ◌∙◌, true, false, not, List, [], ◌∷◌, none, some, arith, All,
  Result, ok, err, ◌>>=?◌, bind-eq-some, Bool-cases, if◌then◌else◌, some-eq, subst,
}
use hooversion.Release.Resume.Transition.{
  Sources, bumps_to, match_types, to_option, parent_transition,
}
use hooversion.Semver.{SemVer, parse}
use hooversion.Text.Laws.{text_eq_iff}
use hooversion.Text.{Text, text_eq}
use hooversion.Types.{ReleaseType, major, minor, patch, NormalizedPackageConfig}

abbrev types : List ReleaseType
types = major ∷ minor ∷ patch ∷ []

-- The one release type that leads from a version to another.
abbrev pub IsOnlyBump : SemVer → SemVer → ReleaseType → Type 0
IsOnlyBump parent target t =
    (bumps_to parent t target ≡ true)
    × All (λ u. (u ≡ t) ⊎ (bumps_to parent u target ≡ false)) types

match_types-IsOnlyBump :
    (parent target : SemVer) {t : ReleaseType}
    → match_types parent target types none ≡ some t
    → IsOnlyBump parent target t
unfolding match_types
match_types-IsOnlyBump parent target {t} h = elim (Bool-cases (bumps_to parent major target)) [
  | inl a ↦ elim (Bool-cases (bumps_to parent minor target)) [
    | inl b ↦ absurd (ground arith)
    | inr b ↦ elim (Bool-cases (bumps_to parent patch target)) [
      | inl c ↦ absurd (ground arith)
      | inr c ↦
          let e : major ≡ t = ground arith in
          subst (IsOnlyBump parent target) e (a, (inl refl, (inr b, (inr c, tt))))
    ]
  ]
  | inr a ↦ elim (Bool-cases (bumps_to parent minor target)) [
    | inl b ↦ elim (Bool-cases (bumps_to parent patch target)) [
      | inl c ↦ absurd (ground arith)
      | inr c ↦
          let e : minor ≡ t = ground arith in
          subst (IsOnlyBump parent target) e (b, (inr a, (inl refl, (inr c, tt))))
    ]
    | inr b ↦ elim (Bool-cases (bumps_to parent patch target)) [
      | inl c ↦
          let e : patch ≡ t = ground arith in
          subst (IsOnlyBump parent target) e (c, (inr a, (inr b, (inl refl, tt))))
      | inr c ↦ absurd (ground arith)
    ]
  ]
]

-- The parent commit shows the transition: its manifest has the name of the package and a version
-- from which the release type, and no other, leads to the target.
abbrev pub IsShownByParent :
    Sources → NormalizedPackageConfig → SemVer → Text × ReleaseType → Type 0
IsShownByParent s pkg target (version, t) =
    (s.parent_manifest pkg ≡ some (pkg.name, version))
    × ((parent : SemVer) × (parse version ≡ ok parent) × IsOnlyBump parent target t)

pub to_option-eq : {E A : Type 0} (r : Result E A) {a : A} → to_option r ≡ some a → r ≡ ok a
to_option-eq (ok a) h = ap ok (some-eq h)
to_option-eq (err e) h = cc

pub parent_transition-IsShownByParent :
    (s : Sources) (pkg : NormalizedPackageConfig) (target : SemVer) {found : Text × ReleaseType}
    → parent_transition s pkg target ≡ some found
    → IsShownByParent s pkg target found
unfolding parent_transition
parent_transition-IsShownByParent s pkg target {found} h =
    let types_of = λ (version : Text) (parent : SemVer).
      match_types parent target types none >>=? λ (t : ReleaseType). some (version, t) in
    let versions = λ (version : Text). to_option (parse version) >>=? types_of version in
    let ((name, version), e, k) =
      bind-eq-some (s.parent_manifest pkg)
        (λ (p : Text × Text). if not (text_eq p.0 pkg.name) then none else versions p.1) {b = found}
        h in
    let same : text_eq name pkg.name ≡ true = ground arith in
    let (parent, e1, k1) =
      bind-eq-some (to_option (parse version)) (types_of version) {b = found} (rw same at k) in
    let (t, e2, k2) =
      bind-eq-some (match_types parent target types none) (λ t. some (version, t)) {b = found} k1 in
    let named = e ∙ ap (λ n. some (n, version)) ((text_eq_iff name pkg.name).0 same) in
    subst (IsShownByParent s pkg target) (some-eq k2)
      (named, (parent, to_option-eq (parse version) e1, match_types-IsOnlyBump parent target e2))
