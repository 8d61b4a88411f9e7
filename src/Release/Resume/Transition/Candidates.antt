-- ===== src/Release/Resume/Transition/Candidates.antt =====
-- internal/release/resume.go: the transition that inferReleaseTransition reads off the tags.
use hooversion.Common.{
  err, ◌∙◌, ap, if◌then◌else◌, ◌≡◌, ◌≢◌, ◌⊎◌, inl, inr, refl, ap, ◌∙◌, true, not, List, [], ◌∷◌,
  Option, some, arith, Member, ok, ◌>>=?◌, bind-eq-some, bind-eq-ok, Bool-cases, if◌then◌else◌,
  some-eq, ok-injective, subst, ◌≤◌, ◌-◌, append-nil, ℕ, Option-cases, leb, ltb, sym,
}
use hooversion.Git.{ref_sha}
use hooversion.Release.Resume.Transition.Parent.{
  IsShownByParent, to_option-eq, parent_transition-IsShownByParent,
}
use hooversion.Release.Resume.Transition.{
  Sources, Candidate, candidates, dotted, tag_ref, tagged_candidate, to_option, parent_transition,
  infer_release_transition, or_else,
}
use hooversion.Semver.Bump.{fits, bumped, checked_bump-successor, successor}
use hooversion.Semver.RoundTrip.{IsValid, parse-string, parse-IsValid}
use hooversion.Semver.{
  invalid_version, SemVer, parse, string, has_leading_zero, checked_bump, max_int, format_int,
}
use hooversion.Text.Laws.{text_eq_iff, text_eq_ne}
use hooversion.Text.{Text, text_eq, split}
use hooversion.Types.{ReleaseType, major, NormalizedPackageConfig, NormalizedConfig}

-- <major>.0.0
abbrev plain : ℕ → SemVer
plain m = record { core_major = m; core_minor = 0; core_patch = 0; pre = []; build = [] }

string-plain : (m : ℕ) → string (plain m) ≡ dotted m 0 0
unfolding string
string-plain m = rw (append-nil (format_int 0)) refl

plain-IsValid : (m : ℕ) → m ≤ max_int → IsValid (plain m)
unfolding split has_leading_zero
plain-IsValid m h = record {
  major_fits = h;
  minor_fits = omega arith;
  patch_fits = omega arith;
  pre_suffix = inl refl;
  pre_numbers = refl;
  build_suffix = inl refl;
}

not_bump :
    (m : ℕ) {target : SemVer}
    → m ≤ max_int
    → (target.core_minor ≢ 0) ⊎ (target.core_patch ≢ 0)
    → checked_bump (plain m) major ≢ ok target
not_bump m {target} small ne h =
    let valid : fits (plain m) ≡ true = ground arith in
    let e =
      checked_bump-successor (plain m) major
      ∙ ap (λ b. if b then bumped (plain m) major else err invalid_version) valid in
    elim (Bool-cases (ltb m max_int)) [
      | inl x ↦
          let same : successor (plain m) major ≡ target = ok-injective (sym (rw x at e) ∙ h) in
          ground
            (arith, ap (λ (v : SemVer). v.core_minor) same, ap (λ (v : SemVer). v.core_patch) same)
      | inr x ↦ ground arith
    ]

module _ (s : Sources) (config : NormalizedConfig) (pkg : NormalizedPackageConfig) where
  -- A candidate with a tag in the repository shows the transition.
  abbrev Shows : Candidate → Text × ReleaseType → Type 0
  Shows candidate (version, t) =
      (candidate.possible ≡ true)
      × (candidate.current_version ≡ version)
      × (candidate.release_type ≡ t)
      × ((ref : Text) × (ref_sha s.lower s.run (tag_ref s config pkg candidate.current_version)
            ≡ ok ref)
          × (ref ≢ []))

  abbrev pub IsShownByTag : List Candidate → Text × ReleaseType → Type 0
  IsShownByTag cs found = (candidate : Candidate) × (Member candidate cs × Shows candidate found)

  tagged_candidate-IsShownByTag :
      (cs : List Candidate) {found : Text × ReleaseType}
      → tagged_candidate s config pkg cs ≡ ok (some found)
      → IsShownByTag cs found
  unfolding tagged_candidate
  tagged_candidate-IsShownByTag [] h = cc
  tagged_candidate-IsShownByTag (c ∷ cs) {found} h =
      let later = λ (k : tagged_candidate s config pkg cs ≡ ok (some found)).
        let (c', (m, p)) = tagged_candidate-IsShownByTag cs k in
        let shown : IsShownByTag (c ∷ cs) found = (c', (inr m, p)) in shown in
      let asked = ref_sha s.lower s.run (tag_ref s config pkg c.current_version) in
      let here : Text × ReleaseType = (c.current_version, c.release_type) in
      elim (Bool-cases (not c.possible)) [
        | inl n ↦ later (rw (tagged_candidate, n) at h)
        | inr n ↦
            let (ref, e, k) =
              bind-eq-ok asked
                (λ ref. if text_eq ref [] then tagged_candidate s config pkg cs else ok (some here))
                {b = some found} (rw (tagged_candidate, n) at h) in
            elim (Bool-cases (text_eq ref [])) [
              | inl x ↦ later (rw x at k)
              | inr x ↦
                  let same : here ≡ found = some-eq (ok-injective (rw x at k)) in
                  let ne : ref ≢ [] = ground (arith, text_eq_iff ref []) in
                  let shown : Shows c here = (ground arith, refl, refl, (ref, e, ne)) in
                  (c, (inl refl, subst (Shows c) same shown))
            ]
      ]

  -- The transition that inferReleaseTransition returns for a version is shown by the repository:
  -- it is one of the three candidates for that version and the tag of its version exists, or the
  -- manifest of the parent commit has the name of the package and a version from which the release
  -- type leads to that version and no other release type does.
  pub infer_release_transition-cases :
      (next_version : Text) {found : Text × ReleaseType}
      → infer_release_transition s config pkg next_version ≡ some found
      → (target : SemVer) × (parse next_version ≡ ok target)
        × (IsShownByTag (candidates target) found ⊎ IsShownByParent s pkg target found)
  unfolding infer_release_transition
  infer_release_transition-cases next_version {found} h =
      let or_parent = λ (target : SemVer) (o : Option (Text × ReleaseType)).
        or_else o (parent_transition s pkg target) in
      let probe =
        λ (target : SemVer). to_option (tagged_candidate s config pkg (candidates target)) in
      let (target, e, k) =
        bind-eq-some (to_option (parse next_version)) (λ target. probe target >>=? or_parent target)
          {b = found} h in
      let (shown, e1, k1) = bind-eq-some (probe target) (or_parent target) {b = found} k in
      let probed = to_option-eq (tagged_candidate s config pkg (candidates target)) e1 in
      (
        target,
        to_option-eq (parse next_version) e,
        elim (Option-cases shown) [
          | inl n ↦ inr (parent_transition-IsShownByParent s pkg target (rw n at k1))
          | inr (t, n) ↦
              let same : t ≡ found = some-eq (rw n at k1) in
              let k2 : tagged_candidate s config pkg (candidates target) ≡ ok (some found) =
                probed ∙ ap ok (n ∙ ap some same) in
              inl (tagged_candidate-IsShownByTag (candidates target) k2)
        ],
      )

  -- For every next version with a major number of at least one, and a minor or a patch number that
  -- is not zero, a tag of the version <major - 1>.0.0 makes inferReleaseTransition return that
  -- version and a major release, although a major bump of it is another version.
  pub infer_release_transition-not_bump :
      (next_version ref : Text) (target : SemVer)
      → parse next_version ≡ ok target
      → 1 ≤ target.core_major
      → (target.core_minor ≢ 0) ⊎ (target.core_patch ≢ 0)
      → ref_sha s.lower s.run (tag_ref s config pkg (dotted (target.core_major - 1) 0 0)) ≡ ok ref
      → ref ≢ []
      → (infer_release_transition s config pkg next_version
          ≡ some (dotted (target.core_major - 1) 0 0, major))
        × ((parent : SemVer) × (parse (dotted (target.core_major - 1) 0 0) ≡ ok parent)
            × (checked_bump parent major ≢ ok target))
  unfolding infer_release_transition tagged_candidate candidates
  infer_release_transition-not_bump next_version ref target e le ne asked there =
      let valid = parse-IsValid next_version e in
      let m = target.core_major - 1 in
      let parent = plain m in
      let positive : leb 1 target.core_major ≡ true = ground arith in
      let fits : m ≤ max_int = omega (arith, valid.major_fits) in
      (
        rw
            (
              infer_release_transition,
              e,
              candidates,
              tagged_candidate,
              positive,
              asked,
              text_eq_ne ref [] there,
            )
            refl,
        (
          parent,
          rw (← string-plain m) (parse-string parent (plain-IsValid m fits)),
          λ h. not_bump m fits ne h,
        ),
      )
