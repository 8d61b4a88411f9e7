-- ===== src/Release/Checks/Accepted.antt =====
-- internal/release/release.go: exactly which plans ValidateWithEnv accepts.
use hooversion.Common.{
  ℕ, ◌≡◌, ◌≢◌, ◌⊎◌, ◌↔◌, inl, inr, refl, sym, ap, ◌∙◌, Bool, true, false, List, [], ◌∷◌, none,
  arith, All, Result, ok, err, ◌>>◌, Bool-cases, Option-cases, Result-cases, if◌then◌else◌,
}
use hooversion.Git.Remote.{tag_exists}
use hooversion.Git.{Runner}
use hooversion.Release.Checks.{
  release_paths, check_contained, check_owners, check_unmatched, check_new_tags, validate,
}
use hooversion.Release.{Error}
use hooversion.Text.Laws.{text_eq_iff}
use hooversion.Text.Maps.{TextMap, lookup, insert, lookup-insert}
use hooversion.Text.{Text, text_eq, contains}
use hooversion.Types.{ParsedCommit, NormalizedConfig, PackageRelease, ReleasePlan}

-- No two releases have one tag.
abbrev pub HasDistinctTags : List PackageRelease → Type 0
HasDistinctTags [] = Unit
HasDistinctTags (release ∷ releases) =
    All (λ later. later.tag ≢ release.tag) releases × HasDistinctTags releases

check_contained_iff :
    (is_contained : Text → Bool) (paths : List Text)
    → (check_contained is_contained paths ≡ ok tt) ↔ All (λ path. is_contained path ≡ true) paths
unfolding check_contained
check_contained_iff f [] = (λ h. tt, λ h. refl)
check_contained_iff f (path ∷ paths) = (
  λ h. elim (Bool-cases (f path)) [
    | inl e ↦ (e, (check_contained_iff f paths).0 (rw (check_contained, e) at h))
    | inr e ↦ absurd (ground arith)
  ],
  λ h. rw (check_contained, h.0) ((check_contained_iff f paths).1 h.1),
)

-- A tag without an owner among those that were met.
abbrev Unowned : TextMap Text → List PackageRelease → Type 0
Unowned owners = All (λ release. lookup release.tag owners ≡ none)

Unowned-insert :
    (owners : TextMap Text) (tag name : Text) (releases : List PackageRelease)
    → Unowned (insert tag name owners) releases
    → Unowned owners releases × All (λ later. later.tag ≢ tag) releases
Unowned-insert owners tag name [] h = (tt, tt)
Unowned-insert owners tag name (release ∷ releases) h =
    let (o, d) = Unowned-insert owners tag name releases h.1 in
    let e = sym (lookup-insert tag release.tag name owners) ∙ h.0 in
    elim (Bool-cases (text_eq tag release.tag)) [
      | inl same ↦ absurd (ground arith)
      | inr other_tag ↦
          ((rw other_tag at e, o), (λ k. ground (arith, text_eq_iff tag release.tag), d))
    ]

insert-Unowned :
    (owners : TextMap Text) (tag name : Text) (releases : List PackageRelease)
    → Unowned owners releases
    → All (λ later. later.tag ≢ tag) releases
    → Unowned (insert tag name owners) releases
insert-Unowned owners tag name [] h d = tt
insert-Unowned owners tag name (release ∷ releases) h d = (
  ground (arith, lookup-insert tag release.tag name owners, text_eq_iff tag release.tag, h.0, d.0),
  insert-Unowned owners tag name releases h.1 d.1,
)

check_owners_iff :
    (owners : TextMap Text) (releases : List PackageRelease)
    → (check_owners owners releases ≡ ok tt) ↔ (Unowned owners releases × HasDistinctTags releases)
unfolding check_owners
check_owners_iff owners [] = (λ h. (tt, tt), λ h. refl)
check_owners_iff owners (release ∷ releases) =
    let later = insert release.tag release.pkg.name owners in
    (
      λ h. elim (Option-cases (lookup release.tag owners)) [
        | inl e ↦
            let (u, d) = (check_owners_iff later releases).0 (rw (check_owners, e) at h) in
            let (o, ne) = Unowned-insert owners release.tag release.pkg.name releases u in
            ((e, o), (ne, d))
        | inr (previous, e) ↦ absurd (ground arith)
      ],
      λ (o, d).
          rw (check_owners, o.0)
            ((check_owners_iff later releases).1
              (insert-Unowned owners release.tag release.pkg.name releases o.1 d.0, d.1)),
    )

check_new_tags_iff :
    (lower : ℕ → ℕ) (run : Runner) (releases : List PackageRelease)
    → (check_new_tags lower run releases ≡ ok tt)
      ↔ All (λ release. tag_exists lower run release.tag ≡ ok false) releases
unfolding check_new_tags
check_new_tags_iff lower run [] = (λ h. tt, λ h. refl)
check_new_tags_iff lower run (release ∷ releases) = (
  λ h. elim (Result-cases (tag_exists lower run release.tag)) [
    | inl (there, e) ↦ elim (Bool-cases there) [
      | inl t ↦ absurd (ground arith)
      | inr t ↦
          (e ∙ ap ok t, (check_new_tags_iff lower run releases).0 (rw (check_new_tags, e, t) at h))
    ]
    | inr (x, e) ↦ absurd (ground arith)
  ],
  λ h. rw (check_new_tags, h.0) ((check_new_tags_iff lower run releases).1 h.1),
)

-- A plan that may be carried out.
pub record IsAccepted (lower : ℕ → ℕ) (run : Runner) (is_contained : Text → Bool)
    (config : NormalizedConfig) (plan : ReleasePlan) (resumable : Bool) : Type 0 where
  pub paths_contained : All (λ path. is_contained path ≡ true) (release_paths config)
  pub distinct_tags : HasDistinctTags plan.releases
  pub release_branch : contains config.branches plan.branch ≡ true
  pub all_matched : plan.unmatched_commits ≡ []
  pub new_tags :
      (resumable ≡ true)
      ⊎ All (λ release. tag_exists lower run release.tag ≡ ok false) plan.releases

no_owners : (releases : List PackageRelease) → Unowned [] releases
unfolding lookup
no_owners [] = tt
no_owners (release ∷ releases) = (refl, no_owners releases)

first_ok : (r q : Result Error (Unit {0})) → (r >> q) ≡ ok tt → (r ≡ ok tt) × (q ≡ ok tt)
first_ok (ok u) q h = (refl, h)
first_ok (err e) q h = cc

unmatched_none : (commits : List ParsedCommit) → check_unmatched commits ≡ ok tt → commits ≡ []
unmatched_none [] h = refl
unmatched_none (c ∷ cs) h = cc

-- ValidateWithEnv accepts a plan exactly when each path that the release writes is contained in the
-- checkout, no two of its releases have one tag, its branch is a release branch, no commit of it is
-- left without a package, and, unless the release is resumed, Git answers for each of its tags that
-- it does not exist.
pub validate_iff :
    (lower : ℕ → ℕ) (run : Runner) (is_contained : Text → Bool) (config : NormalizedConfig)
    (plan : ReleasePlan) (resumable : Bool)
    → (validate lower run is_contained config plan resumable ≡ ok tt)
      ↔ IsAccepted lower run is_contained config plan resumable
unfolding validate
validate_iff lower run f config plan resumable = (
  λ h.
      let (h1, r1) = first_ok (check_contained f (release_paths config)) _ h in
      let (h2, r2) = first_ok (check_owners [] plan.releases) _ r1 in
      let (h3, r3) =
        first_ok (if contains config.branches plan.branch then ok tt else err _) _ r2 in
      let (h4, r4) = first_ok (check_unmatched plan.unmatched_commits) _ r3 in
      record {
        paths_contained = (check_contained_iff f (release_paths config)).0 h1;
        distinct_tags = ((check_owners_iff [] plan.releases).0 h2).1;
        release_branch = ground arith;
        all_matched = unmatched_none plan.unmatched_commits h4;
        new_tags = elim (Bool-cases resumable) [
          | inl e ↦ inl e
          | inr e ↦ inr ((check_new_tags_iff lower run plan.releases).0 (rw e at r4))
        ];
      },
  λ a.
      rw
        (
          validate,
          (check_contained_iff f (release_paths config)).1 a.paths_contained,
          (check_owners_iff [] plan.releases).1 (no_owners plan.releases, a.distinct_tags),
          a.release_branch,
          a.all_matched,
        )
        (elim (Bool-cases resumable) [
          | inl e ↦ rw e refl
          | inr e ↦ elim a.new_tags [
            | inl t ↦ cc
            | inr t ↦ rw e ((check_new_tags_iff lower run plan.releases).1 t)
          ]
        ]),
)
