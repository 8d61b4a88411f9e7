-- ===== src/Plan/Propagation.antt =====
-- The passes of the loop `for changed` in createIndependentPlan of internal/plan/plan.go: what one
-- pass changes, and that a pass with no change leaves nothing to do.
use hooversion.Common.{
  ℕ, ◌≤◌, ◌<◌, ◌≡◌, ◌⊎◌, inl, inr, refl, ap, ◌∙◌, subst, true, false, not, ◌||◌, List, [], ◌∷◌,
  arith, All, any, filter, length, Bool-cases, Member,
}
use hooversion.Plan.Independent.{Progress, is_planned, trigger, trigger_all}
use hooversion.Text.Laws.{text_eq_refl}
use hooversion.Text.Maps.{TextMap, insert, lookup-insert}
use hooversion.Text.{Text, text_eq}
use hooversion.Types.{ReleaseType, patch, NormalizedPackageConfig}

pub is_planned-insert :
    (k n : Text) (t : ReleaseType) (m : TextMap ReleaseType)
    → is_planned (insert k t m) n ≡ (text_eq k n || is_planned m n)
is_planned-insert k n t m = ground (arith, lookup-insert k n t m)

pub is_planned-trigger :
    (pkg : NormalizedPackageConfig) (p : Progress) (n : Text)
    → is_planned p.types n ≡ true
    → is_planned (trigger pkg p).types n ≡ true
unfolding trigger
is_planned-trigger pkg p n h = ground (arith, is_planned-insert pkg.name n patch p.types)

pub is_planned-trigger_all :
    (packages : List NormalizedPackageConfig) (p : Progress) (n : Text)
    → is_planned p.types n ≡ true
    → is_planned (trigger_all packages p).types n ≡ true
unfolding trigger_all
is_planned-trigger_all [] p n h = h
is_planned-trigger_all (pkg ∷ packages) p n h =
    is_planned-trigger_all packages (trigger pkg p) n (is_planned-trigger pkg p n h)

-- What a pass changes it marks.
changed-trigger_all :
    (packages : List NormalizedPackageConfig) (p : Progress)
    → p.changed ≡ true
    → (trigger_all packages p).changed ≡ true
unfolding trigger_all trigger
changed-trigger_all [] p h = h
changed-trigger_all (pkg ∷ packages) p h =
    changed-trigger_all packages (trigger pkg p) (ground arith)

-- No package waits: each is planned or depends on none that is.
abbrev pub IsClosed : List NormalizedPackageConfig → TextMap ReleaseType → Type 0
IsClosed packages types =
    All
      (λ pkg.
        (is_planned types pkg.name ≡ true) ⊎ (any (is_planned types) pkg.dependencies ≡ false))
      packages

-- A pass that marks no change makes none, and no package waits.
pub trigger-quiet :
    (pkg : NormalizedPackageConfig) (p : Progress)
    → (trigger pkg p).changed ≡ false
    → (trigger pkg p ≡ p)
      × ((is_planned p.types pkg.name ≡ true) ⊎ (any (is_planned p.types) pkg.dependencies ≡ false))
unfolding trigger
trigger-quiet pkg p h = elim (Bool-cases (is_planned p.types pkg.name)) [
  | inl e ↦ (rw e refl, inl e)
  | inr e ↦ elim (Bool-cases (any (is_planned p.types) pkg.dependencies)) [
    | inl d ↦ absurd (ground arith)
    | inr d ↦ (rw (e, d) refl, inr d)
  ]
]

pub trigger_all-quiet :
    (packages : List NormalizedPackageConfig) (p : Progress)
    → (trigger_all packages p).changed ≡ false
    → (trigger_all packages p ≡ p) × IsClosed packages p.types
unfolding trigger_all
trigger_all-quiet [] p h = (refl, tt)
trigger_all-quiet (pkg ∷ packages) p h =
    let quiet : (trigger pkg p).changed ≡ false =
      ground (arith, changed-trigger_all packages (trigger pkg p)) in
    let (e, w) = trigger-quiet pkg p quiet in
    let (e', c) = trigger_all-quiet packages (trigger pkg p) h in
    (e' ∙ e, (w, subst (λ x. IsClosed packages x.types) e c))

-- the packages without a release type
abbrev pub waiting : TextMap ReleaseType → List NormalizedPackageConfig → ℕ
waiting types packages = length (filter (λ pkg. not (is_planned types pkg.name)) packages)

waiting_mono :
    (a b : TextMap ReleaseType) (packages : List NormalizedPackageConfig)
    → ((n : Text) → is_planned a n ≡ true → is_planned b n ≡ true)
    → waiting b packages ≤ waiting a packages
waiting_mono a b [] h = omega arith
waiting_mono a b (pkg ∷ packages) h = ground (arith, waiting_mono a b packages h, h pkg.name)

pub waiting_lt :
    (a b : TextMap ReleaseType) (pkg : NormalizedPackageConfig)
    (packages : List NormalizedPackageConfig)
    → ((n : Text) → is_planned a n ≡ true → is_planned b n ≡ true)
    → Member pkg packages
    → is_planned a pkg.name ≡ false
    → is_planned b pkg.name ≡ true
    → waiting b packages < waiting a packages
waiting_lt a b pkg [] h m ea eb = absurd m
waiting_lt a b pkg (q ∷ packages) h (inl e) ea eb =
    ground (arith, waiting_mono a b packages h, ap (λ (x : NormalizedPackageConfig). x.name) e)
waiting_lt a b pkg (q ∷ packages) h (inr m) ea eb =
    ground (arith, waiting_lt a b pkg packages h m ea eb, h q.name)

trigger-loud :
    (pkg : NormalizedPackageConfig) (p : Progress)
    → p.changed ≡ false
    → (trigger pkg p).changed ≡ true
    → (is_planned p.types pkg.name ≡ false) × (is_planned (trigger pkg p).types pkg.name ≡ true)
unfolding trigger
trigger-loud pkg p q h = elim (Bool-cases (is_planned p.types pkg.name)) [
  | inl e ↦ absurd (ground arith)
  | inr e ↦ elim (Bool-cases (any (is_planned p.types) pkg.dependencies)) [
    | inr d ↦ absurd (ground arith)
    | inl d ↦
        let now : is_planned (insert pkg.name patch p.types) pkg.name ≡ true =
          ground
            (arith, is_planned-insert pkg.name pkg.name patch p.types, text_eq_refl pkg.name) in
        (e, rw (e, d) now)
  ]
]

-- A pass that marks a change gives some package its release type.
pub trigger_all-progress :
    (packages : List NormalizedPackageConfig) (p : Progress)
    → p.changed ≡ false
    → (trigger_all packages p).changed ≡ true
    → (pkg : NormalizedPackageConfig) × Member pkg packages
      × (is_planned p.types pkg.name ≡ false)
      × (is_planned (trigger_all packages p).types pkg.name ≡ true)
unfolding trigger_all
trigger_all-progress [] p q h = absurd (ground arith)
trigger_all-progress (pkg ∷ packages) p q h = elim (Bool-cases (trigger pkg p).changed) [
  | inl e ↦
      let (fresh, now) = trigger-loud pkg p q e in
      (pkg, inl refl, fresh, is_planned-trigger_all packages (trigger pkg p) pkg.name now)
  | inr e ↦
      let (same, w) = trigger-quiet pkg p e in
      let (found, m, fresh, now) = trigger_all-progress packages (trigger pkg p) e h in
      (found, inr m, subst (λ x. is_planned x.types found.name ≡ false) same fresh, now)
]
