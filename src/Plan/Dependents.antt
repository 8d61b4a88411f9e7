-- ===== src/Plan/Dependents.antt =====
-- The bumps of dependents in createIndependentPlan of internal/plan/plan.go: the result of the loop
-- `for changed` is the least set of packages that is closed under depending on a planned one.
use hooversion.Common.{
  ℕ, zero, suc, ◌<◌, ◌≡◌, ◌↔◌, ◌⊎◌, inl, inr, refl, sym, subst, true, false, not, List, [], ◌∷◌,
  arith, any, length, Bool-cases, Member, any-Member, any-elim, length-filter,
}
use hooversion.Plan.Independent.{Progress, is_planned, trigger, trigger_all, propagate}
use hooversion.Plan.Propagation.{
  is_planned-insert, is_planned-trigger_all, IsClosed, trigger_all-quiet, waiting, waiting_lt,
  trigger_all-progress,
}
use hooversion.Text.Laws.{text_eq_iff}
use hooversion.Text.Maps.{TextMap}
use hooversion.Text.{Text, text_eq}
use hooversion.Types.{ReleaseType, patch, NormalizedPackageConfig}

-- A package is to be released if it has a release type, or depends on one that is to be released.
pub data ToRelease (packages : List NormalizedPackageConfig) (types : TextMap ReleaseType)
    : Text → Type 0 where
  direct : {name : Text} → is_planned types name ≡ true → ToRelease packages types name
  dependent :
      (pkg : NormalizedPackageConfig) (dependency : Text)
      → Member pkg packages
      → Member dependency pkg.dependencies
      → ToRelease packages types dependency
      → ToRelease packages types pkg.name

abbrev cleared : Progress → Progress
cleared p = record p { changed = false }

-- With more fuel than packages that wait, the loop ends because a pass changed nothing.
propagate-IsClosed :
    (fuel : ℕ) (packages : List NormalizedPackageConfig) (p : Progress)
    → waiting p.types packages < fuel
    → IsClosed packages (propagate fuel packages p).types
unfolding propagate
propagate-IsClosed zero packages p h = absurd (omega arith)
propagate-IsClosed (suc fuel) packages p h =
    let next = trigger_all packages (cleared p) in
    elim (Bool-cases next.changed) [
      | inl e ↦
          let (pkg, m, fresh, now) = trigger_all-progress packages (cleared p) refl e in
          let less =
            waiting_lt p.types next.types pkg packages (is_planned-trigger_all packages (cleared p))
              m fresh now in
          rw (propagate, e) (propagate-IsClosed fuel packages next (omega (arith, less)))
      | inr e ↦
          let (same, c) = trigger_all-quiet packages (cleared p) e in
          rw (propagate, e) (subst (λ x. IsClosed packages x.types) (sym same) c)
    ]

is_planned-propagate :
    (fuel : ℕ) (packages : List NormalizedPackageConfig) (p : Progress) (n : Text)
    → is_planned p.types n ≡ true
    → is_planned (propagate fuel packages p).types n ≡ true
unfolding propagate
is_planned-propagate zero packages p n h = h
is_planned-propagate (suc fuel) packages p n h =
    let next = trigger_all packages (cleared p) in
    let kept = is_planned-trigger_all packages (cleared p) n h in
    elim (Bool-cases next.changed) [
      | inl e ↦ rw (propagate, e) (is_planned-propagate fuel packages next n kept)
      | inr e ↦ rw (propagate, e) kept
    ]

-- Only packages that are to be released have a release type.
module _ (all : List NormalizedPackageConfig) (types : TextMap ReleaseType) where
  abbrev IsSound : Progress → Type 0
  IsSound p = (n : Text) → is_planned p.types n ≡ true → ToRelease all types n

  trigger-IsSound :
      (pkg : NormalizedPackageConfig) (p : Progress)
      → Member pkg all
      → IsSound p
      → IsSound (trigger pkg p)
  unfolding trigger
  trigger-IsSound pkg p m s = elim (Bool-cases (is_planned p.types pkg.name)) [
    | inl e ↦ rw e s
    | inr e ↦ elim (Bool-cases (any (is_planned p.types) pkg.dependencies)) [
      | inr d ↦ rw (e, d) s
      | inl d ↦
          let (dependency, k, planned) = any-elim (is_planned p.types) pkg.dependencies d in
          rw (e, d)
            (λ n h. elim (Bool-cases (text_eq pkg.name n)) [
              | inl same ↦
                  subst (ToRelease all types) ((text_eq_iff pkg.name n).0 same)
                    (dependent pkg dependency m k (s dependency planned))
              | inr differs ↦ s n (ground (arith, is_planned-insert pkg.name n patch p.types))
            ])
    ]
  ]

  trigger_all-IsSound :
      (packages : List NormalizedPackageConfig) (p : Progress)
      → ((pkg : NormalizedPackageConfig) → Member pkg packages → Member pkg all)
      → IsSound p
      → IsSound (trigger_all packages p)
  unfolding trigger_all
  trigger_all-IsSound [] p m s = s
  trigger_all-IsSound (pkg ∷ packages) p m s =
      trigger_all-IsSound packages (trigger pkg p) (λ q k. m q (inr k))
        (trigger-IsSound pkg p (m pkg (inl refl)) s)

  propagate-IsSound : (fuel : ℕ) (p : Progress) → IsSound p → IsSound (propagate fuel all p)
  unfolding propagate
  propagate-IsSound zero p s = s
  propagate-IsSound (suc fuel) p s =
      let next = trigger_all all (cleared p) in
      let sound = trigger_all-IsSound all (cleared p) (λ q k. k) s in
      elim (Bool-cases next.changed) [
        | inl e ↦ rw (propagate, e) (propagate-IsSound fuel next sound)
        | inr e ↦ rw (propagate, e) sound
      ]

IsClosed-Member :
    (pkg : NormalizedPackageConfig) (packages : List NormalizedPackageConfig)
    (types : TextMap ReleaseType)
    → IsClosed packages types
    → Member pkg packages
    → (is_planned types pkg.name ≡ true) ⊎ (any (is_planned types) pkg.dependencies ≡ false)
IsClosed-Member pkg [] types c m = absurd m
IsClosed-Member pkg (q ∷ packages) types c (inl e) =
    subst
      (λ (x : NormalizedPackageConfig).
        (is_planned types x.name ≡ true) ⊎ (any (is_planned types) x.dependencies ≡ false))
      (sym e) c.0
IsClosed-Member pkg (q ∷ packages) types c (inr m) = IsClosed-Member pkg packages types c.1 m

-- A closed map that extends the release types has all that is to be released.
ToRelease-is_planned :
    (packages : List NormalizedPackageConfig) (types final : TextMap ReleaseType) {n : Text}
    → IsClosed packages final
    → ((n : Text) → is_planned types n ≡ true → is_planned final n ≡ true)
    → ToRelease packages types n
    → is_planned final n ≡ true
ToRelease-is_planned packages types final c more (direct e) = more _ e
ToRelease-is_planned packages types final c more (dependent pkg dependency m k r) =
    let planned = ToRelease-is_planned packages types final c more r in
    elim (IsClosed-Member pkg packages final c m) [
      | inl e ↦ e
      | inr e ↦
          absurd
            (ground (arith, any-Member (is_planned final) dependency pkg.dependencies k planned))
    ]

-- The loop, as the plan starts it.
abbrev pub started : TextMap ReleaseType → Progress
started types = record { types = types; triggered = []; changed = true }

-- With one more step of fuel than there are packages, the packages that the loop leaves with a
-- release type are those to be released: those with a release type before it, and those that depend
-- on one to be released.
pub propagate-ToRelease :
    (packages : List NormalizedPackageConfig) (types : TextMap ReleaseType) (n : Text)
    → (is_planned (propagate (suc (length packages)) packages (started types)).types n ≡ true)
      ↔ ToRelease packages types n
propagate-ToRelease packages types n =
    let enough = length-filter (λ pkg. not (is_planned types pkg.name)) packages in
    let closed =
      propagate-IsClosed (suc (length packages)) packages (started types) (omega (arith, enough)) in
    (
      propagate-IsSound packages types (suc (length packages)) (started types) (λ m e. direct e) n,
      ToRelease-is_planned packages types _ closed
          (is_planned-propagate (suc (length packages)) packages (started types)),
    )
