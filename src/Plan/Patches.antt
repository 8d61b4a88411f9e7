-- ===== src/Plan/Patches.antt =====
-- The bumps of dependents in createIndependentPlan of internal/plan/plan.go: what the loop
-- `for changed` leaves in releaseTypes and dependencyTriggered.
use hooversion.Common.{
  ℕ, zero, suc, ◌≡◌, true, false, not, ◌&&◌, List, [], ◌∷◌, none, some, arith, if◌then◌else◌,
  Bool-cases, inl, inr,
}
use hooversion.Plan.Dependents.{started}
use hooversion.Plan.Independent.{Progress, is_planned, trigger, trigger_all, propagate}
use hooversion.Text.Laws.{text_eq_iff}
use hooversion.Text.Maps.{TextMap, lookup, lookup-insert}
use hooversion.Text.{Text, contains}
use hooversion.Types.{ReleaseType, patch, NormalizedPackageConfig}

module _ (types : TextMap ReleaseType) where
  -- The old types are kept, and the triggered packages have patch bumps.
  abbrev IsFilled : Progress → Type 0
  IsFilled p =
      (n : Text)
      → (lookup n p.types ≡ (
          if is_planned types n
          then lookup n types
          else if contains p.triggered n
          then some patch
          else none))
        × (contains p.triggered n ≡ true → is_planned types n ≡ false)

  trigger-IsFilled :
      (pkg : NormalizedPackageConfig) (p : Progress) → IsFilled p → IsFilled (trigger pkg p)
  unfolding trigger contains
  trigger-IsFilled pkg p f n =
      ground
        (arith, f n, f pkg.name, lookup-insert pkg.name n patch p.types, text_eq_iff pkg.name n)

  trigger_all-IsFilled :
      (packages : List NormalizedPackageConfig) (p : Progress)
      → IsFilled p
      → IsFilled (trigger_all packages p)
  unfolding trigger_all
  trigger_all-IsFilled [] p f = f
  trigger_all-IsFilled (pkg ∷ packages) p f =
      trigger_all-IsFilled packages (trigger pkg p) (trigger-IsFilled pkg p f)

  propagate-IsFilled :
      (fuel : ℕ) (packages : List NormalizedPackageConfig) (p : Progress)
      → IsFilled p
      → IsFilled (propagate fuel packages p)
  unfolding propagate
  propagate-IsFilled zero packages p f = f
  propagate-IsFilled (suc fuel) packages p f =
      let next = trigger_all packages (record p { changed = false }) in
      let filled = trigger_all-IsFilled packages (record p { changed = false }) f in
      elim (Bool-cases next.changed) [
        | inl e ↦ rw (propagate, e) (propagate-IsFilled fuel packages next filled)
        | inr e ↦ rw (propagate, e) filled
      ]

-- A package keeps the release type that it had before the loop. One that had none is marked as
-- triggered if and only if it has one after the loop, and that one is a patch.
pub propagate-patch :
    (fuel : ℕ) (packages : List NormalizedPackageConfig) (types : TextMap ReleaseType) (n : Text)
    → (lookup n (propagate fuel packages (started types)).types ≡ (
        if is_planned types n
        then lookup n types
        else if contains (propagate fuel packages (started types)).triggered n
        then some patch
        else none))
      × (contains (propagate fuel packages (started types)).triggered n ≡ (
          is_planned (propagate fuel packages (started types)).types n && not (is_planned types n)))
propagate-patch fuel packages types n =
    let p = propagate fuel packages (started types) in
    let f =
      propagate-IsFilled types fuel packages (started types) (unfold contains in λ m. ground arith)
        n in
    (f.0, ground (arith, f))
