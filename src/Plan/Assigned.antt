-- ===== src/Plan/Assigned.antt =====
-- The commits and the release types that createIndependentPlan of internal/plan/plan.go has for the
-- packages before it propagates bumps.
use Prim.Native.Nat.{max}
use hooversion.Common.{
  ◌≡◌, ◌↔◌, inl, inr, refl, sym, ap, ◌∙◌, subst, Bool, true, false, ◌&&◌, List, [], ◌∷◌, ◌++◌,
  arith, any, filter, Bool-cases, Member, and-elim,
}
use hooversion.Plan.Attribution.{
  recorded, recorded-direct_from, has_name, listed, planned_type, all_copies, listed-plan_commits,
  Member-all_copies,
}
use hooversion.Plan.Independent.{
  Planned, Gathered, names_of, hashes, releases_something, add_release, plan_commits, candidates_of,
  direct_of, planned_of,
}
use hooversion.Plan.{release_type_of, release_types_over, type_or_unset}
use hooversion.Routing.Affected.{DistinctNames, touches, direct_affected-filter}
use hooversion.Routing.{commits_of, direct_affected}
use hooversion.Semver.Highest.{rank, highest_rank, IsOutcome, highest-rank, rank_injective}
use hooversion.Semver.{highest}
use hooversion.Text.Laws.{text_eq_iff, text_eq_refl}
use hooversion.Text.Maps.{TextMap, lookup, insert, lookup-insert}
use hooversion.Text.{Text, text_eq, contains}
use hooversion.Types.{
  ReleaseType, is_unset, ParsedCommit, NormalizedPackageConfig, NormalizedConfig,
}

-- a commit of the list that passes the test and has the object name
abbrev pub some_commit : (ParsedCommit → Bool) → Text → List ParsedCommit → Bool
some_commit test hash = any (λ d. test d && text_eq d.hash hash)

pub hashes-filter :
    (test : ParsedCommit → Bool) (h : Text) (commits : List ParsedCommit)
    → contains (hashes (filter test commits)) h ≡ some_commit test h commits
unfolding contains
hashes-filter test h [] = refl
hashes-filter test h (c ∷ commits) = ground (arith, hashes-filter test h commits)

has_name-Member :
    (p : NormalizedPackageConfig) (packages : List NormalizedPackageConfig)
    → Member p packages
    → has_name p.name packages ≡ true
has_name-Member p [] m = absurd m
has_name-Member p (q ∷ packages) (inl e) =
    ground
      (arith, text_eq_refl p.name, ap (λ (x : NormalizedPackageConfig). text_eq x.name p.name) e)
has_name-Member p (q ∷ packages) (inr m) = ground (arith, has_name-Member p packages m)

nothing_recorded : (h n : Text) → recorded (record { packages_of = []; in_any = [] }) h n ≡ false
unfolding lookup contains
nothing_recorded h n = refl

nothing_listed : (n : Text) → listed n (record { types = []; commits = [] }) ≡ []
unfolding lookup
nothing_listed n = refl

-- Let the names of the packages differ. The commits that are recorded for a package are the
-- candidates that have a release type, are eligible for the package, and share their object name
-- with a candidate that touches the package.
pub planned_of-commits :
    (rules : TextMap ReleaseType) (config : NormalizedConfig) (found : Gathered)
    (p : NormalizedPackageConfig) (c : ParsedCommit)
    → DistinctNames config.packages
    → Member p config.packages
    → Member c (listed p.name (planned_of rules config found)) ↔ (
        Member c (candidates_of found)
        × (releases_something rules c ≡ true)
        × (contains (names_of (lookup p.name found.eligible)) c.hash ≡ true)
        × (some_commit (touches config.packages p) c.hash (candidates_of found) ≡ true))
planned_of-commits rules config found p c d m =
    let pk = (direct_of config found).packages_of in
    let candidates = candidates_of found in
    let e = listed-plan_commits p.name rules pk candidates (record { types = []; commits = [] }) in
    let (f, g) = Member-all_copies p.name rules pk c candidates in
    let names =
      recorded-direct_from p.name c.hash found.eligible (direct_affected config candidates)
        config.packages (record { packages_of = []; in_any = [] }) in
    let touched =
      ap (λ commits. contains (hashes commits) c.hash)
        (direct_affected-filter config candidates p d m)
      ∙ hashes-filter (touches config.packages p) c.hash candidates in
    let same : contains (names_of (lookup c.hash pk)) p.name ≡ (
        contains (names_of (lookup p.name found.eligible)) c.hash
        && some_commit (touches config.packages p) c.hash candidates) =
      ground (
        arith,
        names,
        touched,
        has_name-Member p config.packages m,
        nothing_recorded c.hash p.name,
      ) in
    let list : listed p.name (planned_of rules config found)
        ≡ all_copies p.name rules pk candidates =
      e ∙ ap (λ l. l ++ all_copies p.name rules pk candidates) (nothing_listed p.name) in
    (
      λ k.
          let (a, b, r) = f (subst (Member c) list k) in
          let (x, y) = and-elim _ _ (sym same ∙ r) in (a, b, x, y),
      λ (a, b, x, y). subst (Member c) (sym list) (g (a, b, same ∙ ground (arith, x, y))),
    )

module _ (rules : TextMap ReleaseType) (n : Text) where
  abbrev over : List ParsedCommit → ReleaseType
  over commits = highest (release_types_over rules commits)

  highest_rank-append :
      (xs ys : List ParsedCommit)
      → highest_rank (release_types_over rules (xs ++ ys))
        ≡ max
            (highest_rank (release_types_over rules xs))
            (highest_rank (release_types_over rules ys))
  highest_rank-append [] ys = omega arith
  highest_rank-append (c ∷ xs) ys = omega (arith, highest_rank-append xs ys)

  abbrev IsRanked : Planned → Type 0
  IsRanked planned =
      (rank (planned_type n planned) ≡ highest_rank (release_types_over rules (listed n planned)))
      × IsOutcome (planned_type n planned)

  add_release-IsRanked :
      (c : ParsedCommit) (names : List Text) (planned : Planned)
      → IsRanked planned
      → IsRanked (add_release (release_type_of rules c) c names planned)
  unfolding add_release
  add_release-IsRanked c [] planned r = r
  add_release-IsRanked c (name ∷ names) planned r =
      let t = release_type_of rules c in
      let types =
        insert name (highest (type_or_unset (lookup name planned.types) ∷ t ∷ [])) planned.types in
      let commits =
        insert name (commits_of (lookup name planned.commits) ++ c ∷ []) planned.commits in
      add_release-IsRanked c names (record { types = types; commits = commits })
        (ground (
          arith,
          r,
          text_eq_iff name n,
          highest-rank (planned_type n planned ∷ t ∷ []),
          lookup-insert name n (highest (type_or_unset (lookup name planned.types) ∷ t ∷ []))
              planned.types,
          lookup-insert name n (commits_of (lookup name planned.commits) ++ c ∷ []) planned.commits,
          highest_rank-append (listed n planned) (c ∷ []),
        ))

  plan_commits-IsRanked :
      (packages_of : TextMap (List Text)) (candidates : List ParsedCommit) (planned : Planned)
      → IsRanked planned
      → IsRanked (plan_commits rules packages_of candidates planned)
  unfolding plan_commits
  plan_commits-IsRanked packages_of [] planned r = r
  plan_commits-IsRanked packages_of (c ∷ candidates) planned r =
      let names = names_of (lookup c.hash packages_of) in
      elim (Bool-cases (is_unset (release_type_of rules c))) [
        | inl e ↦ rw (plan_commits, e) (plan_commits-IsRanked packages_of candidates planned r)
        | inr e ↦
            rw (plan_commits, e)
              (plan_commits-IsRanked packages_of candidates
                (add_release (release_type_of rules c) c names planned)
                (add_release-IsRanked c names planned r))
      ]

-- The release type of a package, "" where it has none, is what Highest gives for the types of the
-- commits that are recorded for it.
pub planned_of-highest :
    (rules : TextMap ReleaseType) (config : NormalizedConfig) (found : Gathered) (n : Text)
    → planned_type n (planned_of rules config found)
      ≡ highest (release_types_over rules (listed n (planned_of rules config found)))
planned_of-highest rules config found n =
    let pk = (direct_of config found).packages_of in
    let r =
      plan_commits-IsRanked rules n pk (candidates_of found) (record { types = []; commits = [] })
        (unfold lookup in (refl, inr refl)) in
    let (e, o) =
      highest-rank (release_types_over rules (listed n (planned_of rules config found))) in
    rank_injective _ _ r.1 o (r.0 ∙ sym e)
