-- ===== src/Plan/Blocking.antt =====
-- What createIndependentPlan of internal/plan/plan.go returns: either the commits that no package
-- takes, or the releases.
use hooversion.Common.{
  ◌≡◌, inl, inr, refl, ap, ◌∙◌, Bool, not, ◌&&◌, ◌||◌, List, [], ◌∷◌, ◌++◌, arith, any, filter,
  if◌then◌else◌, Member,
}
use hooversion.Plan.Assigned.{some_commit, hashes-filter}
use hooversion.Plan.Independent.{
  Direct, Gathered, hashes, add_direct, direct_from, names_of, releases_something, unmatched,
  candidates_of, direct_of,
}
use hooversion.Routing.Affected.{DistinctNames, touches, direct_affected-filter}
use hooversion.Routing.{affected_for, direct_affected}
use hooversion.Text.Maps.{TextMap, lookup, insert}
use hooversion.Text.{Text, contains}
use hooversion.Types.{ReleaseType, ParsedCommit, NormalizedPackageConfig, NormalizedConfig}

in_any-add_direct :
    (h name : Text) (eligible : List Text) (commits : List ParsedCommit) (direct : Direct)
    → contains (add_direct name eligible commits direct).in_any h
      ≡ (contains direct.in_any h || contains (hashes commits) h)
unfolding add_direct contains
in_any-add_direct h name eligible [] direct = ground arith
in_any-add_direct h name eligible (parsed ∷ commits) direct =
    let next : Direct = record {
      packages_of =
          if contains eligible parsed.hash
          then insert parsed.hash (names_of (lookup parsed.hash direct.packages_of) ++ name ∷ [])
              direct.packages_of
          else direct.packages_of;
      in_any = parsed.hash ∷ direct.in_any;
    } in
    ground (arith, in_any-add_direct h name eligible commits next)

in_any-direct_from :
    (h : Text) (eligible : TextMap (List Text)) (affected : TextMap (List ParsedCommit))
    (packages : List NormalizedPackageConfig) (direct : Direct)
    → contains (direct_from eligible affected packages direct).in_any h ≡ (
        contains direct.in_any h
        || any (λ pkg. contains (hashes (affected_for pkg.name affected)) h) packages)
unfolding direct_from
in_any-direct_from h eligible affected [] direct = ground arith
in_any-direct_from h eligible affected (pkg ∷ packages) direct =
    let own = names_of (lookup pkg.name eligible) in
    let commits = affected_for pkg.name affected in
    ground (
      arith,
      in_any-direct_from h eligible affected packages (add_direct pkg.name own commits direct),
      in_any-add_direct h pkg.name own commits direct,
    )

any-ext_Member :
    {A : Type 0} (f g : A → Bool) (xs : List A)
    → ((x : A) → Member x xs → f x ≡ g x)
    → any f xs ≡ any g xs
any-ext_Member f g [] h = refl
any-ext_Member f g (x ∷ xs) h =
    ground (arith, h x (inl refl), any-ext_Member f g xs (λ y m. h y (inr m)))

filter-ext :
    {A : Type 0} (f g : A → Bool) (xs : List A) → ((x : A) → f x ≡ g x) → filter f xs ≡ filter g xs
filter-ext f g [] h = refl
filter-ext f g (x ∷ xs) h = ground (arith, h x, filter-ext f g xs h)

-- a candidate with this object name touches some package
abbrev pub touches_some : NormalizedConfig → Gathered → Text → Bool
touches_some config found h =
    any (λ p. some_commit (touches config.packages p) h (candidates_of found)) config.packages

in_any-direct_of :
    (config : NormalizedConfig) (found : Gathered) (h : Text)
    → DistinctNames config.packages
    → contains (direct_of config found).in_any h ≡ touches_some config found h
in_any-direct_of config found h d =
    in_any-direct_from h found.eligible (direct_affected config (candidates_of found))
      config.packages (record { packages_of = []; in_any = [] })
    ∙ unfold contains in
      any-ext_Member _ _ config.packages (λ p m.
        ap (λ commits. contains (hashes commits) h)
          (direct_affected-filter config (candidates_of found) p d m)
        ∙ hashes-filter (touches config.packages p) h (candidates_of found))

-- The commits that release something and touch no package.
abbrev pub homeless : TextMap ReleaseType → NormalizedConfig → Gathered → List ParsedCommit
homeless rules config found =
    filter (λ c. releases_something rules c && not (touches_some config found c.hash))
      (candidates_of found)

pub unmatched-homeless :
    (rules : TextMap ReleaseType) (config : NormalizedConfig) (found : Gathered)
    → DistinctNames config.packages
    → unmatched rules (direct_of config found) (candidates_of found) ≡ homeless rules config found
unmatched-homeless rules config found d =
    unfold unmatched in
    filter-ext _ _ (candidates_of found)
      (λ c. ground (arith, in_any-direct_of config found c.hash d))
