-- ===== src/Plan/Attribution.antt =====
-- The loops of createIndependentPlan of internal/plan/plan.go that assign commits to packages: what
-- each adds to its map.
use hooversion.Common.{
  ◌≡◌, ◌↔◌, ◌⊎◌, inl, inr, refl, sym, ap, subst, Bool, true, not, ◌&&◌, ◌||◌, List, [], ◌∷◌, ◌++◌,
  append-nil, append_assoc, arith, any, if◌then◌else◌, Bool-cases, Member,
}
use hooversion.Plan.Independent.{
  Direct, Planned, names_of, hashes, add_direct, direct_from, releases_something, add_release,
  plan_commits,
}
use hooversion.Plan.{release_type_of, type_or_unset}
use hooversion.Routing.{affected_for, commits_of}
use hooversion.Semver.{highest}
use hooversion.Text.Laws.{text_eq_iff, contains-append}
use hooversion.Text.Maps.{TextMap, lookup, insert, lookup-insert}
use hooversion.Text.{Text, text_eq, contains}
use hooversion.Types.{ReleaseType, is_unset, ParsedCommit, NormalizedPackageConfig}

-- whether a name is recorded for an object name
abbrev pub recorded : Direct → Text → Text → Bool
recorded direct hash name = contains (names_of (lookup hash direct.packages_of)) name

recorded-add_direct :
    (n h name : Text) (eligible : List Text) (commits : List ParsedCommit) (direct : Direct)
    → recorded (add_direct name eligible commits direct) h n ≡ (
        recorded direct h n
        || (text_eq name n && contains eligible h && contains (hashes commits) h))
unfolding add_direct contains
recorded-add_direct n h name eligible [] direct = ground arith
recorded-add_direct n h name eligible (parsed ∷ commits) direct =
    let next : Direct = record {
      packages_of =
          if contains eligible parsed.hash
          then insert parsed.hash (names_of (lookup parsed.hash direct.packages_of) ++ name ∷ [])
              direct.packages_of
          else direct.packages_of;
      in_any = parsed.hash ∷ direct.in_any;
    } in
    ground (
      arith,
      recorded-add_direct n h name eligible commits next,
      lookup-insert parsed.hash h (names_of (lookup parsed.hash direct.packages_of) ++ name ∷ [])
          direct.packages_of,
      text_eq_iff parsed.hash h,
      contains-append (names_of (lookup parsed.hash direct.packages_of)) (name ∷ []) n,
    )

abbrev pub has_name : Text → List NormalizedPackageConfig → Bool
has_name n = any (λ pkg. text_eq pkg.name n)

pub recorded-direct_from :
    (n h : Text) (eligible : TextMap (List Text)) (affected : TextMap (List ParsedCommit))
    (packages : List NormalizedPackageConfig) (direct : Direct)
    → recorded (direct_from eligible affected packages direct) h n ≡ (
        recorded direct h n
        || (has_name n packages
            && contains (names_of (lookup n eligible)) h
            && contains (hashes (affected_for n affected)) h))
unfolding direct_from
recorded-direct_from n h eligible affected [] direct = ground arith
recorded-direct_from n h eligible affected (pkg ∷ packages) direct =
    let own = names_of (lookup pkg.name eligible) in
    let commits = affected_for pkg.name affected in
    ground (
      arith,
      recorded-direct_from n h eligible affected packages (add_direct pkg.name own commits direct),
      recorded-add_direct n h pkg.name own commits direct,
      text_eq_iff pkg.name n,
    )

Member-append :
    {A : Type 0} (x : A) (xs ys : List A) → Member x (xs ++ ys) ↔ (Member x xs ⊎ Member x ys)
Member-append x [] ys = (inr, λ h. elim h [ inl m ↦ absurd m | inr m ↦ m ])
Member-append x (y ∷ xs) ys =
    let (f, g) = Member-append x xs ys in
    (
      λ h. elim h [
        | inl e ↦ inl (inl e)
        | inr m ↦ elim (f m) [ inl k ↦ inl (inr k) | inr k ↦ inr k ]
      ],
      λ h. elim h [
        | inl k ↦ elim k [ inl e ↦ inl e | inr m ↦ inr (g (inl m)) ]
        | inr k ↦ inr (g (inr k))
      ],
    )

module _ (n : Text) where
  -- the commits and the release type recorded for a package
  abbrev pub listed : Planned → List ParsedCommit
  listed planned = commits_of (lookup n planned.commits)

  abbrev pub planned_type : Planned → ReleaseType
  planned_type planned = type_or_unset (lookup n planned.types)

  -- a commit, as often as the name is in the list
  abbrev pub copies : ParsedCommit → List Text → List ParsedCommit
  copies c [] = []
  copies c (name ∷ names) = if text_eq name n then c ∷ copies c names else copies c names

  listed-add_release :
      (t : ReleaseType) (c : ParsedCommit) (names : List Text) (planned : Planned)
      → listed (add_release t c names planned) ≡ listed planned ++ copies c names
  unfolding add_release
  listed-add_release t c [] planned = sym (append-nil _)
  listed-add_release t c (name ∷ names) planned =
      let next : Planned = record {
        types =
            insert name (highest (type_or_unset (lookup name planned.types) ∷ t ∷ []))
              planned.types;
        commits = insert name (commits_of (lookup name planned.commits) ++ c ∷ []) planned.commits;
      } in
      ground (
        arith,
        listed-add_release t c names next,
        text_eq_iff name n,
        lookup-insert name n (commits_of (lookup name planned.commits) ++ c ∷ []) planned.commits,
        append_assoc (listed planned) (c ∷ []) (copies c names),
      )

  Member-copies :
      (x c : ParsedCommit) (names : List Text)
      → Member x (copies c names) ↔ ((x ≡ c) × (contains names n ≡ true))
  unfolding contains
  Member-copies x c [] = (λ m. absurd m, λ h. ground (arith, h.1))
  Member-copies x c (name ∷ names) =
      let (f, g) = Member-copies x c names in
      elim (Bool-cases (text_eq name n)) [
        | inl e ↦ rw e (λ m. elim m [ inl k ↦ (k, refl) | inr k ↦ ((f k).0, refl) ], λ h. inl h.0)
        | inr e ↦ rw e (f, g)
      ]

  module _ (rules : TextMap ReleaseType) (packages_of : TextMap (List Text)) where
    abbrev pub names_for : ParsedCommit → List Text
    names_for c = names_of (lookup c.hash packages_of)

    abbrev pub all_copies : List ParsedCommit → List ParsedCommit
    all_copies [] = []
    all_copies (c ∷ candidates) =
        (if is_unset (release_type_of rules c) then [] else copies c (names_for c))
        ++ all_copies candidates

    pub listed-plan_commits :
        (candidates : List ParsedCommit) (planned : Planned)
        → listed (plan_commits rules packages_of candidates planned)
          ≡ listed planned ++ all_copies candidates
    unfolding plan_commits
    listed-plan_commits [] planned = sym (append-nil _)
    listed-plan_commits (c ∷ candidates) planned =
        let t = release_type_of rules c in
        let next = if is_unset t then planned else add_release t c (names_for c) planned in
        ground (
          arith,
          listed-plan_commits candidates next,
          listed-add_release t c (names_for c) planned,
          append_assoc (listed planned) (copies c (names_for c)) (all_copies candidates),
        )

    pub Member-all_copies :
        (x : ParsedCommit) (candidates : List ParsedCommit)
        → Member x (all_copies candidates) ↔ (
            Member x candidates
            × (releases_something rules x ≡ true)
            × (contains (names_for x) n ≡ true))
    Member-all_copies x [] = (λ m. absurd m, λ h. absurd h.0)
    Member-all_copies x (c ∷ candidates) =
        let (f, g) = Member-all_copies x candidates in
        elim (Bool-cases (is_unset (release_type_of rules c))) [
          | inl e ↦ rw e (
            λ m. let (a, b, d) = f m in (inr a, b, d),
            λ (a, b, d). elim a [
              | inl k ↦ absurd (ground (arith, b, ap (λ y. is_unset (release_type_of rules y)) k))
              | inr k ↦ g (k, b, d)
            ],
          )
          | inr e ↦
              let (front, back) =
                Member-append x (copies c (names_for c)) (all_copies candidates) in
              let (f', g') = Member-copies x c (names_for c) in
              rw e (
                λ m. elim (front m) [
                  | inl k ↦
                      let (same, found) = f' k in
                      (
                        inl same,
                        subst (λ y. releases_something rules y ≡ true) (sym same) (ap not e),
                        subst (λ y. contains (names_for y) n ≡ true) (sym same) found,
                      )
                  | inr k ↦ let (a, b, d) = f k in (inr a, b, d)
                ],
                λ (a, b, d). elim a [
                  | inl k ↦ back (inl (g' (k, subst (λ y. contains (names_for y) n ≡ true) k d)))
                  | inr k ↦ back (inr (g (k, b, d)))
                ],
              )
        ]
