-- ===== src/Routing/Affected.antt =====
-- DirectAffected of internal/routing/routing.go gives each package, in order, the commits that
-- touch it.
use hooversion.Common.{
  ◌≡◌, inl, inr, refl, sym, ap, ◌∙◌, subst, any-ext, Bool, true, false, not, ◌&&◌, ◌||◌, List, [],
  ◌∷◌, ◌++◌, append_assoc, append-nil, arith, any, All, if◌then◌else◌, Bool-cases, Member, filter,
}
use hooversion.Routing.{
  file_belongs_to_package, answers_to, part_targets, parts_targets, scope_targets, file_names,
  files_names, commit_names, affected_for, record_commit, affected_from, direct_affected,
}
use hooversion.Text.Laws.{text_eq_iff, text_eq_refl, contains-append}
use hooversion.Text.Maps.{TextMap, lookup, insert, lookup-insert}
use hooversion.Text.{Text, text_eq, contains, split, trim_space, trim_left, trim_right}
use hooversion.Types.{NormalizedPackageConfig, NormalizedConfig, ParsedCommit}

abbrev pub Packages : Type 0
Packages = List NormalizedPackageConfig

-- The test holds for a package of that name.
abbrev named : Text → (NormalizedPackageConfig → Bool) → Packages → Bool
named name q = any (λ p. q p && text_eq p.name name)

contains-one :
    (n x : Text) (names : List Text) → contains (x ∷ names) n ≡ (text_eq x n || contains names n)
unfolding contains
contains-one n x names = refl

contains-last :
    (n x : Text) (names : List Text)
    → contains (names ++ x ∷ []) n ≡ (contains names n || text_eq x n)
contains-last n x names = contains-append names (x ∷ []) n ∙ unfold contains in ground arith

contains-part_targets :
    (n part : Text) (ps : Packages) (result : List Text)
    → contains (part_targets part ps result) n
      ≡ (contains result n || named n (λ p. answers_to p part) ps)
unfolding part_targets
contains-part_targets n part [] result = ground arith
contains-part_targets n part (p ∷ ps) result = ground (
  arith,
  contains-part_targets n part ps result,
  contains-part_targets n part ps (result ++ p.name ∷ []),
  contains-last n p.name result,
  text_eq_iff p.name n,
)

-- One part of a scope names the package.
abbrev part_names : NormalizedPackageConfig → Text → Bool
part_names p part = not (text_eq (trim_space part) []) && answers_to p (trim_space part)

abbrev parts_named : Text → List Text → Packages → Bool
parts_named n parts ps =
    any
      (λ part.
        not (text_eq (trim_space part) []) && named n (λ p. answers_to p (trim_space part)) ps)
      parts

contains-parts_targets :
    (n : Text) (parts : List Text) (ps : Packages) (result : List Text)
    → contains (parts_targets parts ps result) n ≡ (contains result n || parts_named n parts ps)
unfolding parts_targets
contains-parts_targets n [] ps result = ground arith
contains-parts_targets n (part ∷ parts) ps result = ground (
  arith,
  contains-parts_targets n parts ps result,
  contains-parts_targets n parts ps (part_targets (trim_space part) ps result),
  contains-part_targets n (trim_space part) ps result,
)

contains-file_names :
    (n file : Text) (packages ps : Packages) (names : List Text)
    → contains (file_names file packages ps names) n
      ≡ (contains names n || named n (λ p. file_belongs_to_package file p packages) ps)
unfolding file_names
contains-file_names n file packages [] names = ground arith
contains-file_names n file packages (p ∷ ps) names = ground (
  arith,
  contains-file_names n file packages ps names,
  contains-file_names n file packages ps (p.name ∷ names),
  contains-one n p.name names,
)

contains-files_names :
    (n : Text) (files : List Text) (packages : Packages) (names : List Text)
    → contains (files_names files packages names) n ≡ (
        contains names n
        || any (λ f. named n (λ p. file_belongs_to_package f p packages) packages) files)
unfolding files_names
contains-files_names n [] packages names = ground arith
contains-files_names n (f ∷ files) packages names = ground (
  arith,
  contains-files_names n files packages (file_names f packages packages names),
  contains-file_names n f packages packages names,
)

-- No two packages have the same name.
abbrev pub DistinctNames : Packages → Type 0
DistinctNames [] = Unit
DistinctNames (p ∷ ps) = All (λ q. text_eq p.name q.name ≡ false) ps × DistinctNames ps

named_absent :
    (p : NormalizedPackageConfig) (q : NormalizedPackageConfig → Bool) (ps : Packages)
    → All (λ r. text_eq p.name r.name ≡ false) ps
    → named p.name q ps ≡ false
named_absent p q [] h = refl
named_absent p q (r ∷ ps) h =
    ground (arith, named_absent p q ps h.1, text_eq_iff p.name r.name, text_eq_iff r.name p.name)

All-Member :
    (f : NormalizedPackageConfig → Bool) (x : NormalizedPackageConfig) (ps : Packages)
    → All (λ r. f r ≡ false) ps
    → Member x ps
    → f x ≡ false
All-Member f x [] h m = absurd m
All-Member f x (y ∷ ps) h (inl e) = ap f e ∙ h.0
All-Member f x (y ∷ ps) h (inr m) = All-Member f x ps h.1 m

-- Among packages with distinct names a name picks one package.
named-Member :
    (p : NormalizedPackageConfig) (q : NormalizedPackageConfig → Bool) (ps : Packages)
    → Member p ps
    → DistinctNames ps
    → named p.name q ps ≡ q p
named-Member p q [] m d = absurd m
named-Member p q (r ∷ ps) (inl e) d =
    subst (λ x. named x.name q (r ∷ ps) ≡ q x) (sym e)
      (ground (arith, named_absent r q ps d.0, text_eq_refl r.name))
named-Member p q (r ∷ ps) (inr m) d = ground (
  arith,
  named-Member p q ps m d.1,
  text_eq_iff r.name p.name,
  All-Member (λ s. text_eq r.name s.name) p ps d.0 m,
)

-- The commit touches the package: a part of its scope is the name or a scope of the package, or
-- one of its files belongs to the package.
abbrev pub touches : Packages → NormalizedPackageConfig → ParsedCommit → Bool
touches packages pkg c =
    any (part_names pkg) (split c.scope b',')
    || any (λ f. file_belongs_to_package f pkg packages) c.files

scope_targets-split :
    (scope : Text) (ps : Packages) → scope_targets scope ps ≡ parts_targets (split scope b',') ps []
scope_targets-split scope ps = elim (Bool-cases (text_eq scope [])) [
  | inl e ↦
      rw ((text_eq_iff scope []).0 e)
        (unfold scope_targets parts_targets text_eq split trim_space trim_left trim_right in refl)
  | inr e ↦ unfold scope_targets in rw e
]

module _ (packages : Packages) (d : DistinctNames packages) where
  contains-commit_names :
      (p : NormalizedPackageConfig) (c : ParsedCommit)
      → Member p packages
      → contains (commit_names c packages) p.name ≡ touches packages p c
  unfolding commit_names contains split
  contains-commit_names p c m =
      contains-files_names p.name c.files packages (scope_targets c.scope packages)
      ∙ ap (λ b. contains (scope_targets c.scope packages) p.name || b) files
      ∙ ap (λ b. b || any (λ f. file_belongs_to_package f p packages) c.files) parts
    where
      files :
          any (λ f. named p.name (λ r. file_belongs_to_package f r packages) packages) c.files
          ≡ any (λ f. file_belongs_to_package f p packages) c.files
      files =
          any-ext _ _ c.files
            (λ f. named-Member p (λ r. file_belongs_to_package f r packages) packages m d)

      parts :
          contains (scope_targets c.scope packages) p.name ≡ any (part_names p) (split c.scope b',')
      parts =
          ap (λ l. contains l p.name) (scope_targets-split c.scope packages)
          ∙ contains-parts_targets p.name (split c.scope b',') packages []
          ∙ any-ext _ _ (split c.scope b',') (λ part.
            ap (λ b. not (text_eq (trim_space part) []) && b)
              (named-Member p (λ r. answers_to r (trim_space part)) packages m d))

-- One commit is appended, once, for each package among its names, and for no other name.
affected_for-record_commit_absent :
    (p : NormalizedPackageConfig) (c : ParsedCommit) (names : List Text) (ps : Packages)
    (aff : TextMap (List ParsedCommit))
    → All (λ r. text_eq p.name r.name ≡ false) ps
    → affected_for p.name (record_commit c names ps aff) ≡ affected_for p.name aff
unfolding record_commit
affected_for-record_commit_absent p c names [] aff h = refl
affected_for-record_commit_absent p c names (r ∷ ps) aff h = ground (
  arith,
  affected_for-record_commit_absent p c names ps aff h.1,
  affected_for-record_commit_absent p c names ps
      (insert r.name (affected_for r.name aff ++ c ∷ []) aff) h.1,
  lookup-insert r.name p.name (affected_for r.name aff ++ c ∷ []) aff,
  text_eq_iff p.name r.name,
  text_eq_iff r.name p.name,
)

record_head :
    (r : NormalizedPackageConfig) (c : ParsedCommit) (names : List Text) (ps : Packages)
    (aff : TextMap (List ParsedCommit))
    → All (λ q. text_eq r.name q.name ≡ false) ps
    → affected_for r.name (record_commit c names (r ∷ ps) aff)
      ≡ affected_for r.name aff ++ (if contains names r.name then c ∷ [] else [])
unfolding record_commit
record_head r c names ps aff h = ground (
  arith,
  affected_for-record_commit_absent r c names ps aff h,
  affected_for-record_commit_absent r c names ps
      (insert r.name (affected_for r.name aff ++ c ∷ []) aff) h,
  lookup-insert r.name r.name (affected_for r.name aff ++ c ∷ []) aff,
  text_eq_refl r.name,
  append-nil (affected_for r.name aff),
)

affected_for-record_commit :
    (p : NormalizedPackageConfig) (c : ParsedCommit) (names : List Text) (ps : Packages)
    (aff : TextMap (List ParsedCommit))
    → Member p ps
    → DistinctNames ps
    → affected_for p.name (record_commit c names ps aff)
      ≡ affected_for p.name aff ++ (if contains names p.name then c ∷ [] else [])
unfolding record_commit
affected_for-record_commit p c names [] aff m d = absurd m
affected_for-record_commit p c names (r ∷ ps) aff (inl e) d =
    subst
      (λ x.
        affected_for x.name (record_commit c names (r ∷ ps) aff)
        ≡ affected_for x.name aff ++ (if contains names x.name then c ∷ [] else []))
      (sym e) (record_head r c names ps aff d.0)
affected_for-record_commit p c names (r ∷ ps) aff (inr m) d =
    let aff' = insert r.name (affected_for r.name aff ++ c ∷ []) aff in
    ground (
      arith,
      affected_for-record_commit p c names ps aff m d.1,
      affected_for-record_commit p c names ps aff' m d.1,
      lookup-insert r.name p.name (affected_for r.name aff ++ c ∷ []) aff,
      All-Member (λ s. text_eq r.name s.name) p ps d.0 m,
    )

module _ (packages : Packages) (d : DistinctNames packages) where
  affected_for-affected_from :
      (p : NormalizedPackageConfig) (cs : List ParsedCommit) (aff : TextMap (List ParsedCommit))
      → Member p packages
      → affected_for p.name (affected_from packages cs aff)
        ≡ affected_for p.name aff ++ filter (touches packages p) cs
  unfolding affected_from
  affected_for-affected_from p [] aff m = sym (append-nil _)
  affected_for-affected_from p (c ∷ cs) aff m =
      let names = commit_names c packages in
      affected_for-affected_from p cs (record_commit c names packages aff) m
      ∙ ap (λ l. l ++ filter (touches packages p) cs)
          (affected_for-record_commit p c names packages aff m d)
      ∙ last_step (contains names p.name) (touches packages p c)
          (contains-commit_names packages d p c m)
    where
      last_step :
          (b t : Bool)
          → b ≡ t
          → (affected_for p.name aff ++ (if b then c ∷ [] else []))
              ++ filter (touches packages p) cs
            ≡ affected_for p.name aff
              ++ (if t then c ∷ filter (touches packages p) cs else filter (touches packages p) cs)
      last_step true t e =
          rw (← e)
            (append_assoc (affected_for p.name aff) (c ∷ []) (filter (touches packages p) cs))
      last_step false t e = rw (← e) (rw append-nil)

-- For packages with distinct names, the commits that DirectAffected gives a package are those that
-- touch it, each once and in their order: a part of the scope is its name or one of its scopes, or
-- a file belongs to it.
pub direct_affected-filter :
    (config : NormalizedConfig) (commits : List ParsedCommit) (p : NormalizedPackageConfig)
    → DistinctNames config.packages
    → Member p config.packages
    → affected_for p.name (direct_affected config commits)
      ≡ filter (touches config.packages p) commits
unfolding direct_affected lookup
direct_affected-filter config commits p d m =
    affected_for-affected_from config.packages d p commits [] m
