-- ===== src/Config/Managed.antt =====
-- What validateManagedPaths and normalizeRelative of internal/config/config.go ensure.
use hooversion.Common.{
  ◌≡◌, ◌≢◌, inl, inr, false, ◌||◌, List, [], ◌∷◌, none, arith, All, Bool-cases, Option-cases, ok,
  bind-eq-ok, err-ne-ok,
}
use hooversion.Config.{
  Role, is_git_path, is_reserved, claim_paths, managed_entries, validate_managed_paths,
}
use hooversion.Text.Laws.{text_eq_iff}
use hooversion.Text.Maps.{TextMap, lookup, insert, lookup-insert}
use hooversion.Text.{Text, codes, text_eq}
use hooversion.Types.{NormalizedConfig}

-- The paths differ from one another.
abbrev pub HasDistinctPaths : List (Text × Role) → Type 0
HasDistinctPaths [] = Unit
HasDistinctPaths ((path, owner) ∷ entries) =
    All (λ (e : Text × Role). text_eq path e.0 ≡ false) entries × HasDistinctPaths entries

abbrev pub IsFree : Text → Text × Role → Type 0
IsFree output_dir e = is_reserved output_dir e.0 ≡ false

-- A path that is inserted is not among the paths that follow.
fresh_after :
    (path : Text) (owner : Role) (owners : TextMap Role) (entries : List (Text × Role))
    → All (λ (e : Text × Role). lookup e.0 (insert path owner owners) ≡ none) entries
    → All (λ (e : Text × Role). text_eq path e.0 ≡ false) entries
      × All (λ (e : Text × Role). lookup e.0 owners ≡ none) entries
fresh_after path owner owners [] a = (tt, tt)
fresh_after path owner owners ((p, o) ∷ entries) (h, a) =
    let (f, g) = fresh_after path owner owners entries a in
    let e = lookup-insert path p owner owners in
    ((ground (arith, e, h), f), (ground (arith, e, h), g))

claim_paths-HasDistinctPaths :
    (output_dir : Text) (entries : List (Text × Role)) (owners : TextMap Role) {o : TextMap Role}
    → claim_paths output_dir entries owners ≡ ok o
    → All (IsFree output_dir) entries
      × HasDistinctPaths entries
      × All (λ (e : Text × Role). lookup e.0 owners ≡ none) entries
unfolding claim_paths
claim_paths-HasDistinctPaths output_dir [] owners h = (tt, tt, tt)
claim_paths-HasDistinctPaths output_dir ((path, owner) ∷ entries) owners h =
    elim (Bool-cases (is_reserved output_dir path)) [
      | inl r ↦ absurd (err-ne-ok (rw (claim_paths, r) at h))
      | inr r ↦ elim (Option-cases (lookup path owners)) [
        | inr (previous, e) ↦ absurd (err-ne-ok (rw (claim_paths, r, e) at h))
        | inl e ↦
            let (free, distinct, fresh) =
              claim_paths-HasDistinctPaths output_dir entries (insert path owner owners)
                (rw (claim_paths, r, e) at h) in
            let (differ, old) = fresh_after path owner owners entries fresh in
            ((r, free), (differ, distinct), (e, old))
      ]
    ]

-- Where validateManagedPaths accepts a configuration, the output directory is neither the root of
-- the repository nor part of the Git metadata, the manifests and changelogs of all packages are
-- different paths, and none of them is the root, in the Git metadata, .release-version, the output
-- directory or inside it.
pub validate_managed_paths-HasDistinctPaths :
    (cfg : NormalizedConfig)
    → validate_managed_paths cfg ≡ ok tt
    → (cfg.output_dir ≢ codes ".")
      × (is_git_path cfg.output_dir ≡ false)
      × HasDistinctPaths (managed_entries cfg.packages)
      × All (IsFree cfg.output_dir) (managed_entries cfg.packages)
unfolding validate_managed_paths
validate_managed_paths-HasDistinctPaths cfg h =
    elim (Bool-cases (text_eq cfg.output_dir (codes ".") || is_git_path cfg.output_dir)) [
      | inl bad ↦ absurd (err-ne-ok (rw (validate_managed_paths, bad) at h))
      | inr good ↦
          let (o, e, _) =
            bind-eq-ok (claim_paths cfg.output_dir (managed_entries cfg.packages) [])
              (λ owners. ok tt) {b = tt} (rw (validate_managed_paths, good) at h) in
          let (free, distinct, _) =
            claim_paths-HasDistinctPaths cfg.output_dir (managed_entries cfg.packages) [] e in
          (ground (arith, text_eq_iff cfg.output_dir (codes ".")), ground arith, distinct, free)
    ]
