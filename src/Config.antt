-- ===== src/Config.antt =====
-- internal/config/config.go: the checks of Normalize on the packages that normalizePackage returns.
-- `lower` is unicode.ToLower beyond ASCII.
pub mod Cycles
pub mod Acyclic
pub mod Fuel
pub mod Packages
pub mod Dependencies
pub mod Managed
mod Examples
use hooversion.Common.{
  ℕ, zero, suc, Bool, true, false, not, ◌&&◌, ◌||◌, List, [], ◌∷◌, ◌++◌, Option, none, some,
  if◌then◌else◌, map, ltb, leb, ◌==◌, length, Result, ok, err, ◌>>=◌, ◌>>◌,
}
use hooversion.Git.{assert_valid_git_ref}
use hooversion.Text.Maps.{TextMap, lookup, insert}
use hooversion.Text.Paths.{clean, render, is_abs}
use hooversion.Text.{
  Text, codes, text_eq, contains_any, has_prefix, has_rune, trim_space, to_lower, replace_all,
  count,
}
use hooversion.Types.{GithubConfig, GithubSettings, NormalizedPackageConfig, NormalizedConfig}

pub data Error : Type 0 where
  duplicate_name : Text → Text → Error
  unknown_dependency self_dependency : Text → Error
  dependency_cycle : List Text → Error
  placeholder_count unknown_placeholder : Text → Error
  invalid_ref : Error
  nul_in_path outside_path : Error
  bad_output_dir : Text → Error
  reserved_path shared_path : Text → Error
  out_of_fuel : Error

-- normalizeGraphName
unfoldable pub normalize_graph_name : (ℕ → ℕ) → Text → Text
normalize_graph_name lower name = to_lower lower (trim_space name)

-- byName
unfoldable pub names_by_key :
    (ℕ → ℕ)
    → List NormalizedPackageConfig
    → TextMap NormalizedPackageConfig
    → Result Error (TextMap NormalizedPackageConfig)
names_by_key lower [] by_name = ok by_name
names_by_key lower (pkg ∷ packages) by_name =
    let key = normalize_graph_name lower pkg.name in
    elim (lookup key by_name) [
      | some dup ↦ err (duplicate_name dup.name pkg.name)
      | none ↦ names_by_key lower packages (insert key pkg by_name)
    ]

-- the loop over the dependencies of one package
unfoldable pub resolve_dependencies :
    (ℕ → ℕ)
    → TextMap NormalizedPackageConfig
    → NormalizedPackageConfig
    → List Text
    → Result Error (List Text)
resolve_dependencies lower by_name pkg [] = ok []
resolve_dependencies lower by_name pkg (dep ∷ deps) =
    let rest = resolve_dependencies lower by_name pkg deps in
    elim (lookup (normalize_graph_name lower dep) by_name) [
      | none ↦ err (unknown_dependency dep)
      | some target ↦
          if text_eq (normalize_graph_name lower dep) (normalize_graph_name lower pkg.name)
          then err (self_dependency pkg.name)
          else rest >>= λ resolved. ok (target.name ∷ resolved)
    ]

-- the packages with their resolved dependencies, and the graph
pub record Resolved : Type 0 where
  pub packages : List NormalizedPackageConfig
  pub graph : TextMap (List Text)

-- the loop over the packages
unfoldable pub resolve_all :
    (ℕ → ℕ)
    → TextMap NormalizedPackageConfig
    → List NormalizedPackageConfig
    → TextMap (List Text)
    → Result Error Resolved
resolve_all lower by_name [] graph = ok (record { packages = []; graph = graph })
resolve_all lower by_name (pkg ∷ packages) graph =
    let rest = resolve_all lower by_name packages in
    resolve_dependencies lower by_name pkg pkg.dependencies >>= λ resolved.
    rest (
      insert (normalize_graph_name lower pkg.name) (map (normalize_graph_name lower) resolved)
        graph)
    >>= λ more.
        ok (record more { packages = record pkg { dependencies = resolved } ∷ more.packages })

-- what assertValidTagFormat leaves of a format
abbrev without_placeholders : Text → Text
without_placeholders format =
    replace_all (replace_all format (codes "${name}") []) (codes "${version}") []

-- the loop over the packages
unfoldable pub check_candidates :
    (ℕ → ℕ) → Text → List NormalizedPackageConfig → Result Error (Unit {0})
check_candidates lower format [] = ok tt
check_candidates lower format (pkg ∷ packages) =
    let candidate =
      replace_all (replace_all format (codes "${name}") pkg.name) (codes "${version}")
        (codes "0.0.0") in
    let rest = check_candidates lower format packages in
    elim (assert_valid_git_ref lower candidate) [ ok _ ↦ rest | err _ ↦ err invalid_ref ]

-- assertValidTagFormat
unfoldable pub assert_valid_tag_format :
    (ℕ → ℕ) → Text → List NormalizedPackageConfig → Result Error (Unit {0})
assert_valid_tag_format lower format packages =
    if not (count format (codes "${version}") == 1)
    then err (placeholder_count format)
    else if contains_any (without_placeholders format) (codes "${}")
    then err (unknown_placeholder format)
    else check_candidates lower format packages

-- cleaned[1] == ':' in bytes, for a path of at least two
abbrev has_drive : Text → Bool
has_drive (a ∷ b ∷ s) = ltb a 0x80 && b == b':'
has_drive _ = false

-- normalizeRelative; a cleaned path is not "", so the last test never holds
unfoldable pub normalize_relative : Text → Result Error Text
normalize_relative raw_path =
    let cleaned = render (clean (replace_all raw_path (codes "\\") (codes "/"))) in
    if has_rune 0 raw_path
    then err nul_in_path
    else if text_eq cleaned (codes "..")
        || has_prefix cleaned (codes "../")
        || is_abs cleaned
        || has_drive cleaned
    then err outside_path
    else if text_eq cleaned []
    then ok (codes ".")
    else ok cleaned

-- path == ".git" || strings.HasPrefix(path, ".git/")
abbrev pub is_git_path : Text → Bool
is_git_path path = text_eq path (codes ".git") || has_prefix path (codes ".git/")

-- the first test on a managed path
unfoldable pub is_reserved : Text → Text → Bool
is_reserved output_dir path =
    text_eq path (codes ".")
    || is_git_path path
    || text_eq path (codes ".release-version")
    || text_eq path output_dir
    || has_prefix path (output_dir ++ codes "/")

-- the owner of a path that a release writes
abbrev pub Role : Type 0
Role = Text

-- the loop over the two entries of each package
unfoldable pub claim_paths : Text → List (Text × Role) → TextMap Role → Result Error (TextMap Role)
claim_paths output_dir [] owners = ok owners
claim_paths output_dir ((path, owner) ∷ entries) owners =
    let rest = claim_paths output_dir entries (insert path owner owners) in
    if is_reserved output_dir path
    then err (reserved_path path)
    else elim (lookup path owners) [ some previous ↦ err (shared_path path) | none ↦ rest ]

-- the paths of the packages with their owners, in the order of the loops
abbrev pub managed_entries : List NormalizedPackageConfig → List (Text × Role)
managed_entries [] = []
managed_entries (pkg ∷ packages) =
    (pkg.manifest, pkg.name ++ codes " manifest")
    ∷ (pkg.changelog, pkg.name ++ codes " changelog")
    ∷ managed_entries packages

-- validateManagedPaths
unfoldable pub validate_managed_paths : NormalizedConfig → Result Error (Unit {0})
validate_managed_paths cfg =
    if text_eq cfg.output_dir (codes ".") || is_git_path cfg.output_dir
    then err (bad_output_dir cfg.output_dir)
    else claim_paths cfg.output_dir (managed_entries cfg.packages) [] >>= λ owners. ok tt

github_with : GithubConfig → GithubSettings
github_with raw = record {
  enabled = true;
  releases = elim raw.releases [ none ↦ true | some releases ↦ releases ];
  repository = raw.repository;
  api_url = if text_eq raw.api_url [] then codes "https://api.github.com" else raw.api_url;
}

-- resolveGitHub
unfoldable pub resolve_github : Option GithubConfig → GithubSettings
unfolding github_with
resolve_github none = record {
  enabled = true;
  releases = true;
  repository = [];
  api_url = codes "https://api.github.com";
}
resolve_github (some raw) = elim raw.enabled [
  | none ↦ github_with raw
  | some enabled ↦
      if enabled
      then github_with raw
      else record { enabled = false; releases = false; repository = []; api_url = [] }
]
