-- ===== src/Config/Examples.antt =====
-- Tests of config.go, and its theorems at concrete packages.
use mathlib.Core.WellFounded.{Acc}
use hooversion.Common.{ℕ, ◌≡◌, ◌≢◌, refl, false, [], ◌∷◌, All, Result, ok, err}
use hooversion.Config.Cycles.{
  visit_each, visit, left_behind, cycle_of, assert_acyclic_package_graph,
}
use hooversion.Config.Managed.{HasDistinctPaths, IsFree, validate_managed_paths-HasDistinctPaths}
use hooversion.Config.Dependencies.{DependsOn, check_packages-IsAcyclic}
use hooversion.Config.Packages.{check_packages, keys, check_packages-fuel}
use hooversion.Config.{
  Error, Resolved, dependency_cycle, outside_path, placeholder_count, out_of_fuel,
  normalize_graph_name, names_by_key, resolve_dependencies, resolve_all, normalize_relative,
  assert_valid_tag_format, is_git_path, is_reserved, claim_paths, managed_entries,
  validate_managed_paths,
}
use hooversion.Routing.Examples.{app, core, config}
use hooversion.Text.Maps.{lookup, insert}
use hooversion.Text.Paths.{clean, render, is_abs}
use hooversion.Text.{
  codes, text_eq, has_prefix, has_rune, is_space, split, join, trim_space, trim_left, trim_right,
  to_lower, replace_all, count,
}
use hooversion.Types.{NormalizedPackageConfig}

abbrev lower : ℕ → ℕ
lower c = c

abbrev back : NormalizedPackageConfig
back = record core { dependencies = codes " App" ∷ [] }

paths :
    (normalize_relative (codes "a\\b/../c") ≡ ok (codes "a/c"))
    × (normalize_relative (codes "a/../../b") ≡ err outside_path)
    × (normalize_relative [] ≡ ok (codes "."))
unfolding normalize_relative clean render is_abs has_rune replace_all has_prefix split join text_eq
paths = (refl, refl, refl)

formats : assert_valid_tag_format lower (codes "v") [] ≡ err (placeholder_count (codes "v"))
unfolding assert_valid_tag_format count has_prefix
formats = refl

cycles :
    check_packages lower (app ∷ back ∷ [])
    ≡ err (dependency_cycle (codes "app" ∷ codes "core" ∷ codes "app" ∷ []))
unfolding check_packages names_by_key resolve_all resolve_dependencies normalize_graph_name lookup
    insert text_eq to_lower trim_space trim_left trim_right is_space assert_acyclic_package_graph
    visit_each visit left_behind cycle_of
cycles = refl

abbrev accepted : Result Error Resolved → Resolved
accepted (ok r) = r
accepted (err e) = record { packages = []; graph = [] }

check_packages-IsAcyclic_example :
    All (Acc (DependsOn lower (app ∷ core ∷ []))) (keys lower (app ∷ core ∷ []))
unfolding check_packages names_by_key resolve_all resolve_dependencies normalize_graph_name lookup
    insert text_eq to_lower trim_space trim_left trim_right is_space assert_acyclic_package_graph
    visit_each visit left_behind
check_packages-IsAcyclic_example =
    check_packages-IsAcyclic lower (app ∷ core ∷ [])
      (accepted (check_packages lower (app ∷ core ∷ []))) refl

check_packages-fuel_example : check_packages lower (app ∷ back ∷ []) ≢ err out_of_fuel
check_packages-fuel_example = check_packages-fuel lower (app ∷ back ∷ [])

validate_managed_paths-HasDistinctPaths_example :
    (config.output_dir ≢ codes ".")
    × (is_git_path config.output_dir ≡ false)
    × HasDistinctPaths (managed_entries config.packages)
    × All (IsFree config.output_dir) (managed_entries config.packages)
unfolding validate_managed_paths claim_paths is_reserved has_prefix text_eq lookup insert
validate_managed_paths-HasDistinctPaths_example =
    validate_managed_paths-HasDistinctPaths config refl
