-- ===== src/Routing/Examples.antt =====
-- Tests of routing.go, and its theorems at concrete packages.
use hooversion.Common.{◌≡◌, ◌≢◌, ◌↔◌, inl, inr, refl, true, false, List, [], ◌∷◌, ◌++◌, filter}
use hooversion.Routing.Affected.{DistinctNames, touches, direct_affected-filter}
use hooversion.Routing.Ownership.{is_inside_iff}
use hooversion.Routing.{
  is_inside, file_belongs_to_package, answers_to, scope_targets, affected_for, direct_affected,
  record_commit, commit_names,
}
use hooversion.Text.Maps.{lookup, insert}
use hooversion.Text.Paths.{clean, rel, rel_elements, leads_down, is_abs}
use hooversion.Text.{Text, codes, text_eq, contains, split, trim_space, has_prefix}
use hooversion.Types.{NormalizedPackageConfig, NormalizedConfig, ParsedCommit, node, rust}

abbrev pub app : NormalizedPackageConfig
app = record {
  name = codes "app";
  path = codes ".";
  kind = node;
  manifest = codes "package.json";
  changelog = codes "CHANGELOG.md";
  scopes = codes "app" ∷ [];
  dependencies = codes "core" ∷ [];
  assets = [];
}

abbrev pub core : NormalizedPackageConfig
core = record {
  name = codes "core";
  path = codes "crates/core";
  kind = rust;
  manifest = codes "crates/core/Cargo.toml";
  changelog = codes "crates/core/CHANGELOG.md";
  scopes = codes "core" ∷ codes "lib" ∷ [];
  dependencies = [];
  assets = [];
}

abbrev pub config : NormalizedConfig
config = record {
  branches = codes "main" ∷ [];
  tag_format = codes "v${version}";
  independent_tag_format = codes "${name}@v${version}";
  packages = app ∷ core ∷ [];
  hooks = record { before_release = []; after_version = []; after_release = [] };
  github = record { enabled = true; releases = true; repository = []; api_url = [] };
  output_dir = codes ".hooversion";
  push = true;
}

abbrev pub fix_core : ParsedCommit
fix_core = record {
  hash = codes "a1";
  subject = codes "fix: x";
  body = [];
  files = codes "crates/core/src/lib.rs" ∷ [];
  kind = codes "fix";
  scope = [];
  breaking = false;
  breaking_description = [];
  description = codes "x";
  conforms = true;
}

abbrev pub feat_app : ParsedCommit
feat_app = record fix_core {
  hash = codes "b2";
  kind = codes "feat";
  scope = codes "lib, app";
  files = codes "README.md" ∷ [];
}

routes :
    (affected_for (codes "app") (direct_affected config (fix_core ∷ feat_app ∷ [])) ≡ feat_app ∷ [])
    × (affected_for (codes "core") (direct_affected config (fix_core ∷ feat_app ∷ []))
        ≡ fix_core ∷ feat_app ∷ [])
unfolding direct_affected record_commit commit_names scope_targets split trim_space text_eq
    answers_to contains file_belongs_to_package is_inside clean is_abs has_prefix rel rel_elements
    leads_down lookup insert
routes = (refl, refl)

pub app_and_core-DistinctNames : DistinctNames config.packages
unfolding text_eq
app_and_core-DistinctNames = ((refl, tt), (tt, tt))

direct_affected-filter_example :
    affected_for core.name (direct_affected config (fix_core ∷ feat_app ∷ []))
    ≡ filter (touches config.packages core) (fix_core ∷ feat_app ∷ [])
direct_affected-filter_example =
    direct_affected-filter config (fix_core ∷ feat_app ∷ []) core app_and_core-DistinctNames
      (inr (inl refl))

is_inside_iff_example : (is_inside (codes "crates/core/x") core.path ≡ true) ↔ (
    (rest : List Text) × (rest ≢ [])
    × ((clean (codes "crates/core/x")).elements ≡ (clean core.path).elements ++ rest))
unfolding clean is_abs has_prefix split text_eq
is_inside_iff_example =
    is_inside_iff (codes "crates/core/x") core.path refl refl (refl, (refl, (refl, tt)))
      (refl, (refl, tt))
