-- ===== src/Types.antt =====
-- internal/types/types.go: the data model that the components share. A ReleaseType is a string in
-- the source: each of its constants has a constructor, `unset` is "", and `other` is the rest.
use hooversion.Common.{Bool, true, false, List, Option}
use hooversion.Text.{Text}
use hooversion.Text.Maps.{TextMap}

pub data PackageType : Type 0 where
  node rust python version_file : PackageType
  unsupported : Text → PackageType

pub data ReleaseType : Type 0 where
  major minor patch no_release unset : ReleaseType
  other : Text → ReleaseType

pub record RawCommit : Type 0 where
  pub hash : Text
  pub subject : Text
  pub body : Text
  pub files : List Text

pub record ParsedCommit : Type 0 where
  pub hash : Text
  pub subject : Text
  pub body : Text
  pub files : List Text
  pub kind : Text  -- Type
  pub scope : Text
  pub breaking : Bool
  pub breaking_description : Text
  pub description : Text
  pub conforms : Bool

-- A nil policy is `none` where a policy is optional.
pub record CommitPolicy : Type 0 where
  pub allowed_types : List Text
  pub release_types : TextMap ReleaseType

pub record PackageConfig : Type 0 where
  pub name : Text
  pub path : Text
  pub kind : PackageType
  pub manifest : Text
  pub changelog : Text
  pub scopes : List Text
  pub dependencies : List Text
  pub assets : List Text

pub record HookConfig : Type 0 where
  pub before_release : List Text
  pub after_version : List Text
  pub after_release : List Text

-- A nil pointer is `none`.
pub record GithubConfig : Type 0 where
  pub enabled : Option Bool
  pub releases : Option Bool
  pub repository : Text
  pub api_url : Text

pub record Config : Type 0 where
  pub branches : List Text
  pub tag_format : Text
  pub independent_tag_format : Text
  pub packages : List PackageConfig
  pub hooks : HookConfig
  pub github : Option GithubConfig
  pub output_dir : Text
  pub push : Option Bool

pub record NormalizedPackageConfig : Type 0 where
  pub name : Text
  pub path : Text
  pub kind : PackageType
  pub manifest : Text
  pub changelog : Text
  pub scopes : List Text
  pub dependencies : List Text
  pub assets : List Text

pub record GithubSettings : Type 0 where
  pub enabled : Bool
  pub releases : Bool
  pub repository : Text
  pub api_url : Text

pub record NormalizedConfig : Type 0 where
  pub branches : List Text
  pub tag_format : Text
  pub independent_tag_format : Text
  pub packages : List NormalizedPackageConfig
  pub hooks : HookConfig
  pub github : GithubSettings
  pub output_dir : Text
  pub push : Bool

pub record PackageRelease : Type 0 where
  pub pkg : NormalizedPackageConfig
  pub current_version : Text
  pub next_version : Text
  pub release_type : ReleaseType
  pub dependency_triggered : Bool
  pub latest_tag : Text
  pub tag : Text
  pub commits : List ParsedCommit
  pub notes : Text

pub record ReleasePlan : Type 0 where
  pub branch : Text
  pub source_sha : Text
  pub independent : Bool
  pub releases : List PackageRelease
  pub unmatched_commits : List ParsedCommit

-- t == u on release types
unfoldable pub is_unset : ReleaseType → Bool
is_unset unset = true
is_unset _ = false
