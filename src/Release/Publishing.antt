-- ===== src/Release/Publishing.antt =====
-- internal/release/release.go: publishGitHubReleasesWithEnv. The client of package githubapi is part
-- of the world: what it reads, and how a creation or an upload ends.
pub mod Settled
use hooversion.Common.{
  ℕ, Bool, true, false, not, ◌&&◌, ◌||◌, List, [], ◌∷◌, ◌++◌, Option, none, some, ◌==◌,
  if◌then◌else◌, Result, ok, err,
}
use hooversion.Git.Remote.{origin_repository}
use hooversion.Release.Effects.{
  Effect, ReleaseInput, GithubRelease, GithubAsset, create_release, upload_asset, Trace, World,
  RunState, Action, pure, raise, query, observe, perform, look, when◌then◌else◌, ◌>>=◌, ◌>>◌,
}
use hooversion.Release.Message.{named_version}
use hooversion.Release.{Error, no_token, no_repository, release_differs}
use hooversion.Text.Maps.{TextMap, lookup, insert}
use hooversion.Text.{Text, codes, text_eq, trim_right, split}
use hooversion.Types.{NormalizedConfig, PackageRelease, ReleasePlan}

abbrev last_or : Text → List Text → Text
last_or default [] = default
last_or default (x ∷ xs) = last_or x xs

-- filepath.Base
unfoldable pub base_name : Text → Text
base_name path =
    let bare = trim_right (λ c. c == b'/') path in
    if text_eq path []
    then codes "."
    else if text_eq bare []
    then codes "/"
    else last_or [] (split bare b'/')

-- what the release of a plan looks like on GitHub
unfoldable pub release_input : PackageRelease → ReleaseInput
release_input release = record {
  tag_name = release.tag;
  name = named_version release;
  body = release.notes;
}

unfoldable pub matches_release : GithubRelease → PackageRelease → Bool
matches_release existing release =
    text_eq existing.tag_name release.tag
    && text_eq existing.name (named_version release)
    && text_eq existing.body release.notes
    && not existing.draft
    && not existing.prerelease

unfoldable pub by_name : List GithubAsset → TextMap GithubAsset → TextMap GithubAsset
by_name [] assets = assets
by_name (asset ∷ inventory) assets = by_name inventory (insert asset.name asset assets)

module _ (world : World) where
  -- CreateRelease of the client
  unfoldable pub create : Text → ReleaseInput → Action GithubRelease
  create repository input s = (
    world.created_release s.trace repository input,
    record s { trace = create_release repository input ∷ s.trace },
  )

  module _ (repository : Text) where
    abbrev pub existing_assets :
        PackageRelease → GithubRelease → Action (GithubRelease × TextMap GithubAsset)
    existing_assets release existing =
        when not (matches_release existing release)
        then raise (release_differs release.tag)
        else (observe (λ trace. world.list_assets trace repository existing.id) >>= λ inventory.
            pure (existing, by_name inventory []))

    -- the release on GitHub with its assets, created if it is not there
    unfoldable pub find_or_create :
        PackageRelease → Option GithubRelease → Action (GithubRelease × TextMap GithubAsset)
    unfolding matches_release release_input by_name create
    find_or_create release (some existing) = existing_assets release existing
    find_or_create release none =
        create repository (release_input release) >>= λ created. pure (created, [])

    abbrev verify : GithubAsset → Text → Action (Unit {0})
    verify asset path = observe (λ trace. world.verify_asset trace repository asset path)

    -- the loop over the assets: those that are there are verified, and of the others the first one
    -- of each name is missing
    unfoldable pub missing_assets :
        TextMap GithubAsset → List Text → TextMap Text → Action (TextMap Text)
    unfolding base_name
    missing_assets existing [] missing = pure missing
    missing_assets existing (path ∷ paths) missing =
        let name = base_name path in
        elim (lookup name existing) [
          | some asset ↦ verify asset path >> missing_assets existing paths missing
          | none ↦
              missing_assets existing paths
                (elim (lookup name missing) [ none ↦ insert name path missing | some p ↦ missing ])
        ]

    unfoldable pub upload_all : Text → TextMap Text → Action (Unit {0})
    upload_all url [] = pure tt
    upload_all url ((name, path) ∷ missing) =
        perform world (upload_asset url name path) >> upload_all url missing

    -- one round of the loop over the releases
    unfoldable pub publish_release : PackageRelease → Action (Unit {0})
    unfolding find_or_create missing_assets upload_all
    publish_release release =
        observe (λ trace. world.release_by_tag trace repository release.tag) >>= λ existing.
        find_or_create release existing >>= λ (response, assets).
        missing_assets assets release.pkg.assets [] >>= λ missing.
        upload_all response.upload_url missing

    unfoldable pub publish_releases : List PackageRelease → Action (Unit {0})
    unfolding publish_release
    publish_releases [] = pure tt
    publish_releases (release ∷ releases) = publish_release release >> publish_releases releases

  abbrev token_of : Text → Trace → Text
  token_of option trace =
      let env = (world.sources trace).env in
      if not (text_eq option [])
      then option
      else if not (text_eq (env (codes "GITHUB_TOKEN")) [])
      then env (codes "GITHUB_TOKEN")
      else env (codes "GH_TOKEN")

  abbrev repository_for : NormalizedConfig → Action Text
  repository_for config =
      when text_eq config.github.repository []
      then query world (λ s. origin_repository s.run)
      else pure config.github.repository

  -- publishGitHubReleasesWithEnv
  unfoldable pub publish_github_releases : NormalizedConfig → ReleasePlan → Text → Action (Unit {0})
  unfolding publish_releases
  publish_github_releases config plan token_option =
      when not config.github.enabled || not config.github.releases
      then pure tt
      else look (token_of token_option) λ token.
        when text_eq token []
        then raise no_token
        else (repository_for config >>= λ repository.
            when text_eq repository []
            then raise no_repository
            else publish_releases repository plan.releases)
