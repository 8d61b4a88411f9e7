-- ===== src/Release/Publishing/Settled.antt =====
-- The publication on GitHub of internal/release/release.go keeps a settled journal settled.
use hooversion.Common.{inl, inr, refl, List, [], ◌∷◌, Option, none, some, Option-cases}
use hooversion.Release.Effects.{
  ReleaseInput, GithubRelease, GithubAsset, create_release, upload_asset, World, RunState,
}
use hooversion.Release.Publishing.{
  base_name, create, find_or_create, missing_assets, upload_all, publish_release, publish_releases,
  publish_github_releases,
}
use hooversion.Release.Triples.{
  IsSettled, IsFine, settled-IsFine, Leads, chain, ends_same, extended-IsSettled, perform-IsSettled,
  query_leads, observe_leads, raise_leads, pure_leads, when_leads, look_leads,
}
use hooversion.Text.Maps.{TextMap, lookup}
use hooversion.Text.{Text}
use hooversion.Types.{NormalizedConfig, PackageRelease, ReleasePlan}

abbrev fine : (s : RunState) → IsSettled s → IsFine s
fine s = settled-IsFine

module _ (world : World) where
  create-IsSettled :
      (repository : Text) (input : ReleaseInput)
      → Leads IsSettled (create world repository input) IsSettled
  unfolding create
  create-IsSettled repository input = record {
    run = λ s h.
        let after = extended-IsSettled (create_release repository input) s refl refl refl h in
        ends_same IsSettled (create world repository input s).0 (create world repository input s).1
          after (settled-IsFine after);
  }

  module _ (repository : Text) where
    find_or_create-IsSettled :
        (release : PackageRelease) (existing : Option GithubRelease)
        → Leads IsSettled (find_or_create world repository release existing) IsSettled
    unfolding find_or_create
    find_or_create-IsSettled release (some existing) =
        when_leads fine _ (raise_leads fine _)
          (chain (observe_leads fine _) (λ inventory. pure_leads fine _))
    find_or_create-IsSettled release none =
        chain (create-IsSettled repository _) (λ created. pure_leads fine _)

    missing_assets-IsSettled :
        (existing : TextMap GithubAsset) (paths : List Text) (missing : TextMap Text)
        → Leads IsSettled (missing_assets world repository existing paths missing) IsSettled
    unfolding missing_assets
    missing_assets-IsSettled existing [] missing = pure_leads fine missing
    missing_assets-IsSettled existing (path ∷ paths) missing =
        elim (Option-cases (lookup (base_name path) existing)) [
          | inl e ↦ rw (missing_assets, e) (missing_assets-IsSettled existing paths _)
          | inr (asset, e) ↦
              rw (missing_assets, e)
                (chain (observe_leads fine _)
                  (λ _. missing_assets-IsSettled existing paths missing))
        ]

    upload_all-IsSettled :
        (url : Text) (missing : TextMap Text)
        → Leads IsSettled (upload_all world repository url missing) IsSettled
    unfolding upload_all
    upload_all-IsSettled url [] = pure_leads fine tt
    upload_all-IsSettled url ((name, path) ∷ missing) =
        chain (perform-IsSettled world (upload_asset url name path) refl refl refl)
          (λ _. upload_all-IsSettled url missing)

    publish_release-IsSettled :
        (release : PackageRelease)
        → Leads IsSettled (publish_release world repository release) IsSettled
    unfolding publish_release
    publish_release-IsSettled release = chain (observe_leads fine _) λ existing.
        chain (find_or_create-IsSettled release existing) λ (response, assets).
          chain (missing_assets-IsSettled assets _ []) λ missing. upload_all-IsSettled _ missing

    publish_releases-IsSettled :
        (releases : List PackageRelease)
        → Leads IsSettled (publish_releases world repository releases) IsSettled
    unfolding publish_releases
    publish_releases-IsSettled [] = pure_leads fine tt
    publish_releases-IsSettled (release ∷ releases) =
        chain (publish_release-IsSettled release) (λ _. publish_releases-IsSettled releases)

  pub publish_github_releases-IsSettled :
      (config : NormalizedConfig) (plan : ReleasePlan) (token : Text)
      → Leads IsSettled (publish_github_releases world config plan token) IsSettled
  unfolding publish_github_releases
  publish_github_releases-IsSettled config plan token = when_leads fine _ (pure_leads fine tt) (
      look_leads fine _ λ token. when_leads fine _ (raise_leads fine _) (
        chain (when_leads fine _ (query_leads fine world _) (pure_leads fine _)) λ repository.
          when_leads fine _ (raise_leads fine _) (publish_releases-IsSettled repository _)))
