-- ===== src/Release/Resume/Selection.antt =====
-- internal/release/resume.go: the packages and versions that the subject of a release commit names.
pub mod RoundTrip
use hooversion.Common.{
  ℕ, suc, Bool, true, false, not, ◌&&◌, ◌||◌, List, [], ◌∷◌, ◌++◌, Option, none, some, leb, ◌==◌,
  if◌then◌else◌, length, take, drop, Result, ok, err, ◌>>=◌, ◌>>=?◌,
}
use hooversion.Git.{has_text}
use hooversion.Plan.{tag_for}
use hooversion.Text.Maps.{TextMap, lookup, insert}
use hooversion.Text.{Text, codes, text_eq, cut_rune, last_index, cons_first}
use hooversion.Types.{NormalizedPackageConfig, NormalizedConfig}

-- releasePackage
pub record Selected : Type 0 where
  pub pkg : NormalizedPackageConfig
  pub next_version : Text
  pub tag : Text

-- the maps `packages` and `versions`, whose keys are the same
abbrev pub Known : Type 0
Known = TextMap (NormalizedPackageConfig × Text)

module _ (config : NormalizedConfig) (known : Known) where
  unfoldable pub select_one : Text → Text → Option Selected
  select_one name version = lookup name known >>=? λ (pkg, current).
      if text_eq current version
      then some (record { pkg = pkg; next_version = version; tag = tag_for config pkg version })
      else none

  -- "name version"
  unfoldable pub select_single : Text → Option (List Selected)
  select_single subject = cut_rune subject b' ' >>=? λ (name, version).
      if text_eq name [] || text_eq version []
      then none
      else (select_one name version >>=? λ selected. some (selected ∷ []))

  -- "name@version"
  unfoldable pub select_part : Text → Option Selected
  select_part part = last_index part b'@' >>=? λ at_sign.
      if at_sign == 0 || suc at_sign == length part
      then none
      else select_one (take at_sign part) (drop (suc at_sign) part)

  unfoldable pub select_parts : List Text → Option (List Selected)
  select_parts [] = some []
  select_parts (part ∷ parts) =
      select_part part >>=? λ selected. select_parts parts >>=? λ rest. some (selected ∷ rest)

-- strings.Split(s, ", ")
unfoldable pub split_comma : Text → List Text
split_comma [] = [] ∷ []
split_comma (c ∷ []) = (c ∷ []) ∷ []
split_comma (c ∷ d ∷ s) =
    let here = split_comma s in
    let later = split_comma (d ∷ s) in
    if c == b',' && d == b' ' then [] ∷ here else cons_first c later

-- the choice of packages by the subject behind its prefix
unfoldable pub select : NormalizedConfig → Known → Text → Option (List Selected)
unfolding select_one select_single select_part select_parts split_comma
select config known subject =
    if not (has_text subject (codes ", "))
    then select_single config known subject
    else (select_parts config known (split_comma subject) >>=? λ selected.
        if leb 2 (length selected) then some selected else none)
