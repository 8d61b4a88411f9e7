-- ===== src/Changelog/Groups.antt =====
-- The groups of internal/changelog/changelog.go.
use hooversion.Changelog.{
  CommitGroup, group_titles, other_changes, bucket_key, commits_of, buckets_from, group_if,
  titled_groups, group_commits,
}
use hooversion.Common.{
  ◌≡◌, refl, sym, ap, ◌∙◌, false, List, [], ◌∷◌, ◌++◌, append_assoc, append-nil, arith, filter,
}
use hooversion.Text.Laws.{text_eq_iff}
use hooversion.Text.Maps.{TextMap, lookup, insert, lookup-insert}
use hooversion.Text.{Text, codes, text_eq}
use hooversion.Types.{ParsedCommit}

-- The commits whose key is `key`, in their order.
abbrev pub with_key : Text → List ParsedCommit → List ParsedCommit
with_key key = filter (λ c. text_eq (bucket_key c) key)

commits_of-buckets_from :
    (key : Text) (commits : List ParsedCommit) (buckets : TextMap (List ParsedCommit))
    → commits_of (lookup key (buckets_from buckets commits))
      ≡ commits_of (lookup key buckets) ++ with_key key commits
unfolding buckets_from
commits_of-buckets_from key [] buckets = sym (append-nil _)
commits_of-buckets_from key (c ∷ commits) buckets =
    let k = bucket_key c in
    let old = commits_of (lookup k buckets) in
    let next = insert k (old ++ c ∷ []) buckets in
    ground (
      arith,
      commits_of-buckets_from key commits next,
      lookup-insert k key (old ++ c ∷ []) buckets,
      text_eq_iff k key,
      append_assoc old (c ∷ []) (with_key key commits),
    )

abbrev groups_spec : List ParsedCommit → List (Text × Text) → List CommitGroup
groups_spec commits [] = group_if other_changes (with_key other_changes commits)
groups_spec commits ((key, title) ∷ titles) =
    group_if title (with_key key commits) ++ groups_spec commits titles

titled_groups-spec :
    (commits : List ParsedCommit) (titles : List (Text × Text))
    → titled_groups (buckets_from [] commits) titles ≡ groups_spec commits titles
unfolding titled_groups lookup
titled_groups-spec commits [] =
    ap (group_if other_changes) (commits_of-buckets_from other_changes commits [])
titled_groups-spec commits ((key, title) ∷ titles) =
    rw (commits_of-buckets_from key commits [], titled_groups-spec commits titles)

-- The groups are, in the fixed order of titles, those of breaking changes, features, fixes,
-- performance and other changes that are not empty, and each holds, in their order, the commits
-- with its key.
pub group_commits-with_key :
    (commits : List ParsedCommit)
    → group_commits commits
      ≡ group_if (codes "Breaking Changes") (with_key (codes "major") commits)
        ++ (group_if (codes "Features") (with_key (codes "feat") commits)
            ++ (group_if (codes "Bug Fixes") (with_key (codes "fix") commits)
                ++ (group_if (codes "Performance") (with_key (codes "perf") commits)
                    ++ group_if
                        (codes "Other Changes")
                        (with_key (codes "Other Changes") commits))))
unfolding group_commits
group_commits-with_key commits = titled_groups-spec commits group_titles

bucket_key-major :
    (c : ParsedCommit) → c.breaking ≡ false → c.kind ≡ codes "major" → bucket_key c ≡ codes "major"
unfolding bucket_key text_eq
bucket_key-major c b k = rw (b, k)

with_key-middle :
    (key : Text) (before : List ParsedCommit) (c : ParsedCommit) (after : List ParsedCommit)
    → bucket_key c ≡ key
    → with_key key (before ++ c ∷ after) ≡ with_key key before ++ c ∷ with_key key after
with_key-middle key [] c after e = ground (arith, text_eq_iff (bucket_key c) key)
with_key-middle key (d ∷ before) c after e = ground (arith, with_key-middle key before c after e)

group_if-middle :
    (title : Text) (before : List ParsedCommit) (c : ParsedCommit) (after : List ParsedCommit)
    → group_if title (before ++ c ∷ after)
      ≡ record { title = title; commits = before ++ c ∷ after } ∷ []
group_if-middle title [] c after = refl
group_if-middle title (d ∷ before) c after = refl

-- The groups behind the first.
abbrev pub later_groups : List ParsedCommit → List CommitGroup
later_groups commits =
    group_if (codes "Features") (with_key (codes "feat") commits)
    ++ (group_if (codes "Bug Fixes") (with_key (codes "fix") commits)
        ++ (group_if (codes "Performance") (with_key (codes "perf") commits)
            ++ group_if (codes "Other Changes") (with_key (codes "Other Changes") commits)))

-- A commit of the type "major" that is not breaking is listed in the first group, under the title of
-- the breaking changes, among the commits before and after it that are listed there, whatever
-- these are.
pub group_commits-major :
    (before : List ParsedCommit) (c : ParsedCommit) (after : List ParsedCommit)
    → c.breaking ≡ false
    → c.kind ≡ codes "major"
    → group_commits (before ++ c ∷ after)
      ≡ record {
        title = codes "Breaking Changes";
        commits = with_key (codes "major") before ++ c ∷ with_key (codes "major") after;
      }
        ∷ later_groups (before ++ c ∷ after)
group_commits-major before c after b k =
    let key = codes "major" in
    let first =
      ap (group_if (codes "Breaking Changes"))
        (with_key-middle key before c after (bucket_key-major c b k))
      ∙ group_if-middle (codes "Breaking Changes") (with_key key before) c (with_key key after) in
    group_commits-with_key (before ++ c ∷ after)
    ∙ ap (λ gs. gs ++ later_groups (before ++ c ∷ after)) first
