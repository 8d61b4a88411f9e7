-- ===== src/Release/Resume/Proven.antt =====
-- internal/release/resume.go: what the state of the repository proves of a plan that
-- DeriveResumableWithEnv reconstructs.
use hooversion.Common.{
  ◌≡◌, ◌≢◌, true, not, List, [], some, arith, All, ok, ◌>>=◌, bind-eq-ok, ok-injective, some-eq,
  subst, leb, length, drop,
}
use hooversion.Git.{ref_sha, head_sha, commit_message}
use hooversion.Release.Message.{
  without_squash_mark, release_commit_message, release_message_matches, split_subject_body, prefix,
}
use hooversion.Release.Resume.Selection.{Selected, select}
use hooversion.Release.Resume.Transition.{Sources}
use hooversion.Release.Resume.{
  known_packages, check_tags, releases_of, reconstructed, given, when, proven, derive_selected,
  derive_known, derive_message, derive_source, derive_resumable,
}
use hooversion.Release.{from_git}
use hooversion.Text.Laws.{text_eq_iff}
use hooversion.Text.{Text, codes, text_eq, has_prefix}
use hooversion.Types.{NormalizedConfig, PackageRelease, ReleasePlan}
use hooversion.Release.Resume.Chosen.{
  given-eq, when-eq, from_git-eq, IsFreeOrAt, check_tags-All, known_packages-AreRead, IsCurrent,
  IsChosen, select-All, releases_of-All,
}

-- What the repository proves of a reconstructed plan: HEAD has the parent that the plan calls its
-- source and the message that the plan has, and each release stands at the version of its manifest
-- with a tag that is absent or at HEAD.
pub record IsProven (s : Sources) (config : NormalizedConfig) (plan : ReleasePlan) : Type 0 where
  pub head : Text
  pub at_head : head_sha s.run ≡ ok head
  pub parent : ref_sha s.lower s.run (codes "HEAD^") ≡ ok plan.source_sha
  pub has_parent : plan.source_sha ≢ []
  pub message : Text
  pub read_message : commit_message s.run (codes "HEAD") ≡ ok message
  pub same_message : release_message_matches message (release_commit_message plan) ≡ true
  pub current : All (λ r. IsCurrent s config r.pkg r.next_version r.tag) plan.releases
  pub tags : All (λ r. IsFreeOrAt s head r.tag) plan.releases

-- Where the plan is compared with HEAD, after the tags and the transitions.
derive_selected-IsProven :
    (s : Sources) (config : NormalizedConfig) (head source body : Text) (selected : List Selected)
    {plan : ReleasePlan}
    → head_sha s.run ≡ ok head
    → ref_sha s.lower s.run (codes "HEAD^") ≡ ok source
    → source ≢ []
    → All (IsChosen s config) selected
    → derive_selected s config head source body selected ≡ ok (some plan)
    → IsProven s config plan
derive_selected-IsProven s config head source body selected {plan} eh es ns chosen h =
    let several = leb 2 (length selected) in
    let finish =
      λ (releases : List PackageRelease). proven s (reconstructed s config source releases) in
    let (_, checked, h1) =
      bind-eq-ok (check_tags s head selected)
        (λ _. given (releases_of s config several body selected) finish) {b = some plan} h in
    let (releases, e, h2) = given-eq (releases_of s config several body selected) finish h1 in
    let made = reconstructed s config source releases in
    let judge = λ (message : Text).
      when (release_message_matches message (release_commit_message made)) (ok (some made)) in
    let (message, em, h3) =
      bind-eq-ok (from_git (commit_message s.run (codes "HEAD"))) judge {b = some plan} h2 in
    let (same, k) = when-eq _ (ok (some made)) h3 in
    let free = check_tags-All s head selected checked in
    subst (IsProven s config) (some-eq (ok-injective k)) (record {
      head = head;
      at_head = eh;
      parent = unfold reconstructed in es;
      has_parent = unfold reconstructed in ns;
      message = message;
      read_message = from_git-eq _ em;
      same_message = same;
      current =
          unfold reconstructed in
          releases_of-All (IsCurrent s config) s config several body selected chosen e;
      tags =
          unfold reconstructed in
          releases_of-All (λ _ _ tag. IsFreeOrAt s head tag) s config several body selected free e;
    })

derive_message-IsProven :
    (s : Sources) (config : NormalizedConfig) (head source message : Text) {plan : ReleasePlan}
    → head_sha s.run ≡ ok head
    → ref_sha s.lower s.run (codes "HEAD^") ≡ ok source
    → source ≢ []
    → derive_message s config head source message ≡ ok (some plan)
    → IsProven s config plan
derive_message-IsProven s config head source message {plan} eh es ns h =
    let parts = split_subject_body message in
    let subject = drop (length prefix) (without_squash_mark parts.0) in
    let (_, h1) = when-eq (has_prefix (without_squash_mark parts.0) prefix) _ h in
    let (known, read, h2) =
      bind-eq-ok (known_packages s config.packages []) (derive_known s config head source parts)
        {b = some plan} h1 in
    let (selected, e, h3) =
      given-eq (select config known subject) (derive_selected s config head source parts.1) h2 in
    let all_read = known_packages-AreRead s config.packages [] read tt in
    let chosen = select-All s config known all_read subject e in
    derive_selected-IsProven s config head source parts.1 selected eh es ns chosen h3

-- DeriveResumableWithEnv reconstructs a plan only where the state of the repository proves it:
-- its source is the parent of HEAD, HEAD has its release message or that message with the mark of a
-- squash merge, and each of its releases has the version of its manifest, the tag of that version,
-- and this tag is absent or stands at HEAD.
pub derive_resumable-IsProven :
    (s : Sources) (config : NormalizedConfig) {plan : ReleasePlan}
    → derive_resumable s config ≡ ok (some plan)
    → IsProven s config plan
derive_resumable-IsProven s config {plan} h =
    let parent = from_git (ref_sha s.lower s.run (codes "HEAD^")) in
    let (head, eh, h1) =
      bind-eq-ok (from_git (head_sha s.run)) (λ head. parent >>= derive_source s config head)
        {b = some plan} (unfold derive_resumable in h) in
    let (source, es, h2) = bind-eq-ok parent (derive_source s config head) {b = some plan} h1 in
    let (there, h3) = when-eq (not (text_eq source [])) _ h2 in
    let (message, _, h4) =
      bind-eq-ok (from_git (commit_message s.run (codes "HEAD")))
        (derive_message s config head source) {b = some plan} h3 in
    let ns : source ≢ [] = ground (arith, text_eq_iff source []) in
    derive_message-IsProven s config head source message (from_git-eq _ eh) (from_git-eq _ es) ns h4
