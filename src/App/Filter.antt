-- ===== src/App/Filter.antt =====
-- internal/app/filter.go: which workflow runs lead to a release, and the keys of a run. A payload
-- is one that DecodeWorkflowRunPayload has validated, so its numbers are not negative.
pub mod Acceptance
mod Examples
use hooversion.Common.{
  ℕ, ◌+◌, Bool, true, false, not, ◌&&◌, ◌||◌, List, [], ◌∷◌, ◌++◌, Option, none, some, map, leb,
  ltb, ◌==◌, if◌then◌else◌, length,
}
use hooversion.Text.Decimal.{format}
use hooversion.Text.{Text, codes, text_eq, contains, has_prefix, index, join}

pub record WebhookRepository : Type 0 where
  pub id : ℕ
  pub full_name : Text
  pub clone_url : Text
  pub default_branch : Text

-- A nil pointer is `none`; HasID is whether there is an `id`.
pub record WebhookWorkflowRun : Type 0 where
  pub name : Text
  pub event : Text
  pub conclusion : Option Text
  pub head_branch : Option Text
  pub head_sha : Text
  pub id : Option ℕ
  pub head_commit_msg : Text
  pub head_repository : Text

pub record WebhookPayload : Type 0 where
  pub action : Text
  pub repository : WebhookRepository
  pub installation : Option ℕ
  pub workflow_run : WebhookWorkflowRun

-- The fields of AppConfig that the filter reads.
pub record FilterConfig : Type 0 where
  pub allowed_repositories : List Text
  pub release_branches : List Text
  pub ci_workflow_names : List Text

-- WebhookDecision
pub data Decision : Type 0 where
  accepted : Decision
  ignored : Text → Decision

-- a line that starts with the text: a match of (?m)^
unfoldable pub has_line : Text → Text → Bool
unfolding has_prefix
has_line [] start = has_prefix [] start
has_line (c ∷ s) start = has_prefix (c ∷ s) start || has_line_below (c ∷ s) start
  where
    -- the lines behind the first line break
    has_line_below : Text → Text → Bool
    has_line_below [] start = false
    has_line_below (c ∷ s) start = (c == b'\n' && has_prefix s start) || has_line_below s start

-- the simple folding of (?i) on the letters of the pattern: U+017F folds to s and U+212A to k
abbrev fold : ℕ → ℕ
fold c =
    if leb b'A' c && leb c b'Z'
    then c + 32
    else if c == 0x17f
    then b's'
    else if c == 0x212a
    then b'k'
    else c

-- isReleaseCommit
unfoldable pub is_release_commit : Text → Bool
unfolding index
is_release_commit message =
    has_line message (codes "chore(release):")
    || elim (index (map fold message) (codes "[skip ci]")) [ none ↦ false | some i ↦ true ]

abbrev pub text_or : Option Text → Text → Text
text_or none default = default
text_or (some text) default = text

-- orDefault
abbrev or_default : Text → Text → Text
or_default [] fallback = fallback
or_default (c ∷ s) fallback = c ∷ s

abbrev is_success : Option Text → Bool
is_success none = false
is_success (some conclusion) = text_eq conclusion (codes "success")

abbrev is_missing : Option ℕ → Bool
is_missing none = true
is_missing (some id) = false

abbrev is_empty : List Text → Bool
is_empty [] = true
is_empty (x ∷ xs) = false

-- ShouldHandleWorkflowRun from the test of the fork on
unfoldable pub should_handle_repository : WebhookPayload → FilterConfig → Decision
should_handle_repository payload cfg =
    let run = payload.workflow_run in
    let full_name = payload.repository.full_name in
    if not (text_eq run.head_repository []) && not (text_eq run.head_repository full_name)
    then ignored (codes "workflow_run came from a fork")
    else if not (is_empty cfg.allowed_repositories)
        && not (contains cfg.allowed_repositories full_name)
    then ignored (codes "repository " ++ (full_name ++ codes " is not allowed"))
    else if is_release_commit run.head_commit_msg
    then ignored (codes "release commit")
    else if is_missing payload.installation
    then ignored (codes "missing installation id")
    else if text_eq run.head_sha []
    then ignored (codes "missing workflow head sha")
    else accepted

-- ShouldHandleWorkflowRun
unfoldable pub should_handle_workflow_run : WebhookPayload → FilterConfig → Decision
should_handle_workflow_run payload cfg =
    let run = payload.workflow_run in
    let branch = text_or run.head_branch [] in
    if not (text_eq payload.action (codes "completed"))
    then ignored (codes "workflow_run action is " ++ payload.action)
    else if not (is_success run.conclusion)
    then ignored (codes "workflow_run conclusion is " ++ text_or run.conclusion (codes "missing"))
    else if not (text_eq run.event (codes "push"))
    then ignored (codes "workflow_run event is " ++ run.event)
    else if not (contains cfg.ci_workflow_names run.name)
    then ignored (codes "workflow " ++ (run.name ++ codes " is not configured for releases"))
    else if text_eq branch [] || not (contains cfg.release_branches branch)
    then ignored (
        codes "branch "
        ++ (or_default branch (codes "missing") ++ codes " is not a release branch"))
    else should_handle_repository payload cfg

abbrev id_or_sha : Option ℕ → Text → Text
id_or_sha none sha = sha
id_or_sha (some id) sha = format id

-- WorkflowRunKey
unfoldable pub workflow_run_key : WebhookPayload → Text
workflow_run_key payload =
    let run = payload.workflow_run in
    join
      (payload.repository.full_name
        ∷ id_or_sha run.id run.head_sha
        ∷ run.name
        ∷ text_or run.head_branch []
        ∷ [])
      (codes ":")

-- releaseQueueKey
unfoldable pub release_queue_key : WebhookPayload → Text
release_queue_key payload =
    payload.repository.full_name ++ (codes ":" ++ text_or payload.workflow_run.head_branch [])
