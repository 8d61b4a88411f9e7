-- ===== src/App/Queue.antt =====
-- internal/app/queue.go: the limits of a ReleaseTaskQueue, the retries of a task and the key of a
-- repository. An int is the bit pattern of a 64-bit word.
pub mod Limits
pub mod Chains
pub mod Pending
pub mod Workers
pub mod Order
pub mod Retries
mod Examples
use hooversion.Common.{
  ℕ, zero, suc, ◌+◌, ◌-◌, ◌^◌, Bool, true, false, ◌&&◌, ◌||◌, List, [], ◌∷◌, Option, none, some,
  leb, ltb, ◌==◌, if◌then◌else◌, take,
}
use hooversion.Text.{Text, to_lower, last_index}

abbrev pub is_negative : ℕ → Bool
is_negative n = leb (2 ^ 63) n

-- a < b in int
abbrev pub int_lt : ℕ → ℕ → Bool
int_lt a b =
    if is_negative a
    then (if is_negative b then ltb a b else true)
    else (if is_negative b then false else ltb a b)

-- clampInt
unfoldable pub clamp_int : ℕ → ℕ → ℕ → ℕ
clamp_int value min max = if int_lt value min then min else if int_lt max value then max else value

-- value <= 0 selects the default
abbrev pub or_positive : ℕ → ℕ → ℕ
or_positive value default = if is_negative value || value == 0 then default else value

-- The fields of QueueOptions, less the context.
pub record QueueOptions : Type 0 where
  pub max_concurrent : ℕ
  pub max_attempts : ℕ
  pub retry_delay_ms : ℕ
  pub max_pending : ℕ

-- what NewReleaseTaskQueue sets: the capacity of `slots` is max_concurrent
pub record QueueLimits : Type 0 where
  pub attempts : ℕ
  pub delay_ms : ℕ
  pub pending : ℕ
  pub concurrent : ℕ

-- NewReleaseTaskQueue
unfoldable pub new_release_task_queue : QueueOptions → QueueLimits
new_release_task_queue options =
    let pending = or_positive options.max_pending 64 in
    let concurrent = or_positive options.max_concurrent 4 in
    record {
      attempts = clamp_int options.max_attempts 1 3;
      delay_ms = clamp_int options.retry_delay_ms 0 30000;
      pending = pending;
      concurrent = if int_lt pending concurrent then pending else concurrent;
    }

-- How a call of runWithRetry ends, with the number of calls of the task.
pub data Outcome : Type 0 where
  succeeded interrupted : ℕ → Outcome
  failed : Text → ℕ → Outcome
  out_of_fuel : Outcome

-- What the loop observes at an attempt: the error of the task, if any, and whether the context is
-- done before the task, after it, and during the delay.
pub record Attempt : Type 0 where
  pub error : Option Text
  pub done_before : Bool
  pub done_after : Bool
  pub done_in_delay : Bool

-- the loop of runWithRetry
unfoldable pub retry_from : ℕ → ℕ → QueueLimits → (ℕ → Attempt) → Outcome
retry_from zero attempt limits observe = out_of_fuel
retry_from (suc fuel) attempt limits observe =
    let seen = observe attempt in
    let rest = retry_from fuel (suc attempt) limits observe in
    if seen.done_before then interrupted (attempt - 1) else elim seen.error [
      | none ↦ succeeded attempt
      | some e ↦
          if seen.done_after
          then interrupted attempt
          else if leb limits.attempts attempt
          then failed e attempt
          else if ltb 0 limits.delay_ms && seen.done_in_delay
          then interrupted attempt
          else rest
    ]

-- runWithRetry; as much fuel as there are attempts
unfoldable pub run_with_retry : QueueLimits → (ℕ → Attempt) → Outcome
run_with_retry limits observe = retry_from limits.attempts 1 limits observe

-- queueRepository
unfoldable pub queue_repository : (ℕ → ℕ) → Text → Text
queue_repository lower key = elim (last_index key b':') [
  | none ↦ key
  | some pos ↦ to_lower lower (take pos key)
]
