-- ===== src/App/Queue/Retries.antt =====
-- The attempts of runWithRetry of internal/app/queue.go.
use hooversion.App.Queue.{
  QueueLimits, Outcome, succeeded, interrupted, failed, out_of_fuel, Attempt, retry_from,
  run_with_retry,
}
use hooversion.Common.{
  ◌⊎◌, ◌-◌, subst, and-elim, true, ℕ, zero, suc, ◌+◌, ◌≤◌, ◌<◌, ◌≡◌, ◌≢◌, sym, ap, ◌∙◌,
  none-ne-some, ◌&&◌, none, some, arith, ltb, leb, Bool-cases, Option-cases, inl, inr,
}
use hooversion.Text.{Text}

-- The queue was found stopped after `n` attempts: before the next one, behind the last one, or in
-- the delay between the two, which comes only where another attempt is allowed.
abbrev pub IsStopped : QueueLimits → (ℕ → Attempt) → ℕ → Type 0
IsStopped limits observe n =
    ((observe (suc n)).done_before ≡ true)
    ⊎ ((1 ≤ n) × ((observe n).done_after ≡ true))
    ⊎ ((1 ≤ n) × (n < limits.attempts) × (0 < limits.delay_ms) × ((observe n).done_in_delay ≡ true))

-- What an outcome after an attempt means: a success is the first attempt without an error, and a
-- failure is the error of the last attempt that the limits allow; an interruption is at a point
-- where the queue is stopped.
abbrev pub IsJustified : QueueLimits → (ℕ → Attempt) → Outcome → Type 0
IsJustified limits observe (succeeded n) =
    (1 ≤ n)
    × (n ≤ limits.attempts)
    × ((observe n).error ≡ none)
    × ((k : ℕ) → 1 ≤ k → k < n → (observe k).error ≢ none)
IsJustified limits observe (interrupted n) =
    IsStopped limits observe n
    × (n ≤ limits.attempts)
    × ((k : ℕ) → 1 ≤ k → k ≤ n → (observe k).error ≢ none)
IsJustified limits observe (failed e n) =
    (n ≡ limits.attempts)
    × ((observe n).error ≡ some e)
    × ((k : ℕ) → 1 ≤ k → k ≤ n → (observe k).error ≢ none)
IsJustified limits observe out_of_fuel = ⊥

module _ (limits : QueueLimits) (observe : ℕ → Attempt) where
  pred_suc : (n : ℕ) → 1 ≤ n → n ≡ suc (n - 1)
  pred_suc n l = omega arith

  -- An attempt that fails after failures.
  extend :
      (attempt : ℕ) (x : Text)
      → ((k : ℕ) → 1 ≤ k → k < attempt → (observe k).error ≢ none)
      → (observe attempt).error ≡ some x
      → (k : ℕ) → 1 ≤ k
      → k ≤ attempt
      → (observe k).error ≢ none
  extend attempt x earlier e k p q h = elim (Bool-cases (ltb k attempt)) [
    | inl b ↦ earlier k p (ground arith) h
    | inr b ↦
        let same : k ≡ attempt = ground arith in
        none-ne-some (sym h ∙ ap (λ n. (observe n).error) same ∙ e)
  ]

  retry_from-IsJustified :
      (fuel attempt : ℕ)
      → 1 ≤ attempt
      → attempt ≤ limits.attempts
      → fuel + attempt ≡ suc limits.attempts
      → ((k : ℕ) → 1 ≤ k → k < attempt → (observe k).error ≢ none)
      → IsJustified limits observe (retry_from fuel attempt limits observe)
  unfolding retry_from
  retry_from-IsJustified zero attempt l u f earlier = absurd (omega arith)
  retry_from-IsJustified (suc fuel) attempt l u f earlier =
      let seen = observe attempt in
      elim (Bool-cases seen.done_before) [
        | inl b ↦
            rw (retry_from, b)
              (
                inl (subst (λ n. (observe n).done_before ≡ true) (pred_suc attempt l) b),
                omega arith,
                λ k p q. earlier k p (omega arith),
              )
        | inr b ↦ elim (Option-cases seen.error) [
          | inl e ↦ rw (retry_from, b, e) (l, u, e, earlier)
          | inr (x, e) ↦
              let all = extend attempt x earlier e in
              elim (Bool-cases seen.done_after) [
                | inl a ↦ rw (retry_from, b, e, a) (inr (inl (l, a)), u, all)
                | inr a ↦ elim (Bool-cases (leb limits.attempts attempt)) [
                  | inl m ↦ rw (retry_from, b, e, a, m) (ground arith, e, all)
                  | inr m ↦ elim (Bool-cases (ltb 0 limits.delay_ms && seen.done_in_delay)) [
                    | inl d ↦
                        let (delayed, stopped) = and-elim (ltb 0 limits.delay_ms) _ d in
                        rw (retry_from, b, e, a, m, d)
                          (inr (inr (l, ground arith, ground arith, stopped)), u, all)
                    | inr d ↦
                        rw (retry_from, b, e, a, m, d)
                          (retry_from-IsJustified fuel (suc attempt) (omega arith) (ground arith)
                            (omega arith) (λ k p q. all k p (omega arith)))
                  ]
                ]
              ]
        ]
      ]

-- Let the queue allow at least one attempt. Then runWithRetry ends within the attempts that it
-- allows: with the first attempt that has no error, with the error of the last attempt allowed, or
-- interrupted where the queue was found stopped, and all attempts before have failed.
pub run_with_retry-IsJustified :
    (limits : QueueLimits) (observe : ℕ → Attempt)
    → 1 ≤ limits.attempts
    → IsJustified limits observe (run_with_retry limits observe)
unfolding run_with_retry
run_with_retry-IsJustified limits observe l =
    retry_from-IsJustified limits observe limits.attempts 1 (omega arith) l (omega arith)
      (λ k p q. absurd (omega arith))
