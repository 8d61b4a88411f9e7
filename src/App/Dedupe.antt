-- ===== src/App/Dedupe.antt =====
-- internal/app/dedupe.go: WebhookDeduper. An operation runs under its mutex, so it is one step. A
-- time is a number of nanoseconds, and an operation takes what its readings of the clock gave.
pub mod Exclusion
mod Examples
use hooversion.Common.{
  ℕ, ◌+◌, ◌*◌, Bool, true, false, not, List, [], ◌∷◌, Option, none, some, leb, ltb, if◌then◌else◌,
}
use hooversion.Text.Maps.{TextMap, lookup, insert, delete}
use hooversion.Text.{Text, text_eq}

-- 24 hours
abbrev pub default_dedupe_ttl : ℕ
default_dedupe_ttl = 24 * 3600000000000

pub data DedupeState : Type 0 where
  in_flight succeeded : DedupeState

pub record DedupeEntry : Type 0 where
  pub state : DedupeState
  pub expires_at : ℕ

pub record WebhookDeduper : Type 0 where
  pub seen : TextMap DedupeEntry
  pub ttl : ℕ

-- NewWebhookDeduper; a negative lifetime counts as 0
unfoldable pub new_webhook_deduper : ℕ → WebhookDeduper
new_webhook_deduper ttl = record { seen = []; ttl = if leb ttl 0 then default_dedupe_ttl else ttl }

-- valid
abbrev pub is_valid_key : Text → Bool
is_valid_key key = not (text_eq key [])

-- !entry.expiresAt.After(now)
abbrev pub is_expired : ℕ → DedupeEntry → Bool
is_expired now entry = leb entry.expires_at now

-- the loop of prune, over entries in any order
unfoldable pub prune : ℕ → TextMap DedupeEntry → TextMap DedupeEntry
prune now [] = []
prune now ((key, entry) ∷ seen) =
    if is_expired now entry then prune now seen else (key, entry) ∷ prune now seen

reserve_pruned : ℕ → Text → WebhookDeduper → TextMap DedupeEntry → Bool × WebhookDeduper
reserve_pruned now key d seen = elim (lookup key seen) [
  | some entry ↦ (false, record d { seen = seen })
  | none ↦ (
    true,
    record d { seen = insert key (record { state = in_flight; expires_at = now + d.ttl }) seen },
  )
]

-- Reserve; prune reads the clock at `pruned` and the new entry is stamped at `now`
unfoldable pub reserve : ℕ → ℕ → Text → WebhookDeduper → Bool × WebhookDeduper
unfolding reserve_pruned text_eq
reserve pruned now key d =
    if is_valid_key key then reserve_pruned now key d (prune pruned d.seen) else (true, d)

succeed_entry : ℕ → Text → WebhookDeduper → Option DedupeEntry → WebhookDeduper
succeed_entry now key d none = d
succeed_entry now key d (some entry) = record d {
  seen = insert key (record { state = succeeded; expires_at = now + d.ttl }) d.seen;
}

-- Succeed
unfoldable pub succeed : ℕ → Text → WebhookDeduper → WebhookDeduper
unfolding succeed_entry text_eq
succeed now key d = if is_valid_key key then succeed_entry now key d (lookup key d.seen) else d

-- Release
unfoldable pub release : Text → WebhookDeduper → WebhookDeduper
unfolding text_eq
release key d = if is_valid_key key then record d { seen = delete key d.seen } else d

-- State
unfoldable pub state_of : Text → WebhookDeduper → Option DedupeState
state_of key d = elim (lookup key d.seen) [ none ↦ none | some entry ↦ some entry.state ]

-- One call of the service, with its readings of the clock.
pub data Call : Type 0 where
  reserve_call : (pruned now : ℕ) (key : Text) → Call
  succeed_call : (now : ℕ) (key : Text) → Call
  release_call : (key : Text) → Call

unfoldable pub apply_call : Call → WebhookDeduper → WebhookDeduper
apply_call (reserve_call pruned now key) d = let (accepted, next) = reserve pruned now key d in next
apply_call (succeed_call now key) d = succeed now key d
apply_call (release_call key) d = release key d

unfoldable pub apply_calls : List Call → WebhookDeduper → WebhookDeduper
apply_calls [] d = d
apply_calls (call ∷ calls) d = apply_calls calls (apply_call call d)
