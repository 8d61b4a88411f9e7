-- ===== src/App/Dedupe/Examples.antt =====
-- Tests of dedupe.go, and its theorems at concrete calls.
use hooversion.App.Dedupe.Exclusion.{reserve-excludes}
use hooversion.App.Dedupe.{
  WebhookDeduper, new_webhook_deduper, prune, reserve, succeed, release, state_of, Call,
  reserve_call, succeed_call, release_call, apply_calls, in_flight, succeeded,
}
use hooversion.Common.{◌≡◌, refl, true, false, List, [], ◌∷◌, none, some, arith}
use hooversion.Text.Maps.{lookup, insert, delete}
use hooversion.Text.{Text, codes, text_eq}

abbrev key : Text
key = codes "delivery-1"

abbrev fresh : WebhookDeduper
fresh = new_webhook_deduper 100

abbrev between : List Call
between =
    reserve_call 10 10 (codes "run-2") ∷ succeed_call 20 key ∷ release_call (codes "run-2") ∷ []

states :
    ((reserve 0 0 key fresh).0 ≡ true)
    × (state_of key (reserve 0 0 key fresh).1 ≡ some in_flight)
    × (state_of key (succeed 5 key (reserve 0 0 key fresh).1) ≡ some succeeded)
    × (state_of key (release key (reserve 0 0 key fresh).1) ≡ none)
    × ((reserve 100 100 key (reserve 0 0 key fresh).1).0 ≡ true)
unfolding new_webhook_deduper reserve prune lookup insert text_eq succeed release delete state_of
states = (refl, refl, refl, refl, refl)

reserve-excludes_example :
    (reserve 99 99 key (apply_calls between (reserve 0 0 key fresh).1)).0 ≡ false
unfolding new_webhook_deduper reserve prune lookup insert text_eq
reserve-excludes_example =
    reserve-excludes 0 0 99 99 key fresh between (ground arith) refl
      ((omega arith, omega arith), (omega arith, (ground arith, tt))) (omega arith)
