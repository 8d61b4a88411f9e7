-- ===== src/Release/Triples.antt =====
-- Statements about the actions of internal/release: what holds of the state where an action ends.
-- An action that fails may end in any state from which the deferred abort is safe.
pub mod Steps
pub mod Rollbacks
use hooversion.Common.{
  ◌≡◌, ◌⊎◌, inl, inr, refl, Bool, true, false, not, ◌&&◌, ◌||◌, List, [], ◌∷◌, Option, none, some,
  arith, if◌then◌else◌, Result, ok, err, Bool-cases,
}
use hooversion.Git
use hooversion.Git.{Runner}
use hooversion.Release.Effects.{
  Phase, Journal, Effect, save_journal, run_hook, Trace, World, RunState, Action, pure, raise,
  modify, query, observe, to_result, perform, git_perform, perform_hook, run_hooks, check_identity,
  continue_with, ◌>>=◌, ◌>>◌, when◌then◌else◌, look,
}
use hooversion.Release.Journals.{save, advance}
use hooversion.Release.Publication.{
  is_publication, is_rollback, is_removal, keeps_record, attempted, is_recorded, is_safe, allowed,
  recorded_after_keeps,
}
use hooversion.Release.Recovery.{is_irreversible, with_journal}
use hooversion.Release.{Error}
use hooversion.Text.{Text}

-- Nothing was published.
pub record IsQuiet (s : RunState) : Type 0 where
  pub untouched : attempted s.trace ≡ false
  pub quiet_safe : is_safe s.trace ≡ true

-- The journal says, in memory and on disk, that something may be published.
pub record IsSettled (s : RunState) : Type 0 where
  pub fixed : is_irreversible s.journal.phase ≡ true
  pub recorded : is_recorded s.trace ≡ true
  pub settled_safe : is_safe s.trace ≡ true

-- Before or after the point of no return.
pub data IsOpen (s : RunState) : Type 0 where
  quiet : IsQuiet s → IsOpen s
  settled : IsSettled s → IsOpen s

-- A state from which the abort of the run is safe.
pub record IsFine (s : RunState) : Type 0 where
  pub reversible : (attempted s.trace ≡ false) ⊎ (is_irreversible s.journal.phase ≡ true)
  pub fine_safe : is_safe s.trace ≡ true

pub quiet-IsFine : {s : RunState} → IsQuiet s → IsFine s
quiet-IsFine h = record { reversible = inl h.untouched; fine_safe = h.quiet_safe }

pub settled-IsFine : {s : RunState} → IsSettled s → IsFine s
settled-IsFine h = record { reversible = inr h.fixed; fine_safe = h.settled_safe }

pub open-IsFine : {s : RunState} → IsOpen s → IsFine s
open-IsFine (quiet h) = quiet-IsFine h
open-IsFine (settled h) = settled-IsFine h

abbrev pub Ends : {A : Type 0} → (RunState → Type 0) → Result Error A × RunState → Type 0
Ends Q (ok a, s) = Q s
Ends Q (err e, s) = IsFine s

-- From P the action ends in Q, or fails in a fine state.
pub record Leads {A : Type 0} (P : RunState → Type 0) (m : Action A) (Q : RunState → Type 0)
    : Type 0 where
  pub run : (s : RunState) → P s → Ends Q (m s)

continue_ends :
    {A B : Type 0} {Q R : RunState → Type 0} (r : Result Error A × RunState) (f : A → Action B)
    → Ends Q r
    → ((a : A) → Leads Q (f a) R)
    → Ends R (continue_with r f)
continue_ends (ok a, s) f h k = (k a).run s h
continue_ends (err e, s) f h k = h

-- One action after another.
pub chain :
    {A B : Type 0} {P Q R : RunState → Type 0} {m : Action A} {f : A → Action B}
    → Leads P m Q
    → ((a : A) → Leads Q (f a) R)
    → Leads P (m >>= f) R
unfolding ◌>>=◌
chain {m} {f} h k = record { run = λ s p. continue_ends (m s) f (h.run s p) k }

pub ends_same :
    {A : Type 0} (Q : RunState → Type 0) (r : Result Error A) (s : RunState)
    → Q s
    → IsFine s
    → Ends Q (r, s)
ends_same Q (ok a) s q f = q
ends_same Q (err e) s q f = f

-- A kind of state whose states are fine.
abbrev pub Fine : (RunState → Type 0) → Type 0
Fine P = (s : RunState) → P s → IsFine s

module _ {P : RunState → Type 0} (fine : Fine P) where
  -- What only reads leaves the state as it is.
  pub query_leads :
      {A : Type 0} (world : World)
      (f : hooversion.Release.Resume.Transition.Sources → Result hooversion.Git.Error A)
      → Leads P (query world f) P
  unfolding query
  query_leads world f = record { run = λ s p. ends_same P (query world f s).0 s p (fine s p) }

  pub observe_leads : {A : Type 0} (f : Trace → Result Error A) → Leads P (observe f) P
  unfolding observe
  observe_leads f = record { run = λ s p. ends_same P (f s.trace) s p (fine s p) }

  pub check_identity_leads : (world : World) → Leads P (check_identity world) P
  unfolding check_identity
  check_identity_leads world = record {
    run = λ s p. ends_same P (check_identity world s).0 s p (fine s p);
  }

  pub raise_leads : {A : Type 0} {Q : RunState → Type 0} (e : Error) → Leads {A = A} P (raise e) Q
  unfolding raise
  raise_leads e = record { run = λ s p. fine s p }

  pub pure_leads : {A : Type 0} (a : A) → Leads P (pure a) P
  unfolding pure
  pure_leads a = record { run = λ s p. p }

  pub when_leads :
      {A : Type 0} {Q : RunState → Type 0} (b : Bool) {m n : Action A}
      → Leads P m Q
      → Leads P n Q
      → Leads P (when b then m else n) Q
  unfolding when◌then◌else◌
  when_leads true h k = record { run = h.run }
  when_leads false h k = record { run = k.run }

  pub with_journal_leads :
      {A : Type 0} {Q : RunState → Type 0} {f : Journal → Action A}
      → ((journal : Journal) → Leads P (f journal) Q)
      → Leads P (with_journal f) Q
  unfolding with_journal
  with_journal_leads h = record { run = λ s p. (h s.journal).run s p }

  pub look_leads :
      {A B : Type 0} {Q : RunState → Type 0} (see : Trace → B) {f : B → Action A}
      → ((b : B) → Leads P (f b) Q)
      → Leads P (look see f) Q
  unfolding look
  look_leads see h = record { run = λ s p. (h (see s.trace)).run s p }

-- An effect of the run keeps a quiet state quiet unless it publishes.
pub extended-IsQuiet :
    (e : Effect) (s : RunState)
    → is_publication e ≡ false
    → IsQuiet s
    → IsQuiet (record s { trace = e ∷ s.trace })
unfolding is_safe
extended-IsQuiet e s p h = record {
  untouched = ground (arith, h.untouched);
  quiet_safe = ground (arith, h.untouched, h.quiet_safe);
}

pub extended-IsSettled :
    (e : Effect) (s : RunState)
    → is_rollback e ≡ false
    → keeps_record e ≡ true
    → is_removal e ≡ false
    → IsSettled s
    → IsSettled (record s { trace = e ∷ s.trace })
unfolding is_safe is_recorded
extended-IsSettled e s r k d h = record {
  fixed = h.fixed;
  recorded = recorded_after_keeps e (is_recorded s.trace) k d h.recorded;
  settled_safe = ground (arith, h.recorded, h.settled_safe);
}

module _ (world : World) where
  pub perform-IsQuiet :
      (e : Effect) → is_publication e ≡ false → Leads IsQuiet (perform world e) IsQuiet
  unfolding perform
  perform-IsQuiet e p = record {
    run = λ s h.
        let after = extended-IsQuiet e s p h in
        ends_same IsQuiet (perform world e s).0 (record s { trace = e ∷ s.trace }) after
          (quiet-IsFine after);
  }

  pub perform-IsSettled :
      (e : Effect)
      → is_rollback e ≡ false
      → keeps_record e ≡ true
      → is_removal e ≡ false
      → Leads IsSettled (perform world e) IsSettled
  unfolding perform
  perform-IsSettled e r k d = record {
    run = λ s h.
        let after = extended-IsSettled e s r k d h in
        ends_same IsSettled (perform world e s).0 (record s { trace = e ∷ s.trace }) after
          (settled-IsFine after);
  }

pub IsOpen-leads :
    {A : Type 0} {m : Action A} {Q : RunState → Type 0}
    → Leads IsQuiet m Q
    → Leads IsSettled m Q
    → Leads IsOpen m Q
IsOpen-leads {m} {Q} h k = record {
  run = λ s o. elim o [ quiet q ↦ h.run s q | settled q ↦ k.run s q ];
}
