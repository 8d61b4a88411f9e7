-- ===== src/Release/Execute/DryRun.antt =====
-- internal/release/release.go: a dry run of Execute takes the lock and changes nothing else.
use hooversion.Git
use hooversion.Release.Resume.Transition
use hooversion.Text.{Text, trim_space}
use hooversion.Common.{
  ◌⊎◌, inl, inr, ap, ◌∷◌, ◌≡◌, refl, ◌∙◌, Bool, true, false, not, Option, none, some, Result, ok,
  err,
}
use hooversion.Release.Effects.{
  acquire_lock, query, perform, Journal, Trace, World, RunState, Action, pure, raise, modify,
  observe, look, when◌then◌else◌, continue_with, ◌>>=◌,
}
use hooversion.Release.Execute.{begin, check, execute, execute_opened, open_transaction, lock_path}
use hooversion.Release.Journals.{load, load_stored}
use hooversion.Release.Stages.{Options}
use hooversion.Release.{Error, recovery_pending}
use hooversion.Types.{NormalizedConfig, ReleasePlan}

-- The action has no effect.
abbrev Reads : {A : Type 0} → Action A → Type 0
Reads m = (s : RunState) → (m s).1.trace ≡ s.trace

continue-Reads :
    {A B : Type 0} (r : Result Error A × RunState) (f : A → Action B)
    → ((a : A) → Reads (f a))
    → (continue_with r f).1.trace ≡ r.1.trace
continue-Reads (ok a, s) f h = h a s
continue-Reads (err e, s) f h = refl

bind-Reads :
    {A B : Type 0} (m : Action A) (f : A → Action B)
    → Reads m
    → ((a : A) → Reads (f a))
    → Reads (m >>= f)
unfolding ◌>>=◌
bind-Reads m f h k s = continue-Reads (m s) f k ∙ h s

observe-Reads : {A : Type 0} (f : Trace → Result Error A) → Reads (observe f)
unfolding observe
observe-Reads f s = refl

pure-Reads : {A : Type 0} (a : A) → Reads (pure a)
unfolding pure
pure-Reads a s = refl

raise-Reads : (A : Type 0) (e : Error) → Reads (raise {A = A} e)
unfolding raise
raise-Reads A e s = refl

modify-Reads : (f : Journal → Journal) → Reads (modify f)
unfolding modify
modify-Reads f s = refl

when-Reads :
    {A : Type 0} (b : Bool) (m n : Action A) → Reads m → Reads n → Reads (when b then m else n)
unfolding when◌then◌else◌
when-Reads true m n h k = h
when-Reads false m n h k = k

when_first :
    {A : Type 0} (b : Bool) (m n : Action A) → b ≡ true → Reads m → Reads (when b then m else n)
unfolding when◌then◌else◌
when_first true m n e h = h
when_first false m n e h = cc

-- The action takes the lock at most.
abbrev Locks : {A : Type 0} → Action A → Type 0
Locks m =
    (s : RunState)
    → ((m s).1.trace ≡ s.trace)
      ⊎ ((common : Text) × ((m s).1.trace ≡ acquire_lock (lock_path common) ∷ s.trace))

bind-Locks :
    {A B : Type 0} (m : Action A) (f : A → Action B)
    → Locks m
    → ((a : A) → Reads (f a))
    → Locks (m >>= f)
unfolding ◌>>=◌
bind-Locks m f h k s = elim (h s) [
  | inl e ↦ inl (continue-Reads (m s) f k ∙ e)
  | inr (common, e) ↦ inr (common, continue-Reads (m s) f k ∙ e)
]

continue-Locks :
    {A B : Type 0} (r : Result Error A × RunState) (f : A → Action B) (before : Trace)
    → r.1.trace ≡ before
    → ((a : A) → Locks (f a))
    → ((continue_with r f).1.trace ≡ before)
      ⊎ ((common : Text) × ((continue_with r f).1.trace ≡ acquire_lock (lock_path common) ∷ before))
continue-Locks (ok a, s) f before e h = elim (h a s) [
  | inl x ↦ inl (x ∙ e)
  | inr (common, x) ↦ inr (common, x ∙ ap (◌∷◌ (acquire_lock (lock_path common))) e)
]
continue-Locks (err x, s) f before e h = inl e

bind-first :
    {A B : Type 0} (m : Action A) (f : A → Action B)
    → Reads m
    → ((a : A) → Locks (f a))
    → Locks (m >>= f)
unfolding ◌>>=◌
bind-first m f h k s = continue-Locks (m s) f s.trace (h s) k

query-Reads :
    {A : Type 0} (world : World)
    (f : hooversion.Release.Resume.Transition.Sources → Result hooversion.Git.Error A)
    → Reads (query world f)
unfolding query
query-Reads world f s = refl

perform-Locks :
    (world : World) (common : Text) → Locks (perform world (acquire_lock (lock_path common)))
unfolding perform
perform-Locks world common s = inr (common, refl)

module _ (world : World) (config : NormalizedConfig) where
  load_stored-Reads :
      (stored : Result Error (Option Journal)) → Reads (load_stored world config stored)
  unfolding load_stored
  load_stored-Reads (err e) = raise-Reads Bool e
  load_stored-Reads (ok none) = pure-Reads false
  load_stored-Reads (ok (some journal)) =
      bind-Reads (modify (λ _. journal)) _ (modify-Reads (λ _. journal))
        (λ _. bind-Reads _ (λ _. pure true) (observe-Reads _) (λ _. pure-Reads true))

  load-Reads : Reads (load world config)
  unfolding load look
  load-Reads s = load_stored-Reads (world.stored s.trace) s

  begin-Reads :
      (plan : ReleasePlan) (o : Options) → o.dry_run ≡ true → Reads (begin world config plan o)
  unfolding begin
  begin-Reads plan o dry = bind-Reads (load world config) _ load-Reads λ existing.
      when-Reads (not existing) (pure (plan, true)) _ (pure-Reads (plan, true))
        (when_first o.dry_run (raise recovery_pending) _ dry (raise-Reads _ recovery_pending))

  check-Reads : (plan : ReleasePlan) → Reads (check world config plan)
  unfolding check
  check-Reads plan = bind-Reads _ _ (observe-Reads _) λ resumable.
      bind-Reads _ _ (observe-Reads _) λ _.
        bind-Reads _ _ (observe-Reads _)
          λ _. bind-Reads _ (λ _. pure resumable) (observe-Reads _) (λ _. pure-Reads resumable)

  execute_opened-Reads :
      (plan : ReleasePlan) (o : Options)
      → o.dry_run ≡ true
      → Reads (execute_opened world config plan o)
  unfolding execute_opened
  execute_opened-Reads plan o dry =
      bind-Reads (begin world config plan o) _ (begin-Reads plan o dry) (λ (planned, own).
        bind-Reads _ _ (observe-Reads _) λ derived.
          bind-Reads _ _ (check-Reads _)
            λ resumable. when_first o.dry_run (pure _) _ dry (pure-Reads _))

  open_transaction-Locks : Locks (open_transaction world)
  unfolding open_transaction
  open_transaction-Locks = bind-first _ _ (query-Reads world _) λ common.
      bind-Locks _ _ (perform-Locks world (trim_space common))
        (λ _. bind-Reads _ _ (query-Reads world _) λ git_dir. observe-Reads _)

  -- A dry run of Execute performs no effect but that of taking the lock of the release, whatever
  -- the world shows: it commits, tags, pushes, writes and restores nothing, and saves no journal.
  pub execute-dry_run :
      (plan : ReleasePlan) (o : Options) (s : RunState)
      → o.dry_run ≡ true
      → ((execute world config plan o s).1.trace ≡ s.trace)
        ⊎ ((common : Text) × ((execute world config plan o s).1.trace
              ≡ acquire_lock (lock_path common) ∷ s.trace))
  unfolding execute
  execute-dry_run plan o s dry =
      bind-Locks _ _ open_transaction-Locks (λ _. execute_opened-Reads plan o dry) s
