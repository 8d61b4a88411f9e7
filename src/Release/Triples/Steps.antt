-- ===== src/Release/Triples/Steps.antt =====
-- Where the steps of the pipeline of internal/release end: commands, hooks, phases and rollback.
use hooversion.Common.{
  ◌≡◌, inl, inr, refl, true, false, List, [], ◌∷◌, Option, none, some, arith, Result, ok, err,
  Bool-cases,
}
use hooversion.Git
use hooversion.Git.{Runner}
use hooversion.Release.Effects.{
  Phase, Effect, push, save_journal, save_failed, to_result, remove_journal, sync_metadata,
  run_hook, World, RunState, Action, modify, perform, git_perform, perform_hook, run_hooks, ◌>>=◌,
}
use hooversion.Release.Journals.{save, save_effect, advance, finish}
use hooversion.Release.Publication.{
  is_publication, is_rollback, is_removal, keeps_record, is_recorded, is_safe,
}
use hooversion.Release.Recovery.{is_irreversible}
use hooversion.Release.Stages.{perform_all}
use hooversion.Release.Triples.{
  IsQuiet, IsSettled, IsOpen, quiet, settled, IsFine, quiet-IsFine, settled-IsFine, open-IsFine,
  Ends, ends_same, Leads, chain, Fine, extended-IsQuiet, extended-IsSettled, perform-IsQuiet,
  perform-IsSettled, IsOpen-leads, pure_leads,
}
use hooversion.Release.{Error}
use hooversion.Text.{Text}

weaken_end :
    {A : Type 0} {Q R : RunState → Type 0}
    → ((s : RunState) → Q s → R s)
    → (r : Result Error A × RunState) → Ends Q r
    → Ends R r
weaken_end f (ok a, s) h = f s h
weaken_end f (err e, s) h = h

pub weaken :
    {A : Type 0} {P Q R : RunState → Type 0} {m : Action A}
    → ((s : RunState) → Q s → R s)
    → Leads P m Q
    → Leads P m R
weaken {m} f h = record { run = λ s p. weaken_end f (m s) (h.run s p) }

pub strengthen :
    {A : Type 0} {P Q R : RunState → Type 0} {m : Action A}
    → ((s : RunState) → P s → Q s)
    → Leads Q m R
    → Leads P m R
strengthen f h = record { run = λ s p. h.run s (f s p) }

-- From an open state to an open state, by both cases.
pub IsOpen-both :
    {A : Type 0} {m : Action A}
    → Leads IsQuiet m IsQuiet
    → Leads IsSettled m IsSettled
    → Leads IsOpen m IsOpen
IsOpen-both h k = IsOpen-leads (weaken (λ s q. quiet q) h) (weaken (λ s q. settled q) k)

abbrev in_phase : Phase → RunState → RunState
in_phase phase s = record s { journal = record s.journal { phase = phase } }

extended_fine :
    (e : Effect) (s : RunState)
    → is_publication e ≡ false
    → is_rollback e ≡ false
    → keeps_record e ≡ true
    → IsFine s
    → IsFine (record s { trace = e ∷ s.trace })
unfolding is_safe
extended_fine e s p r k h = record {
  reversible = ground (arith, h.reversible);
  fine_safe = ground (arith, h.fine_safe);
}

module _ (world : World) where
  pub git_perform-IsQuiet :
      (start : Runner → List Text → Result hooversion.Git.Error Text) (mark : List Text → Effect)
      (args : List Text)
      → is_publication (mark args) ≡ false
      → Leads IsQuiet (git_perform world start mark args) IsQuiet
  unfolding git_perform
  git_perform-IsQuiet start mark args p = record {
    run = λ s h.
        let after = extended-IsQuiet (mark args) s p h in
        ends_same IsQuiet (git_perform world start mark args s).0
          (record s { trace = mark args ∷ s.trace }) after (quiet-IsFine after);
  }

  pub push-IsSettled :
      (start : Runner → List Text → Result hooversion.Git.Error Text) (args : List Text)
      → Leads IsSettled (git_perform world start push args) IsSettled
  unfolding git_perform
  push-IsSettled start args = record {
    run = λ s h.
        let after = extended-IsSettled (push args) s refl refl refl h in
        ends_same IsSettled (git_perform world start push args s).0
          (record s { trace = push args ∷ s.trace }) after (settled-IsFine after);
  }

  perform_hook-IsQuiet : (hook : Text) → Leads IsQuiet (perform_hook world hook) IsQuiet
  unfolding perform_hook
  perform_hook-IsQuiet hook = record {
    run = λ s h.
        let after = extended-IsQuiet (run_hook _ hook) s refl h in
        ends_same IsQuiet (perform_hook world hook s).0 (perform_hook world hook s).1 after
          (quiet-IsFine after);
  }

  perform_hook-IsSettled : (hook : Text) → Leads IsSettled (perform_hook world hook) IsSettled
  unfolding perform_hook
  perform_hook-IsSettled hook = record {
    run = λ s h.
        let after = extended-IsSettled (run_hook _ hook) s refl refl refl h in
        ends_same IsSettled (perform_hook world hook s).0 (perform_hook world hook s).1 after
          (settled-IsFine after);
  }

  pub run_hooks-IsQuiet : (hooks : List Text) → Leads IsQuiet (run_hooks world hooks) IsQuiet
  unfolding run_hooks
  run_hooks-IsQuiet [] = pure_leads (λ s. quiet-IsFine) tt
  run_hooks-IsQuiet (hook ∷ hooks) =
      chain (perform_hook-IsQuiet hook) (λ _. run_hooks-IsQuiet hooks)

  run_hooks-IsSettled : (hooks : List Text) → Leads IsSettled (run_hooks world hooks) IsSettled
  unfolding run_hooks
  run_hooks-IsSettled [] = pure_leads (λ s. settled-IsFine) tt
  run_hooks-IsSettled (hook ∷ hooks) =
      chain (perform_hook-IsSettled hook) (λ _. run_hooks-IsSettled hooks)

  pub run_hooks-IsOpen : (hooks : List Text) → Leads IsOpen (run_hooks world hooks) IsOpen
  run_hooks-IsOpen hooks = IsOpen-both (run_hooks-IsQuiet hooks) (run_hooks-IsSettled hooks)

  pub perform-IsOpen :
      (e : Effect)
      → is_publication e ≡ false
      → is_rollback e ≡ false
      → keeps_record e ≡ true
      → is_removal e ≡ false
      → Leads IsOpen (perform world e) IsOpen
  perform-IsOpen e p r k d =
      IsOpen-both (perform-IsQuiet world e p) (perform-IsSettled world e r k d)

  pub perform_all_leads :
      {A : Type 0} {P : RunState → Type 0} (fine : Fine P) (f : A → Action (Unit {0}))
      → ((a : A) → Leads P (f a) P)
      → (xs : List A) → Leads P (perform_all world f xs) P
  perform_all_leads fine f h [] = pure_leads fine tt
  perform_all_leads fine f h (x ∷ xs) = chain (h x) (λ _. perform_all_leads fine f h xs)

  saved-IsQuiet :
      (s : RunState) (outcome : Option Error)
      → IsQuiet s
      → Ends IsQuiet
          (to_result outcome, record s { trace = save_effect s.journal outcome ∷ s.trace })
  saved-IsQuiet s none h = extended-IsQuiet (save_journal s.journal) s refl h
  saved-IsQuiet s (some e) h = quiet-IsFine (extended-IsQuiet (save_failed s.journal) s refl h)

  pub save-IsQuiet : Leads IsQuiet (save world) IsQuiet
  unfolding save
  save-IsQuiet = record {
    run = λ s h. elim (Bool-cases (world.fits_journal s.journal)) [
      | inl e ↦
          let outcome = world.outcome s.trace (save_journal s.journal) in
          rw (save, e) (saved-IsQuiet s outcome h)
      | inr e ↦ rw (save, e) (quiet-IsFine h)
    ];
  }

  pub advance-IsQuiet : (phase : Phase) → Leads IsQuiet (advance world phase) IsQuiet
  unfolding advance ◌>>=◌ modify
  advance-IsQuiet phase = record {
    run = λ s h.
        save-IsQuiet.run (in_phase phase s)
          (record { untouched = h.untouched; quiet_safe = h.quiet_safe });
  }

  -- a save that failed settles nothing, but the journal in memory keeps the run from a rollback
  saved-IsSettled :
      (s : RunState) (outcome : Option Error)
      → is_irreversible s.journal.phase ≡ true
      → is_safe s.trace ≡ true
      → Ends IsSettled
          (to_result outcome, record s { trace = save_effect s.journal outcome ∷ s.trace })
  unfolding is_safe is_recorded
  saved-IsSettled s none e h = record {
    fixed = e;
    recorded = e;
    settled_safe = ground (arith, e, h);
  }
  saved-IsSettled s (some x) e h = record { reversible = inr e; fine_safe = ground (arith, e, h) }

  save-IsSettled :
      (s : RunState)
      → is_irreversible s.journal.phase ≡ true
      → is_safe s.trace ≡ true
      → Ends IsSettled (save world s)
  unfolding save
  save-IsSettled s e h = elim (Bool-cases (world.fits_journal s.journal)) [
    | inl f ↦ rw (save, f) (saved-IsSettled s (world.outcome s.trace (save_journal s.journal)) e h)
    | inr f ↦ rw (save, f) (record { reversible = inr e; fine_safe = h })
  ]

  -- The phases of no return settle the journal.
  pub advance-IsSettled :
      (phase : Phase) → is_irreversible phase ≡ true → Leads IsOpen (advance world phase) IsSettled
  unfolding advance ◌>>=◌ modify
  advance-IsSettled phase e = record {
    run = λ s o. save-IsSettled (in_phase phase s) e (open-IsFine o).fine_safe;
  }

  perform_fine :
      (e : Effect)
      → is_publication e ≡ false
      → is_rollback e ≡ false
      → keeps_record e ≡ true
      → Leads IsFine (perform world e) IsFine
  unfolding perform
  perform_fine e p r k = record {
    run = λ s h.
        let after = extended_fine e s p r k h in
        ends_same IsFine (perform world e s).0 (record s { trace = e ∷ s.trace }) after after;
  }

  pub finish_fine : Leads IsFine (finish world) IsFine
  unfolding finish
  finish_fine =
      chain (perform_fine remove_journal refl refl refl)
        (λ _. perform_fine sync_metadata refl refl refl)
