-- ===== src/Release/Execute/Safety.antt =====
-- internal/release: Execute publishes by the rule of the journal, whatever the world does.
use hooversion.Common.{
  ◌≡◌, ◌⊎◌, inl, inr, refl, Bool, true, false, List, [], ◌++◌, Option, none, some, arith, any,
  Result, ok, err, subst, Bool-cases,
}
use hooversion.Release.Effects.{
  acquire_lock, Journal, clear_outputs, write_outputs, Trace, World, RunState, raise, pure,
}
use hooversion.Release.Execute.{
  open_transaction, execute_opened, begin, check, prepare, guarded, on_failure, run_release,
  execute, recovered_plan, journal_plan, failed,
}
use hooversion.Release.Journals.{load, load_stored, snapshot}
use hooversion.Release.Publication.{
  is_safe, is_safe-append, is_pending, is_recorded, attempted, is_rollback, pending-is_recorded,
  later-is_rollback,
}
use hooversion.Release.Recovery.{abort, ended, rollback, is_irreversible}
use hooversion.Release.Stages.{Options, Outcome}
use hooversion.Release.Triples.Rollbacks.{fine, modify-IsQuiet, rollback-IsQuiet, recover-IsQuiet}
use hooversion.Release.Triples.Steps.{save-IsQuiet, weaken, strengthen, finish_fine}
use hooversion.Release.Triples.{
  IsQuiet, IsFine, Ends, Leads, chain, perform-IsQuiet, query_leads, observe_leads, raise_leads,
  pure_leads, when_leads, look_leads, with_journal_leads,
}
use hooversion.Release.{Error, journal_mismatch}
use hooversion.Text.{Text}
use hooversion.Types.{NormalizedConfig, ReleasePlan}
use hooversion.Release.Execute.Staged.{make_release-IsQuiet, complete_tags-IsQuiet, publish_fine}

module _ (world : World) where
  guarded_fine :
      (config : NormalizedConfig) (plan : ReleasePlan) (o : Options) (resumable : Bool)
      → Leads IsQuiet (guarded world config plan o resumable) IsFine
  unfolding guarded
  guarded_fine config plan o resumable = chain (perform-IsQuiet world clear_outputs refl) λ _.
      when_leads fine _
        (chain
          (when_leads fine resumable ((complete_tags-IsQuiet world) plan)
            ((make_release-IsQuiet world) config plan))
          λ _. (publish_fine world) config plan o)
        (chain (perform-IsQuiet world (write_outputs _ false) refl)
          λ _. chain (strengthen fine (finish_fine world)) λ _. pure_leads (λ s h. h) _)

  ended_fine :
      (cause : Error) (r : Result Error (Unit {0}) × RunState)
      → Ends IsQuiet r
      → Ends IsFine (failed world (ended cause r))
  ended_fine cause (ok u, s) h = fine s h
  ended_fine cause (err e, s) h = h

  abort_fine :
      (cause : Error) (s : RunState) → IsFine s → Ends IsFine (failed world (abort world cause s))
  unfolding abort
  abort_fine cause s h = elim (Bool-cases (is_irreversible s.journal.phase)) [
    | inl e ↦ rw (abort, e) h
    | inr e ↦ elim h.reversible [
      | inl untouched ↦
          let q : IsQuiet s = record { untouched = untouched; quiet_safe = h.fine_safe } in
          rw (abort, e) (ended_fine cause (rollback world s) ((rollback-IsQuiet world).run s q))
      | inr fixed ↦ absurd (ground arith)
    ]
  ]

  on_failure_fine :
      (r : Result Error Outcome × RunState) → Ends IsFine r → Ends IsFine (on_failure world r)
  unfolding on_failure
  on_failure_fine (ok outcome, s) h = h
  on_failure_fine (err e, s) h = abort_fine e s h

  snapshot-IsQuiet :
      (config : NormalizedConfig) (plan : ReleasePlan) (paths : List Text)
      → Leads IsQuiet (snapshot world config plan paths) IsQuiet
  unfolding snapshot
  snapshot-IsQuiet config plan paths = chain (query_leads fine world _) λ tracked.
      chain (query_leads fine world _) λ untracked. chain (query_leads fine world _) λ head_ref.
        chain (query_leads fine world _) λ source. chain (observe_leads fine _) λ index.
          chain (modify-IsQuiet _) λ _. chain (observe_leads fine _) λ files.
            chain (modify-IsQuiet _) λ _.
              chain (observe_leads fine _) λ tags. chain (modify-IsQuiet _) λ _. save-IsQuiet world

  run_release_fine :
      (config : NormalizedConfig) (plan : ReleasePlan) (o : Options) (own resumable : Bool)
      → Leads IsQuiet (run_release world config plan o own resumable) IsFine
  unfolding run_release prepare
  run_release_fine config plan o own resumable =
      chain
        (chain (observe_leads fine _) λ _.
          when_leads fine own
            (chain (observe_leads fine _) λ managed.
              chain (observe_leads fine _) λ destinations. snapshot-IsQuiet config plan _)
            (pure_leads fine tt))
        λ _. record {
          run = λ s q.
              on_failure_fine (guarded world config plan o resumable s)
                ((guarded_fine config plan o resumable).run s q);
        }

  load_stored-IsQuiet :
      (config : NormalizedConfig) (stored : Result Error (Option Journal))
      → Leads IsQuiet (load_stored world config stored) IsQuiet
  unfolding load_stored
  load_stored-IsQuiet config (err e) = raise_leads fine e
  load_stored-IsQuiet config (ok none) = pure_leads fine false
  load_stored-IsQuiet config (ok (some journal)) =
      chain (modify-IsQuiet _) λ _. chain (observe_leads fine _) λ _. pure_leads fine true

  load-IsQuiet : (config : NormalizedConfig) → Leads IsQuiet (load world config) IsQuiet
  unfolding load
  load-IsQuiet config = look_leads fine world.stored (load_stored-IsQuiet config)

  journal_plan-IsQuiet : Leads IsQuiet (journal_plan world) IsQuiet
  journal_plan-IsQuiet = with_journal_leads fine λ journal.
      elim journal.plan
        as (λ p.
          Leads IsQuiet (elim p [ none ↦ raise journal_mismatch | some plan ↦ pure plan ])
            IsQuiet) [ none ↦ raise_leads fine _ | some plan ↦ pure_leads fine plan ]

  recovered_plan-IsQuiet :
      (config : NormalizedConfig) (plan : ReleasePlan) (again : Bool)
      → Leads IsQuiet (recovered_plan world config plan again) IsQuiet
  recovered_plan-IsQuiet config plan true = chain (observe_leads fine _) (λ p. pure_leads fine _)
  recovered_plan-IsQuiet config plan false = chain journal_plan-IsQuiet (λ p. pure_leads fine _)

  begin-IsQuiet :
      (config : NormalizedConfig) (plan : ReleasePlan) (o : Options)
      → Leads IsQuiet (begin world config plan o) IsQuiet
  unfolding begin
  begin-IsQuiet config plan o = chain (load-IsQuiet config) λ existing.
      when_leads fine _ (pure_leads fine _) (
        when_leads fine _ (raise_leads fine _)
          (chain (recover-IsQuiet world) (recovered_plan-IsQuiet config plan)))

  execute_opened_fine :
      (config : NormalizedConfig) (plan : ReleasePlan) (o : Options)
      → Leads IsQuiet (execute_opened world config plan o) IsFine
  unfolding execute_opened check
  execute_opened_fine config plan o = chain (begin-IsQuiet config plan o) λ (planned, own).
      chain (observe_leads fine _) λ derived.
        chain
          (chain (observe_leads fine _) λ resumable. chain (observe_leads fine _) λ _.
            chain (observe_leads fine _)
              λ _. chain (observe_leads fine _) λ _. pure_leads fine resumable)
          λ resumable.
            when_leads fine o.dry_run (weaken fine (pure_leads fine _))
              (run_release_fine config _ o own resumable)

  open_transaction-IsQuiet : Leads IsQuiet (open_transaction world) IsQuiet
  unfolding open_transaction
  open_transaction-IsQuiet = chain (query_leads fine world _) λ common.
      chain (perform-IsQuiet world (acquire_lock _) refl)
        λ _. chain (query_leads fine world _) λ git_dir. observe_leads fine _

  execute_fine :
      (config : NormalizedConfig) (plan : ReleasePlan) (o : Options)
      → Leads IsQuiet (execute world config plan o) IsFine
  unfolding execute
  execute_fine config plan o =
      chain open_transaction-IsQuiet (λ _. execute_opened_fine config plan o)

ends_safe : {A : Type 0} (r : Result Error A × RunState) → Ends IsFine r → is_safe r.1.trace ≡ true
ends_safe (ok a, s) h = h.fine_safe
ends_safe (err e, s) h = h.fine_safe

abbrev pub initial : Journal → RunState
initial journal = record { journal = journal; trace = [] }

-- Whatever the world shows and however its commands, its files and its hooks end, a run of Execute
-- leaves a trace that keeps the rule of the journal. At each point of the trace at which a
-- publication (a push, or the publication on GitHub) was attempted and the journal was not removed
-- since, the journal on disk has a phase that recovery never rolls back, where a save that failed
-- counts as one that may have left the old journal or the new one; and from the point at which a
-- publication was attempted on, no effect of a rollback follows.
pub execute-publication :
    (world : World) (config : NormalizedConfig) (plan : ReleasePlan) (o : Options)
    (journal : Journal) (later earlier : Trace)
    → (execute world config plan o (initial journal)).1.trace ≡ later ++ earlier
    → ((is_pending earlier ≡ false) ⊎ (is_recorded earlier ≡ true))
      × ((attempted earlier ≡ false) ⊎ (any is_rollback later ≡ false))
execute-publication world config plan o journal later earlier e =
    let run = execute world config plan o (initial journal) in
    let start : IsQuiet (initial journal) = record {
      untouched = refl;
      quiet_safe = unfold is_safe in refl;
    } in
    let safe =
      subst (λ trace. is_safe trace ≡ true) e
        (ends_safe run ((execute_fine world config plan o).run (initial journal) start)) in
    (
      elim (Bool-cases (is_pending earlier)) [
        | inl p ↦ inr (pending-is_recorded earlier (is_safe-append later earlier safe) p)
        | inr p ↦ inl p
      ],
      elim (Bool-cases (attempted earlier)) [
        | inl a ↦ inr (later-is_rollback later earlier safe a)
        | inr a ↦ inl a
      ],
    )
