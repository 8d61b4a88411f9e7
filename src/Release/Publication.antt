-- ===== src/Release/Publication.antt =====
-- internal/release/transaction.go: the rule that a release keeps by its journal. What is published
-- cannot be taken back, so it is attempted only when the journal on disk says so, and from then on
-- no journal and no rollback may deny it.
use hooversion.Common.{
  ◌≡◌, inl, inr, refl, Bool, true, false, not, ◌&&◌, ◌||◌, [], ◌∷◌, ◌++◌, arith, any, if◌then◌else◌,
  Bool-cases, and-elim, any-append,
}
use hooversion.Release.Effects.{
  Effect, push, create_release, upload_asset, save_journal, save_failed, remove_file, make_symlink,
  restore_file, delete_tag, move_head, restore_index, remove_journal, Trace,
}
use hooversion.Release.Recovery.{is_irreversible}

abbrev pub is_publication : Effect → Bool
is_publication (push args) = true
is_publication (create_release repository input) = true
is_publication (upload_asset url name path) = true
is_publication e = false

-- What only a rollback does.
abbrev pub is_rollback : Effect → Bool
is_rollback (remove_file path) = true
is_rollback (make_symlink link path) = true
is_rollback (restore_file path content mode) = true
is_rollback (delete_tag args) = true
is_rollback (move_head args) = true
is_rollback (restore_index index mode) = true
is_rollback e = false

-- No journal but one in one of the two phases that are never rolled back was written, or may have
-- been.
abbrev pub keeps_record : Effect → Bool
keeps_record (save_journal journal) = is_irreversible journal.phase
keeps_record (save_failed journal) = is_irreversible journal.phase
keeps_record e = true

abbrev pub is_removal : Effect → Bool
is_removal remove_journal = true
is_removal e = false

abbrev pub recorded_after : Effect → Bool → Bool
recorded_after (save_journal journal) before = is_irreversible journal.phase
recorded_after (save_failed journal) before = before && is_irreversible journal.phase
recorded_after remove_journal before = false
recorded_after e before = before

-- Whether something was published, or may have been.
abbrev pub attempted : Trace → Bool
attempted = any is_publication

-- Whether a publication was attempted whose journal was not removed since.
unfoldable pub is_pending : Trace → Bool
is_pending [] = false
is_pending (remove_journal ∷ trace) = false
is_pending (e ∷ trace) = is_publication e || is_pending trace

-- Whether there is a journal on disk, in one of the two phases: the last that was written, and each
-- that may have been written since by a save that failed.
unfoldable pub is_recorded : Trace → Bool
is_recorded [] = false
is_recorded (e ∷ trace) = recorded_after e (is_recorded trace)

abbrev pub allowed : Effect → Trace → Bool
allowed e trace =
    if is_publication e
    then is_recorded trace
    else if is_rollback e
    then not (attempted trace)
    else not (attempted trace) || keeps_record e

unfoldable pub is_safe : Trace → Bool
is_safe [] = true
is_safe (e ∷ trace) = allowed e trace && is_safe trace

pub recorded_after_keeps :
    (e : Effect) (before : Bool)
    → keeps_record e ≡ true
    → is_removal e ≡ false
    → before ≡ true
    → recorded_after e before ≡ true
recorded_after_keeps (save_journal journal) before h r k = h
recorded_after_keeps (save_failed journal) before h r k = ground (arith, h, k)
recorded_after_keeps remove_journal before h r k = cc
recorded_after_keeps e before h r k = k

publication_keeps : (e : Effect) → is_publication e ≡ true → keeps_record e ≡ true
publication_keeps (push args) h = refl
publication_keeps (create_release repository input) h = refl
publication_keeps (upload_asset url name path) h = refl
publication_keeps (save_journal j) h = cc
publication_keeps (save_failed j) h = cc
publication_keeps e h = ground arith

rollback_keeps : (e : Effect) → is_rollback e ≡ true → keeps_record e ≡ true
rollback_keeps (save_journal j) h = cc
rollback_keeps (save_failed j) h = cc
rollback_keeps e h = ground arith

publication_no_rollback : (e : Effect) → is_publication e ≡ true → is_rollback e ≡ false
publication_no_rollback (push args) h = refl
publication_no_rollback (create_release repository input) h = refl
publication_no_rollback (upload_asset url name path) h = refl
publication_no_rollback e h = ground arith

pub is_safe-append :
    (later earlier : Trace) → is_safe (later ++ earlier) ≡ true → is_safe earlier ≡ true
unfolding is_safe
is_safe-append [] earlier h = h
is_safe-append (e ∷ later) earlier h =
    is_safe-append later earlier (and-elim (allowed e (later ++ earlier)) _ h).1

pending_step :
    (e : Effect) (trace : Trace)
    → is_pending (e ∷ trace) ≡ true
    → (is_removal e ≡ false) × ((is_publication e || is_pending trace) ≡ true)
unfolding is_pending
pending_step remove_journal trace h = cc
pending_step e trace h = (refl, h)

pending_attempted : (trace : Trace) → is_pending trace ≡ true → attempted trace ≡ true
unfolding is_pending
pending_attempted [] h = h
pending_attempted (e ∷ trace) h = ground (arith, pending_step e trace h, pending_attempted trace)

-- In a safe trace the record is there as long as a publication is pending.
pub pending-is_recorded :
    (trace : Trace) → is_safe trace ≡ true → is_pending trace ≡ true → is_recorded trace ≡ true
unfolding is_safe is_recorded
pending-is_recorded [] h k = unfold is_pending in cc
pending-is_recorded (e ∷ trace) h k =
    let (here, earlier) = and-elim (allowed e trace) (is_safe trace) h in
    let (stays, before) = pending_step e trace k in
    elim (Bool-cases (is_publication e)) [
      | inl p ↦
          recorded_after_keeps e (is_recorded trace) (publication_keeps e p) stays (ground arith)
      | inr p ↦
          let pending : is_pending trace ≡ true = ground arith in
          let ih = pending-is_recorded trace earlier pending in
          let past = pending_attempted trace pending in
          let keeps : keeps_record e ≡ true = ground (arith, rollback_keeps e) in
          recorded_after_keeps e (is_recorded trace) keeps stays ih
    ]

-- A part of a safe trace that follows a publication holds no effect of a rollback.
pub later-is_rollback :
    (later earlier : Trace)
    → is_safe (later ++ earlier) ≡ true
    → attempted earlier ≡ true
    → any is_rollback later ≡ false
unfolding is_safe
later-is_rollback [] earlier h k = refl
later-is_rollback (e ∷ later) earlier h k =
    let (here, rest) = and-elim (allowed e (later ++ earlier)) (is_safe (later ++ earlier)) h in
    ground (
      arith,
      later-is_rollback later earlier rest k,
      any-append is_publication later earlier,
      publication_no_rollback e,
    )
