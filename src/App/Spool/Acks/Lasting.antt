-- ===== src/App/Spool/Acks/Lasting.antt =====
-- internal/app/spool.go: a record that was acknowledged does not come back. Whatever the calls of
-- AckTerminal do, and whatever a crash keeps of them, a record that is gone is gone for good or
-- has a marker that says so.
use hooversion.App.Spool.Acks.Markers.{marker_name-ne, sync_directory-Keeps, existing_marker-Keeps}
use hooversion.App.Spool.Acks.Triples.{
  Claim, Outcome, disk_of, Leads, beside, chain, raise_leads, within_leads, modify_leads,
  attempt_call_leads, when_else_leads, when_leads, weaken,
}
use hooversion.App.Spool.Acks.{
  finish_marker, is_terminal, ack_removed, ack_record, ack_named, ack_path, ack_terminal, is_status,
}
use hooversion.App.Spool.Disk.{raise, look, when◌then◌else◌, Step, attempt, found, ◌>>=◌, lstat}
use hooversion.App.Spool.{
  name_for_path, Error, Json, Node, Directory, WebhookSpool, marker_name, Status,
}
use hooversion.Common.{
  suc, false, not, ◌&&◌, Bool-cases, sym, subst, ℕ, ◌≡◌, ◌⊎◌, inl, inr, refl, Bool, true, Option,
  none, some, Result,
}
use hooversion.Text.Maps.{lookup}
use hooversion.Text.{Text}
use hooversion.App.Spool.Acks.Claims.{
  IsPresent, IsGone, HasSureMarker, IsGuarded, present, gone, marked, IsMarked, IsPresent-IsStable,
  IsGone-IsStable,
}
use hooversion.App.Spool.Acks.Written.{existing_marker_leads}
use hooversion.App.Spool.Acks.Retried.{ack_named-IsMarked_outcome}
use hooversion.App.Spool.Acks.Removed.{finish-IsGone_leads, ack-IsPresent_leads}

module _ (fails : ℕ → Bool) where
  module _ (json : Json) (name : Text) where
    finish_lasting_leads :
        (path bytes : Text)
        → Leads
            (IsGone name)
            (finish_marker fails path name bytes)
            (λ _. IsGone name)
            (IsGuarded json name)
    finish_lasting_leads path bytes =
        chain
          (weaken (λ d p. p) (λ _ d p. p) (λ d p. gone p)
            (within_leads _ (sync_directory-Keeps fails name (IsGone name) (IsGone-IsStable name))))
          (λ _. finish-IsGone_leads fails json name path bytes)

    ack_removed_leads :
        (path : Text) (existing : Option Text)
        → Leads
            (IsGone name)
            (ack_removed fails path name existing)
            (λ _. IsGone name)
            (IsGuarded json name)
    ack_removed_leads path none = modify_leads _
    ack_removed_leads path (some bytes) = finish_lasting_leads path bytes

    ack_missing_leads :
        (path fresh : Text) (existing : Option Text) (v : Option Node) (d : Directory)
        → v ≡ none
        → IsGone name d
        → Leads
            (λ d'. d' ≡ d)
            (ack_record fails path name fresh existing (found v))
            (λ _. IsGone name)
            (IsGuarded json name)
    unfolding ack_record
    ack_missing_leads path fresh existing v d absent p = rw absent (
        weaken {P' = IsGone name} (λ d' e. rw e p) (λ _ d' q. q) (λ d' q. q)
          (when_leads true (ack_removed_leads path existing) (raise_leads _ (λ d' q. gone q))))

    ack-IsGone_leads :
        (path fresh : Text) (existing : Option Text)
        → Leads
            (IsGone name)
            (attempt (lstat fails name) >>= ack_record fails path name fresh existing)
            (λ _. IsGone name)
            (IsGuarded json name)
    unfolding ack_record
    ack-IsGone_leads path fresh existing =
        attempt_call_leads fails _ _ (when_else_leads _ _ _ refl (raise_leads _ (λ d p. gone p)))
          (λ d p. ack_missing_leads path fresh existing (lookup name d.visible) d p.0 p)

    -- a look at a name changes nothing
    after_look :
        {B : Type 0} {R : B → Claim} (P : Claim) (m : Text) (g : Result Error Node → Step B)
        → ((seen : Result Error Node) → Leads P (g seen) R (IsGuarded json name))
        → Leads P (attempt (lstat fails m) >>= g) R (IsGuarded json name)
    after_look P m g h =
        attempt_call_leads fails _ g (h _)
          (λ d p. weaken {P' = P} (λ d' e. subst P (sym e) p) (λ _ d' q. q) (λ d' q. q) (h _))

    -- Where an acknowledgement may start, a failed one behind it included.
    abbrev pub Starts : WebhookSpool → Type 0
    Starts s =
        (HasSureMarker json name s.disk × IsPresent name s.disk)
        ⊎ IsGone name s.disk
        ⊎ (IsMarked json name s.disk × (fails (suc s.calls) ≡ false))

    ack_named-IsPresent_leads :
        (path : Text) (status : Status)
        → is_terminal
            (json.decode_terminal (json.encode_terminal (record { version = 1; status = status })))
          ≡ true
        → Leads
            (λ d. HasSureMarker json name d × IsPresent name d)
            (ack_named fails json path status name)
            (λ _. IsGone name)
            (IsGuarded json name)
    ack_named-IsPresent_leads path status valid =
        after_look (λ d. HasSureMarker json name d × IsPresent name d) (marker_name name) _
          (λ seen.
            chain
              (weaken (λ d p. p) (λ _ d p. p) (λ d p. present p.1)
                (beside (IsPresent name) (existing_marker_leads fails json name seen) (
                  existing_marker-Keeps fails name (IsPresent name) (IsPresent-IsStable name) json
                    (marker_name name) (marker_name-ne name) seen)))
              (λ existing. ack-IsPresent_leads fails json name path _ valid existing))

    ack_named-IsGone_leads :
        (path : Text) (status : Status)
        → Leads
            (IsGone name)
            (ack_named fails json path status name)
            (λ _. IsGone name)
            (IsGuarded json name)
    ack_named-IsGone_leads path status = after_look (IsGone name) (marker_name name) _ (λ seen.
        chain
          (weaken (λ d p. p) (λ _ d p. p) (λ d p. gone p)
            (existing_marker-Keeps fails name (IsGone name) (IsGone-IsStable name) json
              (marker_name name) (marker_name-ne name) seen))
          (λ existing. ack-IsGone_leads path _ existing))

    start-IsGuarded : (s : WebhookSpool) → Starts s → IsGuarded json name s.disk
    start-IsGuarded s (inl p) = present p.1
    start-IsGuarded s (inr (inl p)) = gone p
    start-IsGuarded s (inr (inr p)) = marked p.0

    abbrev ReadsBack : Type 0
    ReadsBack =
        (status : Status)
        → json.decode_terminal (json.encode_terminal (record { version = 1; status = status }))
          ≡ some (record { version = 1; status = status })

    fresh_is_terminal :
        ReadsBack
        → (status : Status) → is_status status ≡ true
        → is_terminal
            (json.decode_terminal (json.encode_terminal (record { version = 1; status = status })))
          ≡ true
    fresh_is_terminal reads status valid = rw (reads status, valid) refl

    ack_path_outcome :
        (path : Text) (status : Status) (s : WebhookSpool)
        → ReadsBack
        → is_status status ≡ true
        → Starts s
        → Outcome disk_of
            (λ _. IsGone name)
            (IsGuarded json name)
            (ack_path fails json path status (some name) s)
    ack_path_outcome path status s reads valid (inl p) =
        (ack_named-IsPresent_leads path status (fresh_is_terminal reads status valid)).run s p
    ack_path_outcome path status s reads valid (inr (inl p)) =
        (ack_named-IsGone_leads path status).run s p
    ack_path_outcome path status s reads valid (inr (inr p)) =
        ack_named-IsMarked_outcome fails json name path status s
          (fresh_is_terminal reads status valid) p.0 p.1

-- Where JSON reads back what it wrote for a terminal status, let a record be in the directory, where
-- a marker of it that can be seen is there after a crash; or let it be gone for good; or let a
-- marker of it be there after a crash, as an attempt that failed leaves it, and let the second call
-- of this attempt, which reads the marker, not fail. Whichever other calls fail, when AckTerminal
-- succeeds on the record then the record is gone, whatever a crash keeps; and when it fails, the
-- record is still there, or is gone for good, or a crash leaves its marker.
pub ack_terminal-IsGuarded :
    (fails : ℕ → Bool) (json : Json) (name path : Text) (status : Status) (s : WebhookSpool)
    → ((st : Status)
        → json.decode_terminal (json.encode_terminal (record { version = 1; status = st }))
          ≡ some (record { version = 1; status = st }))
    → name_for_path s.dir path ≡ some name
    → (HasSureMarker json name s.disk × IsPresent name s.disk)
      ⊎ IsGone name s.disk
      ⊎ (IsMarked json name s.disk × (fails (suc s.calls) ≡ false))
    → Outcome disk_of
        (λ _. IsGone name)
        (IsGuarded json name)
        (ack_terminal fails json path status s)
unfolding ack_terminal when◌then◌else◌ look raise
ack_terminal-IsGuarded fails json name path status s reads named start =
    elim (Bool-cases (is_status status)) [
      | inr x ↦ rw x (start-IsGuarded fails json name s start)
      | inl x ↦ rw x (elim (Bool-cases (s.closed && not s.has_root)) [
        | inl y ↦ rw y (start-IsGuarded fails json name s start)
        | inr y ↦ rw (y, named) (ack_path_outcome fails json name path status s reads x start)
      ])
    ]
