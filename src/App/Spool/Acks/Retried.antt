-- ===== src/App/Spool/Acks/Retried.antt =====
-- internal/app/spool.go: AckTerminal on a record that an attempt before it may have taken away, whose
-- marker that attempt left.
use hooversion.App.Spool.Acks.Claims.{IsGone, is_marker, IsMarked, IsGuarded, marked}
use hooversion.App.Spool.Acks.Removed.{MarkedAbsent, finish_marker_leads, ack_found_leads}
use hooversion.App.Spool.Acks.Triples.{
  Outcome, disk_of, Leads, raise_leads, attempt_call_leads, when_else_leads, when_leads, weaken,
}
use hooversion.App.Spool.Acks.{is_terminal, ack_record, ack_named, existing_marker}
use hooversion.App.Spool.Disk.{pure, raise, ◌>>=◌, attempt, call, when◌then◌else◌, found, lstat}
use hooversion.App.Spool.{
  Json, Node, regular, symlink, special, Directory, WebhookSpool, marker_name, Status,
}
use hooversion.Common.{
  ℕ, suc, ◌≡◌, refl, sym, ◌∙◌, subst, Bool, true, false, Option, none, some, Bool-cases, inl, inr,
  none-ne-some,
}
use hooversion.Text.Maps.{lookup}
use hooversion.Text.{Text}

module _ (fails : ℕ → Bool) (json : Json) (name : Text) where
  -- What follows the look at the record.
  ack_marked_found :
      (path fresh bytes : Text)
      → is_terminal (json.decode_terminal fresh) ≡ true
      → (v : Option Node) (d : Directory) → lookup name d.visible ≡ v
      → IsMarked json name d
      → Leads
          (λ d'. d' ≡ d)
          (ack_record fails path name fresh (some bytes) (found v))
          (λ _. IsGone name)
          (IsGuarded json name)
  unfolding ack_record
  ack_marked_found path fresh bytes valid none d e m =
      weaken {P' = MarkedAbsent fails json name}
        (λ d' same. subst (MarkedAbsent fails json name) (sym same) (m, e)) (λ _ d' q. q)
        (λ d' q. q)
        (when_leads true (finish_marker_leads fails json name path bytes)
          (raise_leads _ (λ d' q. marked q.0)))
  ack_marked_found path fresh bytes valid (some node) d e m =
      ack_found_leads fails json name path fresh valid (some bytes) (some node) d
        (λ x. none-ne-some (sym x)) (m, λ x. none-ne-some (sym x ∙ e))

  ack-IsMarked_leads :
      (path fresh bytes : Text)
      → is_terminal (json.decode_terminal fresh) ≡ true
      → Leads
          (IsMarked json name)
          (attempt (lstat fails name) >>= ack_record fails path name fresh (some bytes))
          (λ _. IsGone name)
          (IsGuarded json name)
  unfolding ack_record
  ack-IsMarked_leads path fresh bytes valid =
      attempt_call_leads fails _ _ (when_else_leads _ _ _ refl (raise_leads _ (λ d p. marked p)))
        (λ d p. ack_marked_found path fresh bytes valid (lookup name d.visible) d refl p)

  -- A marker that can be read is what AckTerminal goes on with.
  read_marker_outcome :
      (path fresh : Text) (s : WebhookSpool) (v : Option Node)
      → is_terminal (json.decode_terminal fresh) ≡ true
      → fails (suc s.calls) ≡ false
      → lookup (marker_name name) s.disk.visible ≡ v
      → is_marker json v ≡ true
      → IsMarked json name s.disk
      → fails s.calls ≡ false
      → Outcome disk_of
          (λ _. IsGone name)
          (IsGuarded json name)
          ((attempt (lstat fails (marker_name name)) >>= λ seen.
              existing_marker fails json (marker_name name) seen >>= λ existing.
              attempt (lstat fails name) >>= ack_record fails path name fresh existing)
            s)
  unfolding ◌>>=◌ attempt call existing_marker pure
  read_marker_outcome path fresh s none valid reads e k m x = cc
  read_marker_outcome path fresh s (some (symlink n)) valid reads e k m x = cc
  read_marker_outcome path fresh s (some (special n)) valid reads e k m x = cc
  read_marker_outcome path fresh s (some (regular false bytes)) valid reads e k m x = cc
  read_marker_outcome path fresh s (some (regular true bytes)) valid reads e k m x =
      rw (x, e, reads, e, k)
        ((ack-IsMarked_leads path fresh bytes valid).run (record s { calls = suc (suc s.calls) }) m)

  -- A look at the marker that fails ends AckTerminal.
  unseen_marker_outcome :
      (path fresh : Text) (s : WebhookSpool)
      → IsMarked json name s.disk
      → fails s.calls ≡ true
      → Outcome disk_of
          (λ _. IsGone name)
          (IsGuarded json name)
          ((attempt (lstat fails (marker_name name)) >>= λ seen.
              existing_marker fails json (marker_name name) seen >>= λ existing.
              attempt (lstat fails name) >>= ack_record fails path name fresh existing)
            s)
  unfolding ◌>>=◌ attempt call existing_marker when◌then◌else◌ raise
  unseen_marker_outcome path fresh s m x = rw x (marked m)

  pub ack_named-IsMarked_outcome :
      (path : Text) (status : Status) (s : WebhookSpool)
      → is_terminal
          (json.decode_terminal (json.encode_terminal (record { version = 1; status = status })))
        ≡ true
      → IsMarked json name s.disk
      → fails (suc s.calls) ≡ false
      → Outcome disk_of
          (λ _. IsGone name)
          (IsGuarded json name)
          (ack_named fails json path status name s)
  ack_named-IsMarked_outcome path status s valid m reads = elim (Bool-cases (fails s.calls)) [
    | inl x ↦ unseen_marker_outcome path _ s m x
    | inr x ↦ read_marker_outcome path _ s _ valid reads refl m.0 m x
  ]
