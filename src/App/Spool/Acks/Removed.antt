-- ===== src/App/Spool/Acks/Removed.antt =====
-- internal/app/spool.go: the part of AckTerminal that takes a record away, which goes by a marker
-- that is sure to be there.
use hooversion.App.Spool.Acks.Markers.{
  marker_name-ne, temp_of_marker-ne, sync_directory-Keeps, write_terminal_marker-Keeps,
  remove_terminal_marker-Keeps,
}
use hooversion.App.Spool.Acks.Triples.{
  Claim, Leads, beside, chain, pure_leads, raise_leads, within_leads, modify_leads,
  attempt_call_leads, when_else_leads, weaken,
}
use hooversion.App.Spool.Acks.{
  marker_removed, mark, after_record_removal, remove_record, finish_marker, remove_terminal_marker,
  is_terminal, ack_record,
}
use hooversion.App.Spool.Disk.{◌>>◌, modify, attempt, settle, remove_call, found, ◌>>=◌, lstat}
use hooversion.App.Spool.{Json, Node, regular, symlink, special, Directory, marker_name}
use hooversion.Common.{sym, subst, ℕ, ◌≡◌, ◌≢◌, refl, Bool, true, Option, none, some}
use hooversion.Text.Maps.{lookup}
use hooversion.Text.{Text}
use hooversion.App.Spool.Acks.Claims.{
  Seen, IsPresent, IsGone, IsMarked, IsGuarded, present, gone, marked, IsPresent-IsStable,
  IsGone-IsStable, IsMarked-IsStable, lookup-put_self, sync_directory_leads,
}
use hooversion.App.Spool.Acks.Written.{write_terminal_marker_leads, if_marked}

module _ (fails : ℕ → Bool) where
  module _ (json : Json) (name : Text) where
    abbrev MarkedPresent : Claim
    MarkedPresent d = IsMarked json name d × IsPresent name d

    mark_leads :
        (fresh : Text)
        → is_terminal (json.decode_terminal fresh) ≡ true
        → (existing : Option Text)
        → Leads
            (λ d. if_marked fails json name existing d × IsPresent name d)
            (mark fails name fresh existing)
            (λ _. MarkedPresent)
            (IsGuarded json name)
    mark_leads fresh valid (some bytes) = pure_leads tt (λ d p. p)
    mark_leads fresh valid none =
        weaken (λ d p. p) (λ _ d p. p) (λ d p. present p.1)
          (chain
            (beside (IsPresent name) (write_terminal_marker_leads fails json name fresh valid) (
              write_terminal_marker-Keeps fails name (IsPresent name) (IsPresent-IsStable name) name
                fresh true (marker_name-ne name) (temp_of_marker-ne name)))
            (λ _. modify_leads _))

    abbrev pub MarkedAbsent : Claim
    MarkedAbsent d = IsMarked json name d × Seen name none d

    after_removal_leads :
        (path : Text) (info : Node) (v : Option Node) (d : Directory)
        → v ≢ none
        → IsMarked json name d
        → Leads
            (λ d'. d' ≡ (remove_call name v d).1)
            (after_record_removal fails path info (remove_call name v d).0)
            (λ _. MarkedAbsent)
            (IsGuarded json name)
    after_removal_leads path info none d ne m = absurd (ne refl)
    after_removal_leads path info (some w) d ne m =
        weaken {P' = MarkedAbsent}
          (λ d' e. rw e (
            (IsMarked-IsStable json name).put_keeps name none d (λ x. marker_name-ne name (sym x))
                m,
            lookup-put_self name none d,
          ))
          (λ _ d' p. p) (λ d' p. p) (modify_leads _)

    remove_record_leads :
        (path : Text) (info : Node)
        → Leads MarkedPresent
            (remove_record fails path name info)
            (λ _. MarkedAbsent)
            (IsGuarded json name)
    remove_record_leads path info =
        attempt_call_leads fails _ _
          (when_else_leads _ _ _ refl (raise_leads _ (λ d p. present p.1)))
          (λ d p. after_removal_leads path info _ d p.1 p.0)

    pub finish-IsGone_leads :
        (path bytes : Text)
        → Leads
            (IsGone name)
            (remove_terminal_marker fails name bytes >> modify (marker_removed path bytes))
            (λ _. IsGone name)
            (IsGuarded json name)
    finish-IsGone_leads path bytes =
        weaken (λ d p. p) (λ _ d p. p) (λ d p. gone p)
          (chain
            (remove_terminal_marker-Keeps fails name (IsGone name) (IsGone-IsStable name) name bytes
              (marker_name-ne name) (temp_of_marker-ne name))
            (λ _. modify_leads _))

    pub finish_marker_leads :
        (path bytes : Text)
        → Leads MarkedAbsent
            (finish_marker fails path name bytes)
            (λ _. IsGone name)
            (IsGuarded json name)
    finish_marker_leads path bytes =
        chain
          (weaken {Q' = λ _ d. IsGone name d × IsMarked json name d} (λ d p. (p.1, p.0))
            (λ _ d p. p.0) (λ d p. marked p.1)
            (within_leads _ (
              beside (IsMarked json name)
                (sync_directory_leads fails (Seen name none) (IsGone name)
                  (λ d p. unfold settle in (p, (p, tt))) (λ d p. p.0))
                (sync_directory-Keeps fails (marker_name name) (IsMarked json name)
                  (IsMarked-IsStable json name)))))
          (λ _. finish-IsGone_leads path bytes)

    pub ack_found_leads :
        (path fresh : Text)
        → is_terminal (json.decode_terminal fresh) ≡ true
        → (existing : Option Text) (v : Option Node) (d : Directory) → v ≢ none
        → if_marked fails json name existing d × IsPresent name d
        → Leads
            (λ d'. d' ≡ d)
            (ack_record fails path name fresh existing (found v))
            (λ _. IsGone name)
            (IsGuarded json name)
    unfolding ack_record
    ack_found_leads path fresh valid existing none d ne p = absurd (ne refl)
    ack_found_leads path fresh valid existing (some (regular synced bytes)) d ne p =
        weaken
          (λ d' e. subst (λ x. if_marked fails json name existing x × IsPresent name x) (sym e) p)
          (λ _ d' q. q) (λ d' q. q)
          (chain (mark_leads fresh valid existing) (λ _.
            chain (remove_record_leads path (regular synced bytes))
              (λ _. finish_marker_leads path _)))
    ack_found_leads path fresh valid existing (some (symlink n)) d ne p =
        raise_leads _ (λ d' e. present (subst (IsPresent name) (sym e) p.1))
    ack_found_leads path fresh valid existing (some (special n)) d ne p =
        raise_leads _ (λ d' e. present (subst (IsPresent name) (sym e) p.1))

    pub ack-IsPresent_leads :
        (path fresh : Text)
        → is_terminal (json.decode_terminal fresh) ≡ true
        → (existing : Option Text)
        → Leads
            (λ d. if_marked fails json name existing d × IsPresent name d)
            (attempt (lstat fails name) >>= ack_record fails path name fresh existing)
            (λ _. IsGone name)
            (IsGuarded json name)
    unfolding ack_record
    ack-IsPresent_leads path fresh valid existing =
        attempt_call_leads fails _ _
          (when_else_leads _ _ _ refl (raise_leads _ (λ d p. present p.1)))
          (λ d p. ack_found_leads path fresh valid existing (lookup name d.visible) d p.1 p)
