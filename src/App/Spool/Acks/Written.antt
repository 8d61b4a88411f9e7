-- ===== src/App/Spool/Acks/Written.antt =====
-- internal/app/spool.go: a marker that was written, or that is read, is there after a crash.
use hooversion.App.Spool.Acks.Markers.{IsStable, undone_leads}
use hooversion.App.Spool.Acks.Triples.{
  Claim, Outcome, itself, Leads, Anything, keeps_anything, chain, rescue_leads, pure_leads,
  raise_leads, within_leads, Attempted, attempt_leads, when_leads, call_leads, weaken,
}
use hooversion.App.Spool.Acks.{
  drop_unreadable, write_terminal_marker, existing_marker, is_terminal, marker_in,
}
use hooversion.App.Spool.Disk.{
  synced, put, settle, rename_call, call, content, read_file, rename, write_and_sync,
  sync_directory,
}
use hooversion.App.Spool.{
  Error, is_not_exist, Json, Node, regular, symlink, special, Directory, marker_name,
}
use hooversion.Common.{
  subst, true, false, Bool-cases, ◌∙◌, sym, none-ne-some, ℕ, ◌≡◌, ◌≢◌, inl, inr, refl, ap, Bool,
  true, List, Option, none, some, Result, ok, err,
}
use hooversion.Text.Maps.{lookup}
use hooversion.Text.{Text}
use hooversion.App.Spool.Acks.Claims.{
  At, Seen, is_marker, IsMarker, IsMarked, IsSure, HasSureMarker, lookup-put_self,
  sync_directory_leads,
}

module _ (fails : ℕ → Bool) where
  ends_anyhow : (P : Claim) → Leads P (call fails (λ d. (ok tt, d))) (λ _. P) Anything
  ends_anyhow P = call_leads fails _ (λ d p. p) (λ d p. tt)

  -- what was written is what the name stands for
  pub write_and_sync_leads :
      (name bytes : Text)
      → Leads Anything
          (write_and_sync fails name bytes)
          (λ _. Seen name (some (regular true bytes)))
          Anything
  unfolding write_and_sync
  write_and_sync_leads name bytes =
      chain
        (rescue_leads Anything
          (chain
            (within_leads _ (
              call_leads {Q = λ _. Seen name (some (regular false bytes))} fails _
                (λ d p. lookup-put_self name (some (regular false bytes)) d) (λ d p. tt)))
            (λ _. within_leads _ (
              call_leads {Q = λ _. Seen name (some (regular true bytes))} fails _
                (λ d p. lookup-put_self name (synced (lookup name d.visible)) d ∙ ap synced p)
                (λ d p. tt))))
          (λ e. chain (keeps_anything _) (λ _. raise_leads e (λ d p. tt))))
        (λ _. within_leads _ (ends_anyhow _))

  renamed :
      (old new : Text) (v : Option Node) (o : Option Node) (d : Directory)
      → o ≡ v
      → v ≢ none
      → Outcome itself (λ _. Seen new v) Anything (rename_call old new o d)
  renamed old new v none d e ne = tt
  renamed old new v (some w) d e ne = lookup-put_self new (some w) (put old none d) ∙ e

  pub rename_leads :
      (old new bytes : Text)
      → Leads
          (Seen old (some (regular true bytes)))
          (rename fails old new)
          (λ _. Seen new (some (regular true bytes)))
          Anything
  rename_leads old new bytes =
      call_leads fails _
        (λ d p. renamed old new (some (regular true bytes)) _ d p (λ e. none-ne-some (sym e)))
        (λ d p. tt)

  anything-IsStable : (name : Text) → IsStable name Anything
  anything-IsStable name = record { put_keeps = λ m v d ne p. tt; settle_keeps = λ d p. tt }

  module _ (json : Json) (name : Text) where
    abbrev Written : Text → Option Node → List (Option Node) → Type 0
    Written bytes v vs = (v ≡ some (regular true bytes)) × IsMarker json v vs

    is_marker_written :
        (bytes : Text) (v : Option Node)
        → is_terminal (json.decode_terminal bytes) ≡ true
        → v ≡ some (regular true bytes)
        → is_marker json v ≡ true
    is_marker_written bytes v valid e = ap (is_marker json) e ∙ valid

    sync_written_leads :
        (bytes : Text)
        → is_terminal (json.decode_terminal bytes) ≡ true
        → Leads
            (Seen (marker_name name) (some (regular true bytes)))
            (sync_directory fails)
            (λ _. IsMarked json name)
            Anything
    sync_written_leads bytes valid =
        weaken {Q' = λ _. At (marker_name name) (Written bytes)} (λ d p. p) (λ _ d p. p.1)
          (λ d p. tt)
          (sync_directory_leads fails (Seen (marker_name name) (some (regular true bytes)))
            (At (marker_name name) (Written bytes))
            (λ d p.
              unfold settle in (let q = is_marker_written bytes _ valid p in (p, (q, (q, tt)))))
            (λ d p. p.0))

    -- A marker that was written is there after a crash.
    pub write_terminal_marker_leads :
        (bytes : Text)
        → is_terminal (json.decode_terminal bytes) ≡ true
        → Leads Anything
            (write_terminal_marker fails name bytes true)
            (λ _. IsMarked json name)
            Anything
    unfolding write_terminal_marker
    write_terminal_marker_leads bytes valid =
        chain
          (chain
            (chain (within_leads _ (keeps_anything _)) (λ _.
              rescue_leads Anything (write_and_sync_leads _ bytes)
                (λ e. chain (keeps_anything _) (λ _. raise_leads e (λ d p. tt)))))
            (λ _.
              rescue_leads Anything (rename_leads _ _ bytes)
                (λ e. chain (keeps_anything _) (λ _. raise_leads _ (λ d p. tt)))))
          (λ _. rescue_leads Anything (sync_written_leads bytes valid) (λ e.
            when_leads true
              (chain (keeps_anything _)
                (undone_leads fails name Anything (anything-IsStable name) e))
              (raise_leads _ (λ d p. tt))))

    abbrev pub if_marked : Option Text → Claim
    if_marked none d = Unit
    if_marked (some bytes) d = IsMarked json name d

    of_content :
        (v : Option Node) (d : Directory)
        → v ≡ lookup (marker_name name) d.visible
        → IsSure json v (d.held (marker_name name))
        → Outcome itself
            (λ bytes d. is_terminal (json.decode_terminal bytes) ≡ true → IsMarked json name d)
            Anything
            (content v, d)
    of_content none d e sure = tt
    of_content (some (regular synced bytes)) d e sure =
        λ valid. subst (λ v. IsMarker json v (d.held (marker_name name))) e (sure valid)
    of_content (some (symlink n)) d e sure = tt
    of_content (some (special n)) d e sure = tt

    -- What is known of the record when the marker was looked at.
    read_leads :
        Leads
          (HasSureMarker json name)
          (read_file fails (marker_name name))
          (λ bytes d. is_terminal (json.decode_terminal bytes) ≡ true → IsMarked json name d)
          Anything
    read_leads =
        call_leads fails _ (λ d p. of_content (lookup (marker_name name) d.visible) d refl p)
          (λ d p. tt)

    drop_unreadable_leads :
        (r : Result Error Text)
        → Leads
            (Attempted
              (λ bytes d. is_terminal (json.decode_terminal bytes) ≡ true → IsMarked json name d)
              Anything
              r)
            (drop_unreadable fails (marker_name name) (marker_in json r))
            (λ o d. if_marked o d)
            Anything
    drop_unreadable_leads (err e) = chain (keeps_anything _) (λ _. pure_leads none (λ d p. tt))
    drop_unreadable_leads (ok bytes) =
        elim (Bool-cases (is_terminal (json.decode_terminal bytes))) [
          | inl x ↦ rw x (pure_leads (some bytes) (λ d p. p x))
          | inr x ↦ rw x (
              weaken (λ d p. tt) (λ _ d p. p) (λ d p. p)
                (chain (keeps_anything _) (λ _. pure_leads none (λ d p. tt))))
        ]

    -- A marker that AckTerminal goes by is there after a crash.
    pub existing_marker_leads :
        (r : Result Error Node)
        → Leads
            (HasSureMarker json name)
            (existing_marker fails json (marker_name name) r)
            if_marked
            Anything
    unfolding existing_marker
    existing_marker_leads (err e) =
        when_leads (is_not_exist e) (pure_leads none (λ d p. tt)) (raise_leads e (λ d p. tt))
    existing_marker_leads (ok (regular synced _)) =
        chain (attempt_leads {F = Anything} read_leads) drop_unreadable_leads
    existing_marker_leads (ok (symlink n)) =
        weaken (λ d p. tt) (λ _ d p. p) (λ d p. p)
          (chain (keeps_anything _) (λ _. pure_leads none (λ d p. tt)))
    existing_marker_leads (ok (special n)) =
        weaken (λ d p. tt) (λ _ d p. p) (λ d p. p)
          (chain (keeps_anything _) (λ _. pure_leads none (λ d p. tt)))
