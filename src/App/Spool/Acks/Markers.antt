-- ===== src/App/Spool/Acks/Markers.antt =====
-- internal/app/spool.go: what the calls on markers leave alone. A claim about one name that other
-- names and syncs do not change is kept by every step that works on other names.
use hooversion.App.Spool.Acks.Triples.{
  Claim, Outcome, itself, Leads, chain, rescue_leads, pure_leads, raise_leads, within_leads,
  either_way, attempt_leads, when_leads, call_leads, weaken,
}
use hooversion.App.Spool.Acks.{
  drop_unreadable, marker_in, after_removal, undone, write_terminal_marker, remove_terminal_marker,
  existing_marker,
}
use hooversion.App.Spool.Disk.{
  raise, ◌>>◌, answer, first_error, Step, attempt, put, settle, remove_call, rename_call,
  create_call, call, read_file, remove, rename, create_file, write_and_sync, sync_directory,
}
use hooversion.App.Spool.{
  Error, is_not_exist, Json, Node, regular, symlink, special, Directory, marker_name, temp_name,
}
use hooversion.Common.{
  ℕ, ◌<◌, ◌≢◌, ap, arith, Bool, false, Option, none, some, Result, ok, err, length, length-append,
}
use hooversion.Text.{Text}

longer-ne : (s t : Text) → length s < length t → t ≢ s
longer-ne s t h e = ground (arith, ap length e)

pub marker_name-ne : (name : Text) → marker_name name ≢ name
marker_name-ne name = longer-ne name (marker_name name) (rw (length-append name _) (omega arith))

pub temp_of_marker-ne : (name : Text) → temp_name (marker_name name) ≢ name
temp_of_marker-ne name =
    longer-ne name (temp_name (marker_name name))
      (rw (length-append (marker_name name) _, length-append name _) (omega arith))

pub record IsStable (name : Text) (I : Claim) : Type 0 where
  pub put_keeps : (m : Text) (v : Option Node) (d : Directory) → m ≢ name → I d → I (put m v d)
  pub settle_keeps : (d : Directory) → I d → I (settle d)

abbrev pub Keeps : {A : Type 0} → Claim → Step A → Type 0
Keeps I m = Leads I m (λ _. I) I

module _ (fails : ℕ → Bool) (name : Text) (I : Claim) (stable : IsStable name I) where
  kept_by_remove :
      (m : Text)
      → m ≢ name
      → (o : Option Node) (d : Directory) → I d
      → Outcome itself (λ _. I) I (remove_call m o d)
  kept_by_remove m ne none d p = p
  kept_by_remove m ne (some v) d p = stable.put_keeps m none d ne p

  pub remove-Keeps : (m : Text) → m ≢ name → Keeps I (remove fails m)
  remove-Keeps m ne = call_leads fails _ (λ d. kept_by_remove m ne _ d) (λ d p. p)

  kept_by_rename :
      (m m' : Text)
      → m ≢ name
      → m' ≢ name
      → (o : Option Node) (d : Directory) → I d
      → Outcome itself (λ _. I) I (rename_call m m' o d)
  kept_by_rename m m' ne ne' none d p = p
  kept_by_rename m m' ne ne' (some v) d p =
      stable.put_keeps m' (some v) _ ne' (stable.put_keeps m none d ne p)

  rename-Keeps : (m m' : Text) → m ≢ name → m' ≢ name → Keeps I (rename fails m m')
  rename-Keeps m m' ne ne' = call_leads fails _ (λ d. kept_by_rename m m' ne ne' _ d) (λ d p. p)

  kept_by_create :
      (m : Text)
      → m ≢ name
      → (o : Option Node) (d : Directory) → I d
      → Outcome itself (λ _. I) I (create_call m o d)
  kept_by_create m ne none d p = stable.put_keeps m _ d ne p
  kept_by_create m ne (some v) d p = p

  create_file-Keeps : (m : Text) → m ≢ name → Keeps I (create_file fails m)
  create_file-Keeps m ne = call_leads fails _ (λ d. kept_by_create m ne _ d) (λ d p. p)

  kept_by_answer :
      {A : Type 0} (r : Result Error A) (d : Directory) → I d → Outcome itself (λ _. I) I (r, d)
  kept_by_answer (ok a) d p = p
  kept_by_answer (err e) d p = p

  pub read_file-Keeps : (m : Text) → Keeps I (read_file fails m)
  read_file-Keeps m = call_leads fails _ (λ d p. kept_by_answer _ d p) (λ d p. p)

  -- an attempt keeps the claim whatever its result is
  pub attempt-Keeps : {A : Type 0} {m : Step A} → Keeps I m → Keeps I (attempt m)
  attempt-Keeps h = weaken (λ d p. p) (λ r d. either_way I r d) (λ d p. p) (attempt_leads {F = I} h)

  nothing-Keeps : Keeps I (call fails (λ d. (ok tt, d)))
  nothing-Keeps = call_leads fails _ (λ d p. p) (λ d p. p)

  answer-Keeps : {A : Type 0} (r : Result Error A) → Keeps I (answer r)
  answer-Keeps (ok a) = pure_leads a (λ d p. p)
  answer-Keeps (err e) = raise_leads e (λ d p. p)

  pub sync_directory-Keeps : Keeps I (sync_directory fails)
  unfolding sync_directory
  sync_directory-Keeps = chain nothing-Keeps (λ _.
      chain (attempt-Keeps (call_leads fails _ (λ d p. stable.settle_keeps d p) (λ d p. p)))
        (λ synced.
          chain (attempt-Keeps nothing-Keeps) (λ closed. answer-Keeps (first_error synced closed))))

  pub write_and_sync-Keeps : (m bytes : Text) → m ≢ name → Keeps I (write_and_sync fails m bytes)
  unfolding write_and_sync
  write_and_sync-Keeps m bytes ne =
      chain
        (rescue_leads I
          (chain
            (within_leads _ (call_leads fails _ (λ d p. stable.put_keeps m _ d ne p) (λ d p. p)))
            (λ _.
              within_leads _ (call_leads fails _ (λ d p. stable.put_keeps m _ d ne p) (λ d p. p))))
          (λ e. chain (attempt-Keeps nothing-Keeps) (λ _. raise_leads e (λ d p. p))))
        (λ _. within_leads _ nothing-Keeps)

  -- what is done after an error, and then the error
  pub aside_then_raise :
      {m : Step (Unit {0})} {Q : Unit {0} → Claim} (e : Error)
      → Keeps I m
      → Leads I (attempt m >> raise {A = Unit {0}} e) Q I
  aside_then_raise e h = chain (attempt-Keeps h) (λ _. raise_leads e (λ d p. p))

  pub undone_leads :
      {Q : Unit {0} → Claim} (e : Error) (r : Result Error (Unit {0}))
      → Leads I (undone fails e r) Q I
  undone_leads e (ok _) = aside_then_raise _ sync_directory-Keeps
  undone_leads e (err removal) = raise_leads _ (λ d p. p)

  pub write_terminal_marker-Keeps :
      (record_name bytes : Text) (rollback : Bool)
      → marker_name record_name ≢ name
      → temp_name (marker_name record_name) ≢ name
      → Keeps I (write_terminal_marker fails record_name bytes rollback)
  unfolding write_terminal_marker
  write_terminal_marker-Keeps r bytes rollback ne ne' =
      chain
        (chain
          (chain (within_leads _ (create_file-Keeps _ ne')) (λ _.
            rescue_leads I (write_and_sync-Keeps _ bytes ne')
              (λ e. aside_then_raise e (remove-Keeps _ ne'))))
          (λ _.
            rescue_leads I (rename-Keeps _ _ ne' ne)
              (λ e. aside_then_raise _ (remove-Keeps _ ne'))))
        (λ _. rescue_leads I sync_directory-Keeps (λ e.
          when_leads rollback (chain (attempt-Keeps (remove-Keeps _ ne)) (undone_leads e))
            (raise_leads _ (λ d p. p))))

  removed-Keeps :
      (record_name bytes : Text)
      → marker_name record_name ≢ name
      → temp_name (marker_name record_name) ≢ name
      → (r : Result Error (Unit {0})) → Keeps I (after_removal fails record_name bytes r)
  removed-Keeps r bytes ne ne' (err e) =
      when_leads (is_not_exist e) (pure_leads tt (λ d p. p)) (raise_leads _ (λ d p. p))
  removed-Keeps r bytes ne ne' (ok _) = rescue_leads I sync_directory-Keeps (λ e.
      chain
        (rescue_leads I (write_terminal_marker-Keeps r bytes false ne ne')
          (λ failure. raise_leads _ (λ d p. p)))
        (λ _. raise_leads _ (λ d p. p)))

  pub remove_terminal_marker-Keeps :
      (record_name bytes : Text)
      → marker_name record_name ≢ name
      → temp_name (marker_name record_name) ≢ name
      → Keeps I (remove_terminal_marker fails record_name bytes)
  unfolding remove_terminal_marker
  remove_terminal_marker-Keeps r bytes ne ne' =
      chain (attempt-Keeps (remove-Keeps _ ne)) (removed-Keeps r bytes ne ne')

  module _ (json : Json) where
    unreadable-Keeps :
        (m : Text) → m ≢ name → (o : Option Text) → Keeps I (drop_unreadable fails m o)
    unreadable-Keeps m ne (some bytes) = pure_leads _ (λ d p. p)
    unreadable-Keeps m ne none =
        chain (attempt-Keeps (remove-Keeps m ne)) (λ _. pure_leads none (λ d p. p))

    pub existing_marker-Keeps :
        (m : Text) → m ≢ name → (r : Result Error Node) → Keeps I (existing_marker fails json m r)
    unfolding existing_marker
    existing_marker-Keeps m ne (err e) =
        when_leads (is_not_exist e) (pure_leads none (λ d p. p)) (raise_leads e (λ d p. p))
    existing_marker-Keeps m ne (ok (regular synced _)) =
        chain (attempt-Keeps (read_file-Keeps m)) (λ r. unreadable-Keeps m ne (marker_in json r))
    existing_marker-Keeps m ne (ok (symlink _)) = unreadable-Keeps m ne none
    existing_marker-Keeps m ne (ok (special _)) = unreadable-Keeps m ne none
