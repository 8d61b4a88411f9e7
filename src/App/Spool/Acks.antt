-- ===== src/App/Spool/Acks.antt =====
-- internal/app/spool.go: AckTerminal. A marker beside the record says that it is done, and is
-- there until the removal of the record is sure to last.
pub mod Triples
pub mod Markers
pub mod Claims
pub mod Written
pub mod Removed
pub mod Retried
pub mod Lasting
use hooversion.App.Spool.Disk.{
  Step, pure, raise, ◌>>=◌, ◌>>◌, rescue, attempt, within, modify, when◌then◌else◌, look, lstat,
  read_file, remove, rename, create_file, write_and_sync, sync_directory,
}
use hooversion.App.Spool.{
  Status, completed, failed, other_status, Terminal, Json, Error, is_not_exist, wrapped,
  not_rolled_back, invalid_status, spool_closed, unsafe_path, not_regular, Node, regular, symlink,
  special, size_of, WebhookSpool, name_for_path, marker_name, temp_name,
}
use hooversion.Common.Integers.{ℤ, pos, ◌+ℤ◌, neg, leb_int}
use hooversion.Common.{
  ℕ, Bool, true, false, not, ◌&&◌, List, Option, none, some, ◌==◌, ◌-◌, if◌then◌else◌, filter,
  Result, ok, err,
}
use hooversion.Text.{Text, codes, text_eq, byte_len}

abbrev pub is_status : Status → Bool
is_status (other_status s) = false
is_status _ = true

abbrev pub is_terminal : Option Terminal → Bool
is_terminal none = false
is_terminal (some marker) = marker.version == 1 && is_status marker.status

abbrev pub marker_in : Json → Result Error Text → Option Text
marker_in json (err e) = none
marker_in json (ok bytes) = if is_terminal (json.decode_terminal bytes) then some bytes else none

-- if total >= n { total -= n }
abbrev subtract : ℤ → ℕ → ℤ
subtract total n = if leb_int (pos n) total then total +ℤ neg (pos n) else total

abbrev less : ℤ → ℕ → ℤ
less total n = if leb_int (pos n) total then total +ℤ neg (pos n) else pos 0

-- delete(s.claimed, path)
abbrev pub unclaimed : Text → WebhookSpool → WebhookSpool
unclaimed path s = record s { claimed = filter (λ p. not (text_eq p path)) s.claimed }

abbrev marker_added : Text → WebhookSpool → WebhookSpool
marker_added bytes s = record s {
  artifact_bytes = s.artifact_bytes +ℤ pos (byte_len bytes);
  bytes = s.bytes +ℤ pos (byte_len bytes);
}

abbrev pub marker_removed : Text → Text → WebhookSpool → WebhookSpool
marker_removed path bytes s = record (unclaimed path s) {
  artifact_bytes = subtract s.artifact_bytes (byte_len bytes);
  bytes = subtract s.bytes (byte_len bytes);
}

abbrev record_removed : Text → Node → WebhookSpool → WebhookSpool
record_removed path info s = record (unclaimed path s) {
  records = s.records - 1;
  bytes = less s.bytes (size_of info);
}

module _ (fails : ℕ → Bool) where
  abbrev pub undone : Error → Result Error (Unit {0}) → Step (Unit {0})
  undone e (ok _) =
      attempt (sync_directory fails)
      >> raise (wrapped (codes "sync webhook spool terminal marker") e)
  undone e (err removal) = raise (
      if is_not_exist removal
      then wrapped (codes "sync webhook spool terminal marker") e
      else not_rolled_back (codes "sync webhook spool terminal marker") e removal)

  -- writeTerminalMarkerLocked
  unfoldable pub write_terminal_marker : Text → Text → Bool → Step (Unit {0})
  unfolding write_and_sync
  write_terminal_marker name bytes rollback =
      let marker = marker_name name in
      let temp = temp_name marker in
      within (codes "create webhook spool terminal marker") (create_file fails temp)
      >> rescue (write_and_sync fails temp bytes) (λ e. attempt (remove fails temp) >> raise e)
      >> rescue (rename fails temp marker) (λ e.
        attempt (remove fails temp)
        >> raise (wrapped (codes "commit webhook spool terminal marker") e))
      >> rescue (sync_directory fails) (λ e.
        when rollback
        then attempt (remove fails marker) >>= undone e
        else raise (wrapped (codes "sync webhook spool terminal marker") e))

  abbrev pub after_removal : Text → Text → Result Error (Unit {0}) → Step (Unit {0})
  after_removal name bytes (err e) =
      when is_not_exist e
      then pure tt
      else raise (wrapped (codes "remove webhook spool terminal marker") e)
  after_removal name bytes (ok _) = rescue (sync_directory fails) (λ e.
      rescue (write_terminal_marker name bytes false)
        (λ failure. raise (not_rolled_back (codes "sync webhook spool terminal cleanup") e failure))
      >> raise (wrapped (codes "sync webhook spool terminal cleanup") e))

  -- removeTerminalMarkerLocked
  unfoldable pub remove_terminal_marker : Text → Text → Step (Unit {0})
  unfolding write_terminal_marker
  remove_terminal_marker name bytes =
      attempt (remove fails (marker_name name)) >>= after_removal name bytes

  abbrev pub drop_unreadable : Text → Option Text → Step (Option Text)
  drop_unreadable marker (some bytes) = pure (some bytes)
  drop_unreadable marker none = attempt (remove fails marker) >> pure none

  module _ (json : Json) where
    -- The content of a marker that is there and can be read; anything else at its name is removed.
    unfoldable pub existing_marker : Text → Result Error Node → Step (Option Text)
    existing_marker marker (err e) = when is_not_exist e then pure none else raise e
    existing_marker marker (ok (regular synced _)) =
        attempt (read_file fails marker) >>= λ r. drop_unreadable marker (marker_in json r)
    existing_marker marker (ok (symlink n)) = drop_unreadable marker none
    existing_marker marker (ok (special n)) = drop_unreadable marker none

  abbrev pub finish_marker : Text → Text → Text → Step (Unit {0})
  finish_marker path name bytes =
      within (codes "sync webhook spool record cleanup") (sync_directory fails)
      >> (remove_terminal_marker name bytes >> modify (marker_removed path bytes))

  -- where the record is not there any more
  abbrev pub ack_removed : Text → Text → Option Text → Step (Unit {0})
  ack_removed path name none = modify (unclaimed path)
  ack_removed path name (some bytes) = finish_marker path name bytes

  abbrev pub mark : Text → Text → Option Text → Step (Unit {0})
  mark name fresh (some bytes) = pure tt
  mark name fresh none = write_terminal_marker name fresh true >> modify (marker_added fresh)

  abbrev pub or_fresh : Text → Option Text → Text
  or_fresh fresh none = fresh
  or_fresh fresh (some bytes) = bytes

  abbrev pub after_record_removal : Text → Node → Result Error (Unit {0}) → Step (Unit {0})
  after_record_removal path info (ok _) = modify (record_removed path info)
  after_record_removal path info (err e) =
      when is_not_exist e then pure tt else raise (wrapped (codes "remove webhook spool record") e)

  abbrev pub remove_record : Text → Text → Node → Step (Unit {0})
  remove_record path name info = attempt (remove fails name) >>= after_record_removal path info

  unfoldable pub ack_record : Text → Text → Text → Option Text → Result Error Node → Step (Unit {0})
  unfolding remove_terminal_marker
  ack_record path name fresh existing (err e) =
      when is_not_exist e then ack_removed path name existing else raise e
  ack_record path name fresh existing (ok (regular synced bytes)) =
      mark name fresh existing
      >> (remove_record path name (regular synced bytes)
          >> finish_marker path name (or_fresh fresh existing))
  ack_record path name fresh existing (ok _) = raise not_regular

  abbrev pub ack_named : Json → Text → Status → Text → Step (Unit {0})
  ack_named json path status name =
      let fresh = json.encode_terminal (record { version = 1; status = status }) in
      attempt (lstat fails (marker_name name)) >>= λ seen.
      existing_marker json (marker_name name) seen >>= λ existing.
      attempt (lstat fails name) >>= λ info. ack_record path name fresh existing info

  abbrev pub ack_path : Json → Text → Status → Option Text → Step (Unit {0})
  ack_path json path status none = raise unsafe_path
  ack_path json path status (some name) = ack_named json path status name

  -- AckTerminal
  unfoldable pub ack_terminal : Json → Text → Status → Step (Unit {0})
  unfolding existing_marker ack_record
  ack_terminal json path status =
      when not (is_status status)
      then raise invalid_status
      else look (λ s. s)
          (λ s.
            when s.closed && not s.has_root
            then raise spool_closed
            else ack_path json path status (name_for_path s.dir path))
