-- ===== src/App/Spool/Admission.antt =====
-- internal/app/spool.go: Admit, with the checks of a record and the bytes that the files of the
-- spool take.
pub mod Lasts
use hooversion.App.Spool.Disk.{
  Step, pure, raise, answer, ◌>>=◌, ◌>>◌, rescue, attempt, within, modify, when◌then◌else◌, look,
  call, lstat, remove, rename, create_file, write_and_sync, sync_directory,
}
use hooversion.App.Spool.{
  WebhookSpoolRecord, Json, Error, is_not_exist, wrapped, not_rolled_back, spool_closed,
  unsafe_path, invalid_record, too_large, spool_full, sequence_exhausted, Node, regular, size_of,
  WebhookSpool, webhook_spool_sequence, file_name, dir_name, temp_name, terminal_suffix,
  temp_suffix, json_suffix, max_key_bytes, max_delivery_bytes, max_uint64, sequence_width,
}
use hooversion.Common.Integers.{ℤ, pos, ◌+ℤ◌, neg, leb_int}
use hooversion.Common.{
  ℕ, zero, suc, ◌+◌, ◌-◌, Bool, true, false, not, ◌&&◌, ◌||◌, List, [], ◌∷◌, ◌++◌, Option, none,
  some, leb, ltb, if◌then◌else◌, Result, ok, err, length, map, take, drop, all,
}
use hooversion.Text.Decimal.{is_digit, format}
use hooversion.Text.Paths.{clean, render}
use hooversion.Text.{Text, codes, text_eq, byte_len, has_prefix, has_rune, contains_any, index}

-- safeSpoolKey
unfoldable pub safe_spool_key : Text → ℕ → Bool
safe_spool_key value max_bytes =
    ltb 0 (byte_len value)
    && leb (byte_len value) max_bytes
    && not (has_rune 0 value)
    && not (contains_any value (codes "\r\n"))

-- validSpoolRecord
unfoldable pub valid_spool_record : Json → WebhookSpoolRecord → ℕ → Bool
unfolding safe_spool_key
valid_spool_record json r max_body_bytes =
    (text_eq r.delivery_key []
      || (has_prefix r.delivery_key (codes "delivery:")
          && safe_spool_key r.delivery_key max_delivery_bytes))
    && safe_spool_key r.workflow_key max_key_bytes
    && has_prefix r.workflow_key (codes "workflow_run:")
    && safe_spool_key r.queue_key max_key_bytes
    && ltb 0 (byte_len r.payload)
    && leb (byte_len r.payload) max_body_bytes
    && json.is_valid_json r.payload

pub data ArtifactKind : Type 0 where
  no_artifact temp terminal quarantine : ArtifactKind

abbrev has_suffix : Text → Text → Bool
has_suffix s suffix =
    leb (length suffix) (length s) && text_eq (drop (length s - length suffix) s) suffix

abbrev trim_suffix : Text → Text → Text
trim_suffix s suffix = if has_suffix s suffix then take (length s - length suffix) s else s

abbrev pub is_record_name : Text → Bool
is_record_name name = elim (webhook_spool_sequence name) [ none ↦ false | some n ↦ true ]

abbrev is_count : Text → Bool
is_count [] = true
is_count (c ∷ digits) =
    has_prefix (c ∷ digits) (codes ".") && not (text_eq digits []) && all is_digit digits

abbrev is_quarantined : Text → Option ℕ → Bool
is_quarantined name none = false
is_quarantined name (some marker) =
    is_record_name (take (marker + length json_suffix) name)
    && is_count (drop (marker + length (codes ".json.corrupt")) name)

-- spoolArtifactKind
unfoldable pub spool_artifact_kind : Text → ArtifactKind
unfolding webhook_spool_sequence
spool_artifact_kind name =
    let core = trim_suffix (drop 1 name) temp_suffix in
    if has_prefix name (codes ".")
      && has_suffix name temp_suffix
      && (is_record_name core
          || (has_suffix core terminal_suffix && is_record_name (trim_suffix core terminal_suffix)))
    then temp
    else if has_suffix name terminal_suffix && is_record_name (trim_suffix name terminal_suffix)
    then terminal
    else if is_quarantined name (index name (codes ".json.corrupt"))
    then quarantine
    else no_artifact

abbrev is_artifact : ArtifactKind → Bool
is_artifact no_artifact = false
is_artifact _ = true

abbrev is_quarantine : ArtifactKind → Bool
is_quarantine quarantine = true
is_quarantine _ = false

abbrev regular_size : Node → ℕ
regular_size (regular synced bytes) = byte_len bytes
regular_size _ = 0

-- s.maxBytes - required, with total beyond it
abbrev pub is_beyond : ℤ → ℕ → ℕ → Bool
is_beyond total max_bytes required = not (leb_int total (pos max_bytes +ℤ neg (pos required)))

abbrev padded : ℕ → Text → Text
padded zero digits = digits
padded (suc n) digits = b'0' ∷ padded n digits

-- the name of a record
unfoldable pub spool_name : ℕ → Text
spool_name n = padded (sequence_width - length (format n)) (format n) ++ json_suffix

-- safePath
unfoldable pub safe_path : Text → Text → Option Text
unfolding webhook_spool_sequence
safe_path dir name =
    let path = render (clean (dir ++ b'/' ∷ name)) in
    if is_record_name name && text_eq (dir_name path) dir && text_eq (file_name path) name
    then some path
    else none

abbrev less_or_zero : ℤ → ℕ → ℤ
less_or_zero total n = if leb_int (pos n) total then total +ℤ neg (pos n) else pos 0

module _ (fails : ℕ → Bool) where
  -- readDirLocked, in the order of the directory
  unfoldable pub read_dir : Step (List Text)
  read_dir =
      call fails (λ d. (ok tt, d))
      >> (attempt (call fails (λ d. (ok (map (λ (e : Text × Node). e.0) d.visible), d)))
          >>= λ names. attempt (call fails (λ d. (ok tt, d))) >>= λ closed.
              answer names >>= λ found. answer closed >> pure found)

  -- the loop of artifactBytesLocked
  unfoldable pub artifact_total : List Text → Step ℕ
  unfolding spool_artifact_kind
  artifact_total [] = pure 0
  artifact_total (name ∷ names) =
      when is_artifact (spool_artifact_kind name)
      then (attempt (lstat fails name) >>= λ info. elim info [
        | ok node ↦ artifact_total names >>= λ total. pure (regular_size node + total)
        | err e ↦ when is_not_exist e then artifact_total names else raise e
      ])
      else artifact_total names

  -- artifactBytesLocked
  abbrev artifact_bytes_locked : Step ℕ
  artifact_bytes_locked = read_dir >>= artifact_total

  -- refreshArtifactBytesLocked
  unfoldable pub refresh_artifact_bytes : Step (Unit {0})
  unfolding read_dir artifact_total
  refresh_artifact_bytes = artifact_bytes_locked >>= λ current. modify (λ s. record s {
    bytes = s.bytes +ℤ (pos current +ℤ neg s.artifact_bytes);
    artifact_bytes = pos current;
  })

  -- the loop of cleanupQuarantineLocked
  unfoldable pub remove_quarantined : ℕ → List Text → Step (Unit {0})
  unfolding spool_artifact_kind
  remove_quarantined required [] = pure tt
  remove_quarantined required (name ∷ names) =
      when is_quarantine (spool_artifact_kind name)
      then (attempt (lstat fails name) >>= λ info. elim info [
        | err e ↦ when is_not_exist e then remove_quarantined required names else raise e
        | ok node ↦
            remove fails name
            >> modify (λ s. record s { bytes = less_or_zero s.bytes (size_of node) })
            >> look (λ s. is_beyond s.bytes s.max_bytes required)
                (λ beyond. when beyond then remove_quarantined required names else pure tt)
      ])
      else remove_quarantined required names

  -- cleanupQuarantineLocked
  unfoldable pub cleanup_quarantine : ℕ → Step (Unit {0})
  unfolding remove_quarantined read_dir artifact_total
  cleanup_quarantine required =
      look (λ s. is_beyond s.bytes s.max_bytes required)
        (λ beyond.
          when beyond
          then ((read_dir >>= remove_quarantined required)
              >> within (codes "sync webhook spool cleanup") (sync_directory fails)
              >> (artifact_bytes_locked >>= λ total.
                  modify (λ s. record s { artifact_bytes = pos total })))
          else pure tt)

  abbrev pub undone_record : Error → Result Error (Unit {0}) → Step (Unit {0})
  undone_record e (ok _) =
      attempt (sync_directory fails) >> raise (wrapped (codes "sync webhook spool directory") e)
  undone_record e (err removal) = raise (
      if is_not_exist removal
      then wrapped (codes "sync webhook spool directory") e
      else not_rolled_back (codes "sync webhook spool directory") e removal)

  -- what follows on a name that is free
  unfoldable pub write_record : Text → Text → Step (Unit {0})
  unfolding write_and_sync sync_directory
  write_record name bytes =
      within (codes "create webhook spool record") (create_file fails (temp_name name))
      >> rescue (write_and_sync fails (temp_name name) bytes)
          (λ e. attempt (remove fails (temp_name name)) >> raise e)
      >> rescue (rename fails (temp_name name) name) (λ e.
        attempt (remove fails (temp_name name))
        >> raise (wrapped (codes "commit webhook spool record") e))
      >> rescue (sync_directory fails) (λ e. attempt (remove fails name) >>= undone_record e)

  abbrev pub counted : Text → WebhookSpool → WebhookSpool
  counted bytes s = record s { bytes = s.bytes +ℤ pos (byte_len bytes); records = s.records + 1 }

  abbrev pub at_name : Text → Step Text → Text → Text → Result Error Node → Step Text
  at_name bytes later path name (ok node) = later
  at_name bytes later path name (err e) =
      when is_not_exist e
      then (write_record name bytes >> (modify (counted bytes) >> pure path))
      else raise e

  abbrev pub at_path : Text → Step Text → Text → Option Text → Step Text
  at_path bytes later name none = raise unsafe_path
  at_path bytes later name (some path) =
      attempt (lstat fails name) >>= at_name bytes later path name

  -- the loop of Admit, which ends for good at the largest sequence number: `left` is what is left
  -- up to it
  unfoldable pub admit_from : Text → ℕ → Step Text
  unfolding write_record
  admit_from bytes zero = raise sequence_exhausted
  admit_from bytes (suc left) =
      look (λ s. s)
        (λ s.
          modify (λ t. record t { next = t.next + 1 })
          >> at_path bytes (admit_from bytes left) (spool_name s.next)
              (safe_path s.dir (spool_name s.next)))

  abbrev pub admit_open : Text → Step Text
  admit_open bytes =
      refresh_artifact_bytes
      >> (cleanup_quarantine (byte_len bytes)
          >> look (λ s. s)
              (λ s.
                when leb s.max_records s.records || is_beyond s.bytes s.max_bytes (byte_len bytes)
                then raise spool_full
                else admit_from bytes (max_uint64 - s.next)))

  -- Admit
  unfoldable pub admit : Json → WebhookSpoolRecord → Step Text
  unfolding admit_from refresh_artifact_bytes cleanup_quarantine
  admit json r =
      look (λ s. s)
        (λ s.
          let bytes = json.encode_record 1 r in
          when not (valid_spool_record json r s.max_body_bytes)
          then raise invalid_record
          else when ltb s.max_record_bytes (byte_len bytes)
          then raise too_large
          else when s.closed
          then raise spool_closed
          else admit_open bytes)
