-- ===== src/App/Spool/Examples.antt =====
-- internal/app/spool.go: runs of AckTerminal and Admit at one place.
use hooversion.App.Spool.Acks.Claims.{HasSureMarker, IsPresent, IsGone, IsGuarded}
use hooversion.App.Spool.Acks.Lasting.{ack_terminal-IsGuarded}
use hooversion.App.Spool.Acks.Triples.{Outcome, disk_of, Anything}
use hooversion.App.Spool.Admission.Lasts.{HoldsRecord, admit-HoldsRecord}
use hooversion.App.Spool.Admission.{admit}
use hooversion.App.Spool.Acks.{ack_terminal}
use hooversion.App.Spool.Disk.{put}
use hooversion.App.Spool.{
  Status, completed, failed, other_status, Terminal, Json, WebhookSpoolRecord, Node, regular,
  Directory, WebhookSpool, name_for_path, marker_name,
}
use hooversion.Common.Integers.{pos}
use hooversion.Common.{
  zero, suc, ◌≡◌, refl, inl, true, false, [], ◌∷◌, Option, none, some, ◌==◌, ok,
}
use hooversion.Text.Maps.{lookup}
use hooversion.Text.{Text, codes}

abbrev record_name : Text
record_name = codes "00000000000000000001.json"

abbrev record_path : Text
record_path = codes "/spool/00000000000000000001.json"

abbrev encode_status : Status → Text
encode_status completed = 0 ∷ []
encode_status failed = 1 ∷ []
encode_status (other_status s) = 2 ∷ s

abbrev decode_status : Text → Option Terminal
decode_status (zero ∷ []) = some (record { version = 1; status = completed })
decode_status (suc zero ∷ []) = some (record { version = 1; status = failed })
decode_status (suc (suc zero) ∷ s) = some (record { version = 1; status = other_status s })
decode_status _ = none

abbrev small_json : Json
small_json = record {
  encode_terminal = λ marker. encode_status marker.status;
  decode_terminal = decode_status;
  encode_record = λ version r. r.payload;
  is_valid_json = λ bytes. true;
}

abbrev one_record : WebhookSpool
one_record = record {
  disk = record {
    visible = (record_name, regular true (codes "{}")) ∷ [];
    held = λ name. lookup name ((record_name, regular true (codes "{}")) ∷ []) ∷ [];
  };
  calls = 0;
  dir = codes "/spool";
  max_body_bytes = 1048576;
  max_record_bytes = 1576960;
  max_bytes = 67108864;
  max_records = 4096;
  bytes = pos 2;
  artifact_bytes = pos 0;
  records = 1;
  next = 2;
  claimed = record_path ∷ [];
  closed = false;
  has_root = true;
}

small_json_reads :
    (st : Status) → decode_status (encode_status st) ≡ some (record { version = 1; status = st })
small_json_reads completed = refl
small_json_reads failed = refl
small_json_reads (other_status s) = refl

name_of_path : name_for_path (codes "/spool") record_path ≡ some record_name
unfolding ack_terminal hooversion.App.Spool.Acks.ack_record
    hooversion.App.Spool.Acks.existing_marker hooversion.App.Spool.Acks.remove_terminal_marker
    hooversion.App.Spool.Acks.write_terminal_marker hooversion.App.Spool.Disk.attempt
    hooversion.App.Spool.Disk.call hooversion.App.Spool.Disk.look hooversion.App.Spool.Disk.modify
    hooversion.App.Spool.Disk.pure hooversion.App.Spool.Disk.raise hooversion.App.Spool.Disk.rescue
    hooversion.App.Spool.Disk.settle hooversion.App.Spool.Disk.sync_directory
    hooversion.App.Spool.Disk.when◌then◌else◌ hooversion.App.Spool.Disk.write_and_sync
    hooversion.App.Spool.Disk.◌>>=◌ hooversion.App.Spool.webhook_spool_sequence
    hooversion.Text.Decimal.is_digit hooversion.Text.Decimal.value_from hooversion.Text.Maps.delete
    hooversion.Text.Maps.insert hooversion.Text.Paths.clean hooversion.Text.Paths.is_abs
    hooversion.Text.Paths.render hooversion.Text.byte_len hooversion.Text.has_prefix
    hooversion.Text.join hooversion.Text.last_index hooversion.Text.split hooversion.Text.text_eq
    hooversion.Text.trim_right lookup name_for_path put
name_of_path = refl

-- no marker can be seen
no_marker : HasSureMarker small_json record_name one_record.disk
unfolding lookup
no_marker e = cc

record_IsPresent : IsPresent record_name one_record.disk
unfolding lookup
record_IsPresent e = cc

-- the sync behind the removal of the record fails
ack_terminal-IsGuarded_example :
    Outcome disk_of
      (λ _. IsGone record_name)
      (IsGuarded small_json record_name)
      (ack_terminal (λ n. n == 12) small_json record_path completed one_record)
ack_terminal-IsGuarded_example =
    ack_terminal-IsGuarded (λ n. n == 12) small_json record_name record_path completed one_record
      small_json_reads name_of_path (inl (no_marker, record_IsPresent))

-- with no failure the record and its marker are gone
ack_terminal_succeeds :
    (ack_terminal (λ n. false) small_json record_path completed one_record).0 ≡ ok tt
unfolding ack_terminal hooversion.App.Spool.Acks.ack_record
    hooversion.App.Spool.Acks.existing_marker hooversion.App.Spool.Acks.remove_terminal_marker
    hooversion.App.Spool.Acks.write_terminal_marker hooversion.App.Spool.Disk.attempt
    hooversion.App.Spool.Disk.call hooversion.App.Spool.Disk.look hooversion.App.Spool.Disk.modify
    hooversion.App.Spool.Disk.pure hooversion.App.Spool.Disk.raise hooversion.App.Spool.Disk.rescue
    hooversion.App.Spool.Disk.settle hooversion.App.Spool.Disk.sync_directory
    hooversion.App.Spool.Disk.when◌then◌else◌ hooversion.App.Spool.Disk.write_and_sync
    hooversion.App.Spool.Disk.◌>>=◌ hooversion.App.Spool.webhook_spool_sequence
    hooversion.Text.Decimal.is_digit hooversion.Text.Decimal.value_from hooversion.Text.Maps.delete
    hooversion.Text.Maps.insert hooversion.Text.Paths.clean hooversion.Text.Paths.is_abs
    hooversion.Text.Paths.render hooversion.Text.byte_len hooversion.Text.has_prefix
    hooversion.Text.join hooversion.Text.last_index hooversion.Text.split hooversion.Text.text_eq
    hooversion.Text.trim_right lookup name_for_path put
ack_terminal_succeeds = refl

-- a failure of the sync behind the removal leaves the marker alone in the directory
ack_terminal_half :
    lookup record_name
      (ack_terminal (λ n. n == 12) small_json record_path completed one_record).1.disk.visible
    ≡ none
unfolding ack_terminal hooversion.App.Spool.Acks.ack_record
    hooversion.App.Spool.Acks.existing_marker hooversion.App.Spool.Acks.remove_terminal_marker
    hooversion.App.Spool.Acks.write_terminal_marker hooversion.App.Spool.Disk.attempt
    hooversion.App.Spool.Disk.call hooversion.App.Spool.Disk.look hooversion.App.Spool.Disk.modify
    hooversion.App.Spool.Disk.pure hooversion.App.Spool.Disk.raise hooversion.App.Spool.Disk.rescue
    hooversion.App.Spool.Disk.settle hooversion.App.Spool.Disk.sync_directory
    hooversion.App.Spool.Disk.when◌then◌else◌ hooversion.App.Spool.Disk.write_and_sync
    hooversion.App.Spool.Disk.◌>>=◌ hooversion.App.Spool.webhook_spool_sequence
    hooversion.Text.Decimal.is_digit hooversion.Text.Decimal.value_from hooversion.Text.Maps.delete
    hooversion.Text.Maps.insert hooversion.Text.Paths.clean hooversion.Text.Paths.is_abs
    hooversion.Text.Paths.render hooversion.Text.byte_len hooversion.Text.has_prefix
    hooversion.Text.join hooversion.Text.last_index hooversion.Text.split hooversion.Text.text_eq
    hooversion.Text.trim_right lookup name_for_path put
ack_terminal_half = refl

abbrev small_record : WebhookSpoolRecord
small_record = record {
  delivery_key = codes "delivery:1";
  workflow_key = codes "workflow_run:1";
  queue_key = codes "hoo/app";
  payload = codes "{}";
}

-- the sync of the file fails
admit-HoldsRecord_example :
    Outcome disk_of
      (HoldsRecord (codes "{}"))
      Anything
      (admit (λ n. n == 9) small_json small_record one_record)
admit-HoldsRecord_example = admit-HoldsRecord (λ n. n == 9) small_json small_record one_record

-- with no failure the record is accepted under the next number
admit_succeeds :
    (admit (λ n. false) small_json small_record one_record).0
    ≡ ok (codes "/spool/00000000000000000002.json")
unfolding admit hooversion.App.Spool.Admission.admit_from
    hooversion.App.Spool.Admission.artifact_total hooversion.App.Spool.Admission.cleanup_quarantine
    hooversion.App.Spool.Admission.read_dir hooversion.App.Spool.Admission.refresh_artifact_bytes
    hooversion.App.Spool.Admission.remove_quarantined hooversion.App.Spool.Admission.safe_path
    hooversion.App.Spool.Admission.safe_spool_key hooversion.App.Spool.Admission.spool_artifact_kind
    hooversion.App.Spool.Admission.spool_name hooversion.App.Spool.Admission.valid_spool_record
    hooversion.App.Spool.Admission.write_record hooversion.App.Spool.Disk.attempt
    hooversion.App.Spool.Disk.call hooversion.App.Spool.Disk.look hooversion.App.Spool.Disk.modify
    hooversion.App.Spool.Disk.pure hooversion.App.Spool.Disk.raise hooversion.App.Spool.Disk.rescue
    hooversion.App.Spool.Disk.settle hooversion.App.Spool.Disk.sync_directory
    hooversion.App.Spool.Disk.when◌then◌else◌ hooversion.App.Spool.Disk.write_and_sync
    hooversion.App.Spool.Disk.◌>>=◌ hooversion.App.Spool.webhook_spool_sequence
    hooversion.Text.Decimal.format hooversion.Text.Decimal.is_digit
    hooversion.Text.Decimal.value_from hooversion.Text.Maps.delete hooversion.Text.Maps.insert
    hooversion.Text.Paths.clean hooversion.Text.Paths.is_abs hooversion.Text.Paths.render
    hooversion.Text.byte_len hooversion.Text.contains_any hooversion.Text.has_prefix
    hooversion.Text.has_rune hooversion.Text.index hooversion.Text.join hooversion.Text.last_index
    hooversion.Text.split hooversion.Text.text_eq hooversion.Text.trim_right lookup put
admit_succeeds = refl
