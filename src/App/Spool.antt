-- ===== src/App/Spool.antt =====
-- internal/app/spool.go: the durable backlog of the webhook service, a directory with a file for
-- each record that waits. An operation holds the mutex of the spool, and the lock of its owner
-- keeps other processes out, so an operation is one sequence of calls on the directory.
pub mod Disk
pub mod Acks
pub mod Admission
mod Examples
use hooversion.Common.Integers.{ℤ}
use hooversion.Common.{
  ℕ, suc, Bool, true, false, not, ◌&&◌, ◌||◌, List, [], ◌∷◌, ◌++◌, Option, none, some, ltb, leb,
  ◌==◌, ◌^◌, ◌+◌, ◌-◌, if◌then◌else◌, length, take, drop, all,
}
use hooversion.Text.Decimal.{is_digit, value_from, format}
use hooversion.Text.Maps.{TextMap}
use hooversion.Text.Paths.{dot, clean, render}
use hooversion.Text.{
  trim_right, last_index, Text, codes, byte_len, has_prefix, contains_any, has_rune, text_eq,
}

abbrev pub max_key_bytes : ℕ
max_key_bytes = 2048

abbrev pub max_delivery_bytes : ℕ
max_delivery_bytes = 256

abbrev pub sequence_width : ℕ
sequence_width = 20

abbrev pub max_uint64 : ℕ
max_uint64 = 2 ^ 64 - 1

abbrev pub terminal_suffix : Text
terminal_suffix = codes ".terminal"

abbrev pub temp_suffix : Text
temp_suffix = codes ".tmp"

abbrev pub json_suffix : Text
json_suffix = codes ".json"

-- WebhookSpoolRecord
pub record WebhookSpoolRecord : Type 0 where
  pub delivery_key : Text
  pub workflow_key : Text
  pub queue_key : Text
  pub payload : Text

pub data Status : Type 0 where
  completed failed : Status
  other_status : Text → Status

-- persistedWebhookSpoolTerminal
pub record Terminal : Type 0 where
  pub version : ℕ
  pub status : Status

-- What encoding/json makes of the files of a spool.
pub record Json : Type 0 where
  pub encode_terminal : Terminal → Text
  pub decode_terminal : Text → Option Terminal
  pub encode_record : ℕ → WebhookSpoolRecord → Text
  pub is_valid_json : Text → Bool

pub data Error : Type 0 where
  not_exist exists failed : Error
  wrapped : Text → Error → Error
  not_rolled_back : Text → Error → Error → Error
  invalid_status spool_closed unsafe_path not_regular : Error
  invalid_record too_large spool_full sequence_exhausted : Error

-- os.IsNotExist, which does not look into a wrapped error
abbrev pub is_not_exist : Error → Bool
is_not_exist not_exist = true
is_not_exist _ = false

-- What a name of the directory stands for. Of a regular file it is told whether its content is on
-- disk: a crash leaves any other content of one that was not synced. What is no regular file has a
-- size only.
pub data Node : Type 0 where
  regular : Bool → Text → Node
  symlink special : ℕ → Node

-- info.Size()
abbrev pub size_of : Node → ℕ
size_of (regular synced bytes) = byte_len bytes
size_of (symlink n) = n
size_of (special n) = n

-- The directory as the process sees it, and for each name what it may stand for after a crash:
-- what it stood for at the last sync, and everything since.
pub record Directory : Type 0 where
  pub visible : TextMap Node
  pub held : Text → List (Option Node)

-- WebhookSpool; `calls` counts the calls on the directory
pub record WebhookSpool : Type 0 where
  pub disk : Directory
  pub calls : ℕ
  pub dir : Text
  pub max_body_bytes : ℕ
  pub max_record_bytes : ℕ
  pub max_bytes : ℕ
  pub max_records : ℕ
  pub bytes : ℤ
  pub artifact_bytes : ℤ
  pub records : ℕ
  pub next : ℕ
  pub claimed : List Text
  pub closed : Bool
  pub has_root : Bool

-- webhookSpoolSequence
unfoldable pub webhook_spool_sequence : Text → Option ℕ
webhook_spool_sequence name =
    let digits = take sequence_width name in
    if byte_len name == sequence_width + 5
      && text_eq (drop sequence_width name) json_suffix
      && all is_digit digits
      && leb (value_from 0 digits) max_uint64
    then some (value_from 0 digits)
    else none

-- filepath.Base and filepath.Dir of a path that is not empty
abbrev behind_slash : Text → Option ℕ → Text
behind_slash path none = path
behind_slash path (some i) = drop (suc i) path

abbrev up_to_slash : Text → Option ℕ → Text
up_to_slash path none = dot
up_to_slash path (some i) = render (clean (take (suc i) path))

abbrev is_slash : ℕ → Bool
is_slash c = c == b'/'

abbrev pub file_name : Text → Text
file_name path = let bare = trim_right is_slash path in behind_slash bare (last_index bare b'/')

abbrev pub dir_name : Text → Text
dir_name path = up_to_slash path (last_index path b'/')

abbrev of_sequence : Text → Option ℕ → Option Text
of_sequence name none = none
of_sequence name (some sequence) = some name

-- nameForPath
unfoldable pub name_for_path : Text → Text → Option Text
unfolding webhook_spool_sequence
name_for_path dir path =
    if text_eq (dir_name path) dir
    then of_sequence (file_name path) (webhook_spool_sequence (file_name path))
    else none

abbrev pub marker_name : Text → Text
marker_name name = name ++ terminal_suffix

abbrev pub temp_name : Text → Text
temp_name name = b'.' ∷ (name ++ temp_suffix)
