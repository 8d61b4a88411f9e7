-- ===== src/Envutil.antt =====
-- internal/envutil/envutil.go: the variables of the environment that a child process is given.
use hooversion.Common.{List, [], ◌∷◌, ◌++◌, Option, none, some, if◌then◌else◌, length, drop}
use hooversion.Text.{Text, has_prefix}

-- The last entry of a name wins.
unfoldable pub last_entry : List Text → Text → Option Text
last_entry [] prefix = none
last_entry (entry ∷ entries) prefix = elim (last_entry entries prefix) [
  | none ↦ if has_prefix entry prefix then some (drop (length prefix) entry) else none
  | some value ↦ some value
]

-- Get; `parent` is os.Getenv, which is read for a nil environment only
unfoldable pub get : (Text → Text) → Option (List Text) → Text → Text
get parent none name = parent name
get parent (some entries) name = elim (last_entry entries (name ++ b'=' ∷ [])) [
  | none ↦ []
  | some value ↦ value
]
