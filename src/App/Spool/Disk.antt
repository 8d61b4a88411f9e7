-- ===== src/App/Spool/Disk.antt =====
-- internal/app/spool.go: the calls on the directory of a spool. Any call may fail, as the oracle
-- `fails` has it for the number of the call. A name that was changed since the last sync may
-- stand for its old or for its new file after a crash, whatever the other names do.
use hooversion.Common.{
  true, false, ℕ, suc, Bool, [], ◌∷◌, Option, none, some, if◌then◌else◌, Result, ok, err,
}
use hooversion.App.Spool.{
  Error, not_exist, exists, failed, wrapped, Node, regular, Directory, WebhookSpool,
}
use hooversion.Text.Maps.{lookup, insert, delete}
use hooversion.Text.{Text, codes, text_eq}

abbrev pub Step : Type 0 → Type 0
Step A = WebhookSpool → Result Error A × WebhookSpool

unfoldable pub pure : {A : Type 0} → A → Step A
pure a s = (ok a, s)

unfoldable pub raise : {A : Type 0} → Error → Step A
raise e s = (err e, s)

abbrev pub answer : {A : Type 0} → Result Error A → Step A
answer (ok a) = pure a
answer (err e) = raise e

abbrev pub first_error : Result Error (Unit {0}) → Result Error (Unit {0}) → Result Error (Unit {0})
first_error (ok a) r = r
first_error (err e) r = err e

abbrev pub continue_with :
    {A B : Type 0} → Result Error A × WebhookSpool → (A → Step B) → Result Error B × WebhookSpool
continue_with (ok a, s) f = f a s
continue_with (err e, s) f = (err e, s)

infixl 5 ◌>>=◌ ◌>>◌
unfoldable pub ◌>>=◌ : {A B : Type 0} → Step A → (A → Step B) → Step B
◌>>=◌ m f s = continue_with (m s) f

abbrev pub ◌>>◌ : {A B : Type 0} → Step A → Step B → Step B
m >> k = m >>= λ _. k

abbrev pub recover_with :
    {A : Type 0} → Result Error A × WebhookSpool → (Error → Step A) → Result Error A × WebhookSpool
recover_with (ok a, s) f = (ok a, s)
recover_with (err e, s) f = f e s

-- if err := m; err != nil { handler }
unfoldable pub rescue : {A : Type 0} → Step A → (Error → Step A) → Step A
rescue m handler s = recover_with (m s) handler

-- a call whose error is a value
unfoldable pub attempt : {A : Type 0} → Step A → Step (Result Error A)
attempt m s = let done = m s in (ok done.0, done.1)

abbrev pub within : {A : Type 0} → Text → Step A → Step A
within what m = rescue m (λ e. raise (wrapped what e))

-- a change of the fields of the spool that are in memory
unfoldable pub modify : (WebhookSpool → WebhookSpool) → Step (Unit {0})
modify f s = (ok tt, record (f s) { disk = s.disk; calls = s.calls })

infix 1 when◌then◌else◌
unfoldable pub when◌then◌else◌ : {A : Type 0} → Bool → Step A → Step A → Step A
when◌then◌else◌ test m n s = if test then m s else n s

unfoldable pub look : {A B : Type 0} → (WebhookSpool → B) → (B → Step A) → Step A
look see f s = f (see s) s

unfoldable pub put : Text → Option Node → Directory → Directory
unfolding text_eq
put name node d = record {
  visible = elim node [ none ↦ delete name d.visible | some n ↦ insert name n d.visible ];
  held = λ other. if text_eq name other then node ∷ d.held other else d.held other;
}

-- after a sync of the directory a crash leaves each name with its file; the content of a file that
-- was not synced is not settled by it
unfoldable pub settle : Directory → Directory
settle d = record d { held = λ name. lookup name d.visible ∷ [] }

abbrev pub remove_call : Text → Option Node → Directory → Result Error (Unit {0}) × Directory
remove_call name none d = (err not_exist, d)
remove_call name (some node) d = (ok tt, put name none d)

abbrev pub rename_call : Text → Text → Option Node → Directory → Result Error (Unit {0}) × Directory
rename_call old new none d = (err not_exist, d)
rename_call old new (some node) d = (ok tt, put new (some node) (put old none d))

abbrev pub create_call : Text → Option Node → Directory → Result Error (Unit {0}) × Directory
create_call name none d = (ok tt, put name (some (regular false [])) d)
create_call name (some node) d = (err exists, d)

-- the file behind a name whose content is on disk now
abbrev pub synced : Option Node → Option Node
synced (some (regular before bytes)) = some (regular true bytes)
synced other = other

abbrev pub found : Option Node → Result Error Node
found none = err not_exist
found (some node) = ok node

abbrev pub content : Option Node → Result Error Text
content none = err not_exist
content (some (regular synced bytes)) = ok bytes
content (some _) = err failed

module _ (fails : ℕ → Bool) where
  -- one call, which fails and changes nothing or does what it is for
  unfoldable pub call : {A : Type 0} → (Directory → Result Error A × Directory) → Step A
  call f s =
      let done = f s.disk in
      if fails s.calls
      then (err failed, record s { calls = suc s.calls })
      else (done.0, record s { calls = suc s.calls; disk = done.1 })

  -- s.root.Lstat
  abbrev pub lstat : Text → Step Node
  lstat name = call (λ d. (found (lookup name d.visible), d))

  -- s.root.ReadFile
  abbrev pub read_file : Text → Step Text
  read_file name = call (λ d. (content (lookup name d.visible), d))

  -- s.root.Remove
  abbrev pub remove : Text → Step (Unit {0})
  remove name = call (λ d. remove_call name (lookup name d.visible) d)

  -- s.root.Rename, which takes the old name away and puts its file at the new one
  abbrev pub rename : Text → Text → Step (Unit {0})
  rename old new = call (λ d. rename_call old new (lookup old d.visible) d)

  -- s.root.OpenFile with O_CREATE and O_EXCL
  abbrev pub create_file : Text → Step (Unit {0})
  create_file name = call (λ d. create_call name (lookup name d.visible) d)

  abbrev nothing : Step (Unit {0})
  nothing = call (λ d. (ok tt, d))

  -- writeAndSync; a file that is not written to its end is left empty here, and its content is on
  -- disk when it was synced
  unfoldable pub write_and_sync : Text → Text → Step (Unit {0})
  write_and_sync name bytes =
      rescue
        (within (codes "write webhook spool record")
            (call (λ d. (ok tt, put name (some (regular false bytes)) d)))
          >> within (codes "sync webhook spool record")
              (call (λ d. (ok tt, put name (synced (lookup name d.visible)) d))))
        (λ e. attempt nothing >> raise e)
      >> within (codes "close webhook spool record") nothing

  -- syncWebhookSpoolDirectory
  unfoldable pub sync_directory : Step (Unit {0})
  sync_directory =
      nothing
      >> (attempt (call (λ d. (ok tt, settle d))) >>= λ synced.
          attempt nothing >>= λ closed. answer (first_error synced closed))
