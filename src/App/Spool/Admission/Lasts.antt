-- ===== src/App/Spool/Admission/Lasts.antt =====
-- internal/app/spool.go: a record that Admit accepted is there after a crash.
use hooversion.App.Spool.Acks.Claims.{At, Seen, sync_directory_leads}
use hooversion.App.Spool.Acks.Triples.{
  Claim, Outcome, disk_of, Leads, chain, rescue_leads, pure_leads, raise_leads, within_leads,
  modify_leads, when_leads, look_leads, weaken, Anything, keeps_anything,
}
use hooversion.App.Spool.Acks.Written.{write_and_sync_leads, rename_leads}
use hooversion.App.Spool.Admission.{
  undone_record, write_record, at_name, at_path, admit_from, admit_open, admit, safe_path,
  spool_name,
}
use hooversion.App.Spool.Disk.{Step, settle, sync_directory}
use hooversion.App.Spool.{
  WebhookSpoolRecord, Json, Error, is_not_exist, Node, regular, WebhookSpool, file_name,
}
use hooversion.Common.{
  true, ℕ, zero, suc, ◌≡◌, refl, sym, subst, Bool, List, Option, none, some, Result, ok, err, All,
  arith, ◌++◌, ◌∷◌,
}
use hooversion.Text.Laws.{text_eq_iff}
use hooversion.Text.Paths.{clean, render}
use hooversion.Text.{Text}

-- the name stands for the file, after a crash too
abbrev pub IsKept : Text → Option Node → List (Option Node) → Type 0
IsKept bytes v vs = (v ≡ some (regular true bytes)) × All (λ w. w ≡ some (regular true bytes)) vs

abbrev pub HoldsRecord : Text → Text → Claim
HoldsRecord bytes path = At (file_name path) (IsKept bytes)

-- A safe path ends in the name that it was made for.
file_name-safe_path :
    (dir name path : Text) → safe_path dir name ≡ some path → file_name path ≡ name
unfolding safe_path
file_name-safe_path dir name path h =
    ground (arith, text_eq_iff (file_name (render (clean (dir ++ b'/' ∷ name)))) name)

module _ (fails : ℕ → Bool) (bytes : Text) where
  sync-IsKept_leads :
      (name : Text)
      → Leads
          (Seen name (some (regular true bytes)))
          (sync_directory fails)
          (λ _. At name (IsKept bytes))
          Anything
  sync-IsKept_leads name =
      weaken (λ d p. p) (λ _ d p. p) (λ d p. tt)
        (sync_directory_leads fails (Seen name (some (regular true bytes))) (At name (IsKept bytes))
          (λ d p. unfold settle in (p, (p, tt))) (λ d p. p.0))

  undone_record_leads :
      {Q : Unit {0} → Claim} (e : Error) (r : Result Error (Unit {0}))
      → Leads Anything (undone_record fails e r) Q Anything
  undone_record_leads e (ok _) = chain (keeps_anything _) (λ _. raise_leads _ (λ d p. tt))
  undone_record_leads e (err removal) = raise_leads _ (λ d p. tt)

  write_record_leads :
      (name : Text)
      → Leads Anything (write_record fails name bytes) (λ _. At name (IsKept bytes)) Anything
  unfolding write_record
  write_record_leads name =
      chain
        (chain
          (chain (within_leads _ (keeps_anything _)) (λ _.
            rescue_leads Anything (write_and_sync_leads fails _ bytes)
              (λ e. chain (keeps_anything _) (λ _. raise_leads e (λ d p. tt)))))
          (λ _.
            rescue_leads Anything (rename_leads fails _ _ bytes)
              (λ e. chain (keeps_anything _) (λ _. raise_leads _ (λ d p. tt)))))
        (λ _.
          rescue_leads Anything (sync-IsKept_leads name)
            (λ e. chain (keeps_anything _) (undone_record_leads e)))

  at_name_leads :
      (later : Step Text) (path name : Text) (r : Result Error Node)
      → file_name path ≡ name
      → Leads Anything later (HoldsRecord bytes) Anything
      → Leads Anything (at_name fails bytes later path name r) (HoldsRecord bytes) Anything
  at_name_leads later path name (ok node) e h = h
  at_name_leads later path name (err x) e h =
      when_leads (is_not_exist x)
        (chain (write_record_leads name) (λ _.
          chain (modify_leads _)
            (λ _. pure_leads path (λ d p. subst (λ n. At n (IsKept bytes) d) (sym e) p))))
        (raise_leads x (λ d p. tt))

  at_path_leads :
      (later : Step Text) (name : Text) (o : Option Text)
      → ((path : Text) → o ≡ some path → file_name path ≡ name)
      → Leads Anything later (HoldsRecord bytes) Anything
      → Leads Anything (at_path fails bytes later name o) (HoldsRecord bytes) Anything
  at_path_leads later name none e h = raise_leads _ (λ d p. tt)
  at_path_leads later name (some path) e h =
      chain (keeps_anything _) (λ r. at_name_leads later path name r (e path refl) h)

  admit_from_leads :
      (left : ℕ) → Leads Anything (admit_from fails bytes left) (HoldsRecord bytes) Anything
  unfolding admit_from
  admit_from_leads zero = raise_leads _ (λ d p. tt)
  admit_from_leads (suc left) = look_leads _ _ (λ s. chain (keeps_anything _) (λ _.
      at_path_leads _ (spool_name s.next) _ (file_name-safe_path s.dir (spool_name s.next))
        (admit_from_leads left)))

  admit_open_leads : Leads Anything (admit_open fails bytes) (HoldsRecord bytes) Anything
  admit_open_leads = chain (keeps_anything _) (λ _.
      chain (keeps_anything _)
        (λ _. look_leads _ _ (λ s. when_leads _ (raise_leads _ (λ d p. tt)) (admit_from_leads _))))

admit_leads :
    (fails : ℕ → Bool) (json : Json) (r : WebhookSpoolRecord)
    → Leads Anything (admit fails json r) (HoldsRecord (json.encode_record 1 r)) Anything
unfolding admit
admit_leads fails json r = look_leads _ _ (λ s. when_leads _ (raise_leads _ (λ d p. tt)) (
    when_leads _ (raise_leads _ (λ d p. tt))
      (when_leads _ (raise_leads _ (λ d p. tt)) (admit_open_leads fails (json.encode_record 1 r)))))

-- Whichever calls on the directory fail, when Admit succeeds then the name at the end of the path
-- that it returns stands for the record's encoding, and does so after a crash.
pub admit-HoldsRecord :
    (fails : ℕ → Bool) (json : Json) (r : WebhookSpoolRecord) (s : WebhookSpool)
    → Outcome disk_of (HoldsRecord (json.encode_record 1 r)) Anything (admit fails json r s)
admit-HoldsRecord fails json r s = (admit_leads fails json r).run s tt
