-- ===== src/App/Spool/Acks/Claims.antt =====
-- internal/app/spool.go: claims on a record and its marker that take a crash into account, and
-- what a sync of the directory does for them.
use hooversion.App.Spool.Acks.Markers.{IsStable, Keeps}
use hooversion.App.Spool.Acks.Triples.{
  Claim, Leads, chain, pure_leads, raise_leads, either_way, Attempted, attempt_leads, call_leads,
  weaken,
}
use hooversion.App.Spool.Acks.{is_terminal}
use hooversion.App.Spool.Disk.{attempt, put, settle, call, answer, first_error, sync_directory}
use hooversion.App.Spool.{Error, Json, Node, regular, Directory, marker_name}
use hooversion.Common.{
  ◌&&◌, ℕ, ◌≡◌, ◌≢◌, refl, Bool, true, false, List, [], ◌∷◌, Option, none, some, Result, ok, err,
  All, if◌then◌else◌,
}
use hooversion.Text.Laws.{text_eq_ne, text_eq_refl}
use hooversion.Text.Maps.{lookup, lookup-insert, lookup-delete}
use hooversion.Text.{Text, text_eq}

-- What a name stands for after a change of it or of another name.
pub lookup-put :
    (m other : Text) (v : Option Node) (d : Directory)
    → lookup other (put m v d).visible ≡ (if text_eq m other then v else lookup other d.visible)
unfolding put
lookup-put m other none d = lookup-delete m other d.visible
lookup-put m other (some v) d = lookup-insert m other v d.visible

pub lookup-put_other :
    (m other : Text) (v : Option Node) (d : Directory)
    → m ≢ other
    → lookup other (put m v d).visible ≡ lookup other d.visible
lookup-put_other m other v d ne = rw (lookup-put m other v d, text_eq_ne m other ne) refl

pub lookup-put_self :
    (m : Text) (v : Option Node) (d : Directory) → lookup m (put m v d).visible ≡ v
lookup-put_self m v d = rw (lookup-put m m v d, text_eq_refl m) refl

pub held-put_other :
    (m other : Text) (v : Option Node) (d : Directory)
    → m ≢ other
    → (put m v d).held other ≡ d.held other
unfolding put
held-put_other m other v d ne = rw (text_eq_ne m other ne) refl

-- A claim on what a name stands for and on what it may stand for after a crash.
abbrev pub At : Text → (Option Node → List (Option Node) → Type 0) → Claim
At name R d = R (lookup name d.visible) (d.held name)

pub At-IsStable :
    (name : Text) (R : Option Node → List (Option Node) → Type 0)
    → ((v : Option Node) (vs : List (Option Node)) → R v vs → R v (v ∷ []))
    → IsStable name (At name R)
At-IsStable name R h = record {
  put_keeps = λ m v d ne r. rw (lookup-put_other m name v d ne, held-put_other m name v d ne) r;
  settle_keeps = λ d r. unfold settle in h _ _ r;
}

-- the name stands for something
abbrev pub IsSomething : Option Node → List (Option Node) → Type 0
IsSomething v vs = v ≢ none

abbrev pub IsPresent : Text → Claim
IsPresent name = At name IsSomething

-- the name stands for nothing, after a crash too
abbrev pub IsNothing : Option Node → List (Option Node) → Type 0
IsNothing v vs = (v ≡ none) × All (λ w. w ≡ none) vs

abbrev pub IsGone : Text → Claim
IsGone name = At name IsNothing

-- a marker whose content is on disk
abbrev pub is_marker : Json → Option Node → Bool
is_marker json (some (regular synced bytes)) = synced && is_terminal (json.decode_terminal bytes)
is_marker json _ = false

abbrev pub reads_as_marker : Json → Option Node → Bool
reads_as_marker json (some (regular synced bytes)) = is_terminal (json.decode_terminal bytes)
reads_as_marker json _ = false

-- the name stands for a marker, after a crash too
abbrev pub IsMarker : Json → Option Node → List (Option Node) → Type 0
IsMarker json v vs = (is_marker json v ≡ true) × All (λ w. is_marker json w ≡ true) vs

abbrev pub IsMarked : Json → Text → Claim
IsMarked json name = At (marker_name name) (IsMarker json)

-- a marker that can be seen is there after a crash
abbrev pub IsSure : Json → Option Node → List (Option Node) → Type 0
IsSure json v vs = reads_as_marker json v ≡ true → IsMarker json v vs

abbrev pub HasSureMarker : Json → Text → Claim
HasSureMarker json name = At (marker_name name) (IsSure json)

-- The record is there, or is gone for good, or is not taken up again after a crash.
pub data IsGuarded (json : Json) (name : Text) (d : Directory) : Type 0 where
  present : IsPresent name d → IsGuarded json name d
  gone : IsGone name d → IsGuarded json name d
  marked : IsMarked json name d → IsGuarded json name d

pub IsPresent-IsStable : (name : Text) → IsStable name (IsPresent name)
IsPresent-IsStable name = At-IsStable name IsSomething (λ v vs p. p)

pub IsGone-IsStable : (name : Text) → IsStable name (IsGone name)
IsGone-IsStable name = At-IsStable name IsNothing (λ v vs p. (p.0, (p.0, tt)))

pub IsMarked-IsStable :
    (json : Json) (name : Text) → IsStable (marker_name name) (IsMarked json name)
IsMarked-IsStable json name =
    At-IsStable (marker_name name) (IsMarker json) (λ v vs p. (p.0, (p.0, tt)))

abbrev pub Seen : Text → Option Node → Claim
Seen name v d = lookup name d.visible ≡ v

module _ (fails : ℕ → Bool) where
  pub nothing_leads : (P : Claim) → Keeps P (call fails (λ d. (ok tt, d)))
  nothing_leads P = call_leads fails _ (λ d p. p) (λ d p. p)

  ignored : (P : Claim) {E : Claim} → Leads P (attempt (call fails (λ d. (ok tt, d)))) (λ _. P) E
  ignored P =
      weaken (λ d p. p) (λ r d. either_way P r d) (λ d p. p)
        (attempt_leads {F = _} (nothing_leads P))

  -- What can be seen is sure after a sync.
  answer_leads :
      (P S : Claim)
      → ((d : Directory) → S d → P d)
      → (r closed : Result Error (Unit {0}))
      → Leads (Attempted (λ _. S) P r) (answer (first_error r closed)) (λ _. S) P
  answer_leads P S h (ok _) (ok _) = pure_leads tt (λ d p. p)
  answer_leads P S h (ok _) (err e) = raise_leads e h
  answer_leads P S h (err e) closed = raise_leads e (λ d p. p)

  pub sync_directory_leads :
      (P S : Claim)
      → ((d : Directory) → P d → S (settle d))
      → ((d : Directory) → S d → P d)
      → Leads P (sync_directory fails) (λ _. S) P
  unfolding sync_directory
  sync_directory_leads P S h back = chain (nothing_leads P) (λ _.
      chain (attempt_leads {F = P} (call_leads {E = P} fails _ h (λ d p. p))) (λ synced.
        chain (ignored (Attempted (λ _. S) P synced))
          (λ closed. answer_leads P S back synced closed)))
