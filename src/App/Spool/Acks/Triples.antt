-- ===== src/App/Spool/Acks/Triples.antt =====
-- Statements about the steps of internal/app/spool.go: from P a step ends well in Q, or badly in E,
-- all of them about the directory.
use hooversion.App.Spool.Disk.{
  Step, pure, raise, continue_with, ◌>>=◌, recover_with, rescue, attempt, within, modify,
  when◌then◌else◌, look, call,
}
use hooversion.App.Spool.{Error, failed, wrapped, Directory, WebhookSpool}
use hooversion.Common.{ℕ, Bool, true, false, Result, ok, err, refl, Bool-cases, inl, inr, ◌≡◌, suc}
use hooversion.Text.{Text}

abbrev pub Claim : Type 1
Claim = Directory → Type 0

abbrev pub Outcome :
    {A D : Type 0} → (D → Directory) → (A → Claim) → Claim → Result Error A × D → Type 0
Outcome at Q E (ok a, d) = Q a (at d)
Outcome at Q E (err e, d) = E (at d)

abbrev pub disk_of : WebhookSpool → Directory
disk_of s = s.disk

abbrev pub itself : Directory → Directory
itself d = d

pub record Leads {A : Type 0} (P : Claim) (m : Step A) (Q : A → Claim) (E : Claim) : Type 0 where
  pub run : (s : WebhookSpool) → P s.disk → Outcome disk_of Q E (m s)

continue_outcome :
    {A B : Type 0} {Q : A → Claim} {E : Claim} {R : B → Claim} (r : Result Error A × WebhookSpool)
    (f : A → Step B)
    → Outcome disk_of Q E r
    → ((a : A) → Leads (Q a) (f a) R E)
    → Outcome disk_of R E (continue_with r f)
continue_outcome (ok a, s) f h k = (k a).run s h
continue_outcome (err e, s) f h k = h

pub chain :
    {A B : Type 0} {P E : Claim} {Q : A → Claim} {R : B → Claim} {m : Step A} {f : A → Step B}
    → Leads P m Q E
    → ((a : A) → Leads (Q a) (f a) R E)
    → Leads P (m >>= f) R E
unfolding ◌>>=◌
chain {m} {f} h k = record { run = λ s p. continue_outcome (m s) f (h.run s p) k }

recover_outcome :
    {A : Type 0} {Q : A → Claim} {E F : Claim} (r : Result Error A × WebhookSpool)
    (handler : Error → Step A)
    → Outcome disk_of Q F r
    → ((e : Error) → Leads F (handler e) Q E)
    → Outcome disk_of Q E (recover_with r handler)
recover_outcome (ok a, s) handler h k = h
recover_outcome (err e, s) handler h k = (k e).run s h

pub rescue_leads :
    {A : Type 0} {P E : Claim} (F : Claim) {Q : A → Claim} {m : Step A} {handler : Error → Step A}
    → Leads P m Q F
    → ((e : Error) → Leads F (handler e) Q E)
    → Leads P (rescue m handler) Q E
unfolding rescue
rescue_leads F {m} {handler} h k = record {
  run = λ s p. recover_outcome (m s) handler (h.run s p) k;
}

pub pure_leads :
    {A : Type 0} {P E : Claim} {Q : A → Claim} (a : A)
    → ((d : Directory) → P d → Q a d)
    → Leads P (pure a) Q E
unfolding pure
pure_leads a h = record { run = λ s p. h s.disk p }

pub raise_leads :
    {A : Type 0} {P E : Claim} {Q : A → Claim} (e : Error)
    → ((d : Directory) → P d → E d)
    → Leads P (raise e) Q E
unfolding raise
raise_leads e h = record { run = λ s p. h s.disk p }

pub within_leads :
    {A : Type 0} {P E : Claim} {Q : A → Claim} {m : Step A} (what : Text)
    → Leads P m Q E
    → Leads P (within what m) Q E
within_leads {E} what h = rescue_leads E h (λ e. raise_leads (wrapped what e) (λ d p. p))

pub modify_leads : {P E : Claim} (f : WebhookSpool → WebhookSpool) → Leads P (modify f) (λ _. P) E
unfolding modify
modify_leads f = record { run = λ s p. p }

-- the outcome of an attempt, as a claim for each result
abbrev pub Attempted : {A : Type 0} → (A → Claim) → Claim → Result Error A → Claim
Attempted Q E (ok a) = Q a
Attempted Q E (err e) = E

attempted :
    {A : Type 0} (Q : A → Claim) (E : Claim) (r : Result Error A × WebhookSpool)
    → Outcome disk_of Q E r
    → Attempted Q E r.0 r.1.disk
attempted Q E (ok a, s) h = h
attempted Q E (err e, s) h = h

pub attempt_leads :
    {A : Type 0} {P E F : Claim} {Q : A → Claim} {m : Step A}
    → Leads P m Q E
    → Leads P (attempt m) (Attempted Q E) F
unfolding attempt
attempt_leads {E} {Q} {m} h = record { run = λ s p. attempted Q E (m s) (h.run s p) }

pub either_way :
    {A : Type 0} (I : Claim) (r : Result Error A) (d : Directory) → Attempted (λ _. I) I r d → I d
either_way I (ok a) d p = p
either_way I (err e) d p = p

pub when_leads :
    {A : Type 0} {P E : Claim} {Q : A → Claim} (b : Bool) {m n : Step A}
    → Leads P m Q E
    → Leads P n Q E
    → Leads P (when b then m else n) Q E
unfolding when◌then◌else◌
when_leads true h k = record { run = h.run }
when_leads false h k = record { run = k.run }

called :
    {A : Type 0} (Q : A → Claim) (E : Claim) (r : Result Error A × Directory) (s : WebhookSpool)
    (n : ℕ)
    → Outcome itself Q E r
    → Outcome disk_of Q E (r.0, record s { calls = n; disk = r.1 })
called Q E (ok a, d) s n h = h
called Q E (err e, d) s n h = h

pub call_leads :
    {A : Type 0} {P E : Claim} {Q : A → Claim} (fails : ℕ → Bool)
    (f : Directory → Result Error A × Directory)
    → ((d : Directory) → P d → Outcome itself Q E (f d))
    → ((d : Directory) → P d → E d)
    → Leads P (call fails f) Q E
unfolding call
call_leads {E} {Q} fails f h k = record {
  run = λ s p. elim (Bool-cases (fails s.calls)) [
    | inl x ↦ rw x (k s.disk p)
    | inr x ↦ rw x (called Q E (f s.disk) s _ (h s.disk p))
  ];
}

weaker :
    {A : Type 0} {Q Q' : A → Claim} {E E' : Claim} (r : Result Error A × WebhookSpool)
    → ((a : A) (d : Directory) → Q' a d → Q a d)
    → ((d : Directory) → E' d → E d)
    → Outcome disk_of Q' E' r
    → Outcome disk_of Q E r
weaker (ok a, s) g k h = g a s.disk h
weaker (err e, s) g k h = k s.disk h

-- A call whose error is a value, and what follows on either of its ends.
pub attempt_call_leads :
    {A B : Type 0} {P E : Claim} {R : B → Claim} (fails : ℕ → Bool)
    (f : Directory → Result Error A × Directory) (g : Result Error A → Step B)
    → Leads P (g (err failed)) R E
    → ((d : Directory) → P d → Leads (λ d'. d' ≡ (f d).1) (g (f d).0) R E)
    → Leads P (attempt (call fails f) >>= g) R E
unfolding ◌>>=◌ attempt call
attempt_call_leads fails f g h k = record {
  run = λ s p. elim (Bool-cases (fails s.calls)) [
    | inl x ↦ rw x (h.run (record s { calls = suc s.calls }) p)
    | inr x ↦ rw x ((k s.disk p).run (record s { calls = suc s.calls; disk = (f s.disk).1 }) refl)
  ];
}

pub when_else_leads :
    {A : Type 0} {P E : Claim} {Q : A → Claim} (b : Bool) (m n : Step A)
    → b ≡ false
    → Leads P n Q E
    → Leads P (when b then m else n) Q E
unfolding when◌then◌else◌
when_else_leads b m n x h = rw x (record { run = h.run })

-- Less asked for at the start, and less told of the end.
pub weaken :
    {A : Type 0} {P P' E E' : Claim} {Q Q' : A → Claim} {m : Step A}
    → ((d : Directory) → P d → P' d)
    → ((a : A) (d : Directory) → Q' a d → Q a d)
    → ((d : Directory) → E' d → E d)
    → Leads P' m Q' E'
    → Leads P m Q E
weaken {m} f g k h = record { run = λ s p. weaker (m s) g k (h.run s (f s.disk p)) }

both_outcomes :
    {A : Type 0} (Q : A → Claim) (E I : Claim) (r : Result Error A × WebhookSpool)
    → Outcome disk_of Q E r
    → Outcome disk_of (λ _. I) I r
    → Outcome disk_of (λ a d. Q a d × I d) (λ d. E d × I d) r
both_outcomes Q E I (ok a, s) h k = (h, k)
both_outcomes Q E I (err e, s) h k = (h, k)

-- What holds of the step, beside a claim that the step keeps.
pub beside :
    {A : Type 0} {P E : Claim} {Q : A → Claim} {m : Step A} (I : Claim)
    → Leads P m Q E
    → Leads I m (λ _. I) I
    → Leads (λ d. P d × I d) m (λ a d. Q a d × I d) (λ d. E d × I d)
beside {E} {Q} {m} I h k = record {
  run = λ s p. both_outcomes Q E I (m s) (h.run s p.0) (k.run s p.1);
}

abbrev pub Anything : Claim
Anything d = Unit

any_outcome :
    {A : Type 0} (r : Result Error A × WebhookSpool) → Outcome disk_of (λ _. Anything) Anything r
any_outcome (ok a, s) = tt
any_outcome (err e, s) = tt

pub keeps_anything : {A : Type 0} (m : Step A) → Leads Anything m (λ _. Anything) Anything
keeps_anything m = record { run = λ s p. any_outcome (m s) }

pub look_leads :
    {A B : Type 0} {P E : Claim} {Q : A → Claim} (see : WebhookSpool → B) (f : B → Step A)
    → ((b : B) → Leads P (f b) Q E)
    → Leads P (look see f) Q E
unfolding look
look_leads see f h = record { run = λ s p. (h (see s)).run s p }
