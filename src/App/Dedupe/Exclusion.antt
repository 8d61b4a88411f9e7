-- ===== src/App/Dedupe/Exclusion.antt =====
-- A reservation of internal/app/dedupe.go excludes every other one of its key while it lasts.
use hooversion.App.Dedupe.{
  DedupeEntry, in_flight, WebhookDeduper, prune, reserve, reserve_pruned, succeed, succeed_entry,
  release, Call, reserve_call, succeed_call, release_call, apply_call, apply_calls,
}
use hooversion.Common.{
  ℕ, ◌+◌, ◌≤◌, ◌<◌, ◌≡◌, ◌≢◌, refl, ap, true, false, List, [], ◌∷◌, some, arith, All, Option-cases,
  Bool-cases, inl, inr, some-eq, ◌∙◌,
}
use hooversion.Text.Laws.{text_eq_iff, text_eq_refl, text_eq_ne}
use hooversion.Text.Maps.{TextMap, lookup, insert, lookup-insert, lookup-delete}
use hooversion.Text.{Text, text_eq}

-- An entry for the key that lasts until a time or longer.
abbrev pub IsHeld : Text → ℕ → WebhookDeduper → Type 0
IsHeld key until d =
    (entry : DedupeEntry) × (lookup key d.seen ≡ some entry) × (until ≤ entry.expires_at)

-- A call that neither releases the key nor sees a clock outside the time of the reservation.
abbrev pub IsWithin : Text → ℕ → ℕ → Call → Type 0
IsWithin key from until (reserve_call pruned now k) = (pruned < until) × (from ≤ now)
IsWithin key from until (succeed_call now k) = from ≤ now
IsWithin key from until (release_call k) = k ≢ key

lookup-prune :
    (now until : ℕ) (key : Text) (seen : TextMap DedupeEntry) (entry : DedupeEntry)
    → lookup key seen ≡ some entry
    → until ≤ entry.expires_at
    → now < until
    → lookup key (prune now seen) ≡ some entry
unfolding lookup prune
lookup-prune now until key [] entry h u n = cc
lookup-prune now until key ((k, e) ∷ seen) entry h u n = elim (Bool-cases (text_eq k key)) [
  | inl same ↦
      let e-entry : e ≡ entry = some-eq (rw same at h) in
      let lasts = ap (λ x. x.expires_at) e-entry in ground (arith, same, lasts, h)
  | inr differs ↦
      let later = lookup-prune now until key seen entry (rw differs at h) u n in
      ground (arith, differs, later)
]

-- the entry after an insertion under some key, if what is inserted lasts
IsHeld-insert :
    (key k : Text) (until ttl : ℕ) (new : DedupeEntry) (seen : TextMap DedupeEntry)
    → until ≤ new.expires_at
    → IsHeld key until (record { seen = seen; ttl = ttl })
    → IsHeld key until (record { seen = insert k new seen; ttl = ttl })
IsHeld-insert key k until ttl new seen u (entry, e, w) = elim (Bool-cases (text_eq k key)) [
  | inl same ↦ (new, lookup-insert k key new seen ∙ rw same refl, u)
  | inr differs ↦ (entry, lookup-insert k key new seen ∙ rw differs e, w)
]

IsHeld-prune :
    (key : Text) (now until : ℕ) (d : WebhookDeduper)
    → now < until
    → IsHeld key until d
    → IsHeld key until (record d { seen = prune now d.seen })
IsHeld-prune key now until d n (entry, e, w) =
    (entry, lookup-prune now until key d.seen entry e w n, w)

module _ (key : Text) (from : ℕ) (until : ℕ) where
  IsHeld-reserve :
      (pruned now : ℕ) (k : Text) (d : WebhookDeduper)
      → until ≤ from + d.ttl
      → (pruned < until) × (from ≤ now)
      → IsHeld key until d
      → IsHeld key until (reserve pruned now k d).1
  unfolding reserve reserve_pruned
  IsHeld-reserve pruned now k d u (p, n) h =
      let kept = IsHeld-prune key pruned until d p h in
      elim (Bool-cases (text_eq k [])) [
        | inl e ↦ rw (reserve, e) h
        | inr e ↦ elim (Option-cases (lookup k (prune pruned d.seen))) [
          | inr (entry, f) ↦ rw (reserve, e, reserve_pruned, f) kept
          | inl f ↦
              rw (reserve, e, reserve_pruned, f)
                (IsHeld-insert key k until d.ttl _ (prune pruned d.seen) (omega (arith, u, n)) kept)
        ]
      ]

  IsHeld-succeed :
      (now : ℕ) (k : Text) (d : WebhookDeduper)
      → until ≤ from + d.ttl
      → from ≤ now
      → IsHeld key until d
      → IsHeld key until (succeed now k d)
  unfolding succeed succeed_entry
  IsHeld-succeed now k d u n h = elim (Bool-cases (text_eq k [])) [
    | inl e ↦ rw (succeed, e) h
    | inr e ↦ elim (Option-cases (lookup k d.seen)) [
      | inl f ↦ rw (succeed, e, f) h
      | inr (entry, f) ↦
          rw (succeed, e, f) (IsHeld-insert key k until d.ttl _ d.seen (omega (arith, u, n)) h)
    ]
  ]

  IsHeld-release :
      (k : Text) (d : WebhookDeduper)
      → k ≢ key
      → IsHeld key until d
      → IsHeld key until (release k d)
  unfolding release
  IsHeld-release k d n (entry, e, w) = elim (Bool-cases (text_eq k [])) [
    | inl f ↦ rw (release, f) (entry, e, w)
    | inr f ↦
        rw (release, f) (entry, lookup-delete k key d.seen ∙ ground (arith, text_eq_iff k key), w)
  ]

  ttl-apply_call : (call : Call) (d : WebhookDeduper) → (apply_call call d).ttl ≡ d.ttl
  unfolding apply_call reserve reserve_pruned succeed succeed_entry release
  ttl-apply_call (reserve_call pruned now k) d = ground arith
  ttl-apply_call (succeed_call now k) d = ground arith
  ttl-apply_call (release_call k) d = ground arith

  IsHeld-apply_calls :
      (calls : List Call) (d : WebhookDeduper)
      → until ≤ from + d.ttl
      → All (IsWithin key from until) calls
      → IsHeld key until d
      → IsHeld key until (apply_calls calls d)
  unfolding apply_calls apply_call
  IsHeld-apply_calls [] d u w h = h
  IsHeld-apply_calls (reserve_call pruned now k ∷ calls) d u (w, ws) h =
      IsHeld-apply_calls calls (reserve pruned now k d).1
        (omega (arith, u, ttl-apply_call (reserve_call pruned now k) d)) ws
        (IsHeld-reserve pruned now k d u w h)
  IsHeld-apply_calls (succeed_call now k ∷ calls) d u (w, ws) h =
      IsHeld-apply_calls calls (succeed now k d)
        (omega (arith, u, ttl-apply_call (succeed_call now k) d)) ws (IsHeld-succeed now k d u w h)
  IsHeld-apply_calls (release_call k ∷ calls) d u (w, ws) h =
      IsHeld-apply_calls calls (release k d) (omega (arith, u, ttl-apply_call (release_call k) d))
        ws (IsHeld-release k d w h)

reserve-IsHeld :
    (pruned now until : ℕ) (key : Text) (d : WebhookDeduper)
    → text_eq key [] ≡ false
    → IsHeld key until d
    → pruned < until
    → (reserve pruned now key d).0 ≡ false
unfolding reserve reserve_pruned
reserve-IsHeld pruned now until key d k h p =
    let (entry, e, w) = IsHeld-prune key pruned until d p h in
    rw (reserve, k, reserve_pruned, e) refl

-- A reservation that succeeds lasts for its lifetime.
IsHeld-reserved :
    (pruned now : ℕ) (key : Text) (d : WebhookDeduper)
    → text_eq key [] ≡ false
    → (reserve pruned now key d).0 ≡ true
    → IsHeld key (now + d.ttl) (reserve pruned now key d).1
unfolding reserve reserve_pruned
IsHeld-reserved pruned now key d k r = elim (Option-cases (lookup key (prune pruned d.seen))) [
  | inr (entry, e) ↦
      let no : (reserve pruned now key d).0 ≡ false = rw (reserve, k, reserve_pruned, e) refl in
      absurd (ground (arith, r, no))
  | inl e ↦
      let new : DedupeEntry = record { state = in_flight; expires_at = now + d.ttl } in
      rw (reserve, k, reserve_pruned, e)
        (
          new,
          lookup-insert key key new (prune pruned d.seen) ∙ rw (text_eq_refl key) refl,
          omega arith,
        )
]

ttl-reserve :
    (pruned now : ℕ) (key : Text) (d : WebhookDeduper) → (reserve pruned now key d).1.ttl ≡ d.ttl
unfolding reserve reserve_pruned
ttl-reserve pruned now key d = ground arith

-- Let the reservation of a nonempty key succeed at a time `now`. After any calls that do not
-- release the key, whose clocks are not behind `now` and which prune before the lifetime is over, a
-- second reservation of the key that prunes before the lifetime is over is refused.
pub reserve-excludes :
    (pruned now later stamp : ℕ) (key : Text) (d : WebhookDeduper) (calls : List Call)
    → key ≢ []
    → (reserve pruned now key d).0 ≡ true
    → All (IsWithin key now (now + d.ttl)) calls
    → later < now + d.ttl
    → (reserve later stamp key (apply_calls calls (reserve pruned now key d).1)).0 ≡ false
reserve-excludes pruned now later stamp key d calls k r w l =
    let valid = text_eq_ne key [] k in
    let held =
      IsHeld-apply_calls key now (now + d.ttl) calls (reserve pruned now key d).1
        (omega (arith, ttl-reserve pruned now key d)) w
        (IsHeld-reserved pruned now key d valid r) in
    reserve-IsHeld later stamp (now + d.ttl) key _ valid held l
