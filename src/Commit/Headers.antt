-- ===== src/Commit/Headers.antt =====
-- The header pattern of internal/commit/commit.go: what it accepts, and that Parse reads back what
-- Format prints.
use hooversion.Commit.{
  Header, is_lower, is_kind_rune, is_scope_rune, match_kind, scope_span, match_scope, match_bang,
  match_description, match_tail, match_header, is_found, breaking_change, parse_match, parse,
  scope_text, format,
}
use hooversion.Common.{
  ◌≡◌, ◌≢◌, inl, inr, refl, sym, ap, subst, ◌∙◌, Bool, true, false, ◌||◌, [], ◌∷◌, ◌++◌,
  append_assoc, some, arith, ◌==◌, if◌then◌else◌, All, Bool-cases, bind-eq-some,
  some_pair-injective, none-ne-some, some-eq, ◌>>=?◌,
}
use hooversion.Text.Spans.{
  Stops, take_while-append, drop_while-append, take_while-All, take_while-drop_while,
}
use hooversion.Text.{Text, has_rune, take_while, drop_while}
use hooversion.Types.{RawCommit, ParsedCommit}

-- A lower case letter, and then letters, digits and dashes.
abbrev pub IsKind : Text → Type 0
IsKind [] = ⊥
IsKind (c ∷ s) = (is_lower c ≡ true) × All (λ d. is_kind_rune d ≡ true) s

-- Empty where absent; no parentheses and no line break.
abbrev pub IsScope : Text → Type 0
IsScope s = All (λ d. is_scope_rune d ≡ true) s

abbrev pub IsDescription : Text → Type 0
IsDescription s = (s ≢ []) × (has_rune b'\n' s ≡ false)

pub record IsHeader (h : Header) : Type 0 where
  pub kind_form : IsKind h.kind
  pub scope_form : IsScope h.scope
  pub description_form : IsDescription h.description

abbrev pub bang_text : Bool → Text
bang_text b = if b then b'!' ∷ [] else []

-- The subject that spells a header.
abbrev pub header_text : Header → Text
header_text h =
    h.kind ++ (scope_text h.scope ++ (bang_text h.bang ++ (b':' ∷ b' ' ∷ h.description)))

match_kind-append :
    (k t : Text) → IsKind k → Stops is_kind_rune t → match_kind (k ++ t) ≡ some (k, t)
unfolding match_kind
match_kind-append [] t h stop = absurd h
match_kind-append (c ∷ k) t h stop = ground (
  arith,
  take_while-append is_kind_rune k t h.1 stop,
  drop_while-append is_kind_rune k t h.1 stop,
)

scope-Stops : (t : Text) → Stops is_scope_rune (b')' ∷ t)
unfolding is_scope_rune
scope-Stops t = refl

match_scope-append :
    (s t : Text)
    → IsScope s
    → Stops (λ c. c == b'(') t
    → match_scope (scope_text s ++ t) ≡ some (s, t)
unfolding match_scope
match_scope-append [] [] h free = refl
match_scope-append [] (d ∷ t) h free = rw free
match_scope-append (c ∷ s) t h free = ground (
  arith,
  append_assoc (c ∷ s) (b')' ∷ []) t,
  take_while-append is_scope_rune (c ∷ s) (b')' ∷ t) h (scope-Stops t),
  drop_while-append is_scope_rune (c ∷ s) (b')' ∷ t) h (scope-Stops t),
)

match_description-colon :
    (d : Text) → IsDescription d → match_description (b':' ∷ b' ' ∷ d) ≡ some d
unfolding match_description
match_description-colon [] h = absurd (h.0 refl)
match_description-colon (c ∷ d) h = rw h.1

match_bang-append :
    (b : Bool) (d : Text) → match_bang (bang_text b ++ (b':' ∷ b' ' ∷ d)) ≡ (b, b':' ∷ b' ' ∷ d)
unfolding match_bang
match_bang-append true d = refl
match_bang-append false d = refl

tail-Stops :
    (s : Text) (b : Bool) (d : Text)
    → Stops is_kind_rune (scope_text s ++ (bang_text b ++ (b':' ∷ b' ' ∷ d)))
      × Stops (λ c. c == b'(') (bang_text b ++ (b':' ∷ b' ' ∷ d))
unfolding is_kind_rune
tail-Stops [] true d = (refl, refl)
tail-Stops [] false d = (refl, refl)
tail-Stops (c ∷ s) true d = (refl, refl)
tail-Stops (c ∷ s) false d = (refl, refl)

-- The pattern matches the spelling of every well-formed header, and gives its parts.
match_header-header_text : (h : Header) → IsHeader h → match_header (header_text h) ≡ some h
unfolding match_header
match_header-header_text h w =
    let d : Text = b':' ∷ b' ' ∷ h.description in
    let t : Text = bang_text h.bang ++ d in
    let stops = tail-Stops h.scope h.bang h.description in
    ground (
      arith,
      match_kind-append h.kind (scope_text h.scope ++ t) w.kind_form stops.0,
      match_scope-append h.scope t w.scope_form stops.1,
      match_bang-append h.bang h.description,
      match_description-colon h.description w.description_form,
    )

match_kind_sound : (s : Text) {k r : Text} → match_kind s ≡ some (k, r) → (s ≡ k ++ r) × IsKind k
unfolding match_kind
match_kind_sound [] h = cc
match_kind_sound (c ∷ s) {k} {r} h = elim (Bool-cases (is_lower c)) [
  | inl low ↦
      let (ek, er) = some_pair-injective {A = Text} {B = Text} {c = k} {d = r} (rw low at h) in
      (
        ground (arith, take_while-drop_while is_kind_rune s),
        subst IsKind ek (low, take_while-All is_kind_rune s),
      )
  | inr high ↦ absurd (none-ne-some (rw high at h))
]

scope_span_sound :
    (ids rest : Text) {p r : Text}
    → scope_span ids rest ≡ some (p, r)
    → (b'(' ∷ (ids ++ rest) ≡ scope_text p ++ r) × (p ≡ ids)
unfolding scope_span
scope_span_sound [] rest h = cc
scope_span_sound (c ∷ s) [] h = cc
scope_span_sound (c ∷ s) (d ∷ rest) h = ground (arith, append_assoc (c ∷ s) (b')' ∷ []) rest)

match_scope_sound :
    (s : Text) {p r : Text} → match_scope s ≡ some (p, r) → (s ≡ scope_text p ++ r) × IsScope p
match_scope_sound [] {p} {r} h =
    let (ep, er) =
      some_pair-injective {A = Text} {B = Text} {a = []} {c = p} {b = []} {d = r}
        (unfold match_scope in h) in
    (ground arith, subst IsScope ep tt)
match_scope_sound (c ∷ s) {p} {r} h = elim (Bool-cases (c == b'(')) [
  | inl paren ↦
      let e : scope_span (take_while is_scope_rune s) (drop_while is_scope_rune s) ≡ some (p, r) =
        unfold match_scope in rw paren at h in
      let parts = scope_span_sound _ _ e in
      (
        ground (arith, take_while-drop_while is_scope_rune s),
        subst IsScope (sym parts.1) (take_while-All is_scope_rune s),
      )
  | inr bare ↦
      let (ep, er) =
        some_pair-injective {A = Text} {B = Text} {a = []} {c = p} {b = c ∷ s} {d = r}
          (unfold match_scope in rw bare at h) in
      (ground arith, subst IsScope ep tt)
]

match_bang_sound : (s : Text) → s ≡ bang_text (match_bang s).0 ++ (match_bang s).1
unfolding match_bang
match_bang_sound [] = refl
match_bang_sound (c ∷ s) = ground arith

match_description_sound :
    (s : Text) {d : Text} → match_description s ≡ some d → (s ≡ b':' ∷ b' ' ∷ d) × IsDescription d
unfolding match_description
match_description_sound [] h = cc
match_description_sound (a ∷ []) h = cc
match_description_sound (a ∷ b ∷ []) h = cc
match_description_sound (a ∷ b ∷ e ∷ s) {d} h = ground arith

match_tail_parts :
    (k s p r d : Text) {h : Header}
    → (s ≡ scope_text p ++ r) × IsScope p
    → ((match_bang r).1 ≡ b':' ∷ b' ' ∷ d) × IsDescription d
    → record { kind = k; scope = p; bang = (match_bang r).0; description = d } ≡ h
    → (k ++ s ≡ header_text h) × (h.kind ≡ k) × IsScope h.scope × IsDescription h.description
match_tail_parts k s p r d (spelled, scope_form) (colon, description_form) e =
    subst
      (λ (g : Header).
        (k ++ s ≡ header_text g) × (g.kind ≡ k) × IsScope g.scope × IsDescription g.description)
      e (cc (match_bang_sound r), refl, scope_form, description_form)

match_tail_sound :
    (k s : Text) {h : Header}
    → match_tail k s ≡ some h
    → (k ++ s ≡ header_text h) × (h.kind ≡ k) × IsScope h.scope × IsDescription h.description
match_tail_sound k s {h} e =
    let (x, ex, et) =
      bind-eq-some (match_scope s)
        (λ x. match_description (match_bang x.1).1 >>=? λ d.
          some (record { kind = k; scope = x.0; bang = (match_bang x.1).0; description = d }))
        {b = h} (unfold match_tail in e) in
    let (d, ed, eh) =
      bind-eq-some (match_description (match_bang x.1).1)
        (λ d. some (record { kind = k; scope = x.0; bang = (match_bang x.1).0; description = d }))
        {b = h} et in
    match_tail_parts k s x.0 x.1 d (match_scope_sound s ex) (match_description_sound _ ed)
      (some-eq eh)

-- A subject that the pattern matches is the spelling of the parts that it gives, and these are
-- well formed.
pub match_header_sound :
    (s : Text) {h : Header} → match_header s ≡ some h → (s ≡ header_text h) × IsHeader h
match_header_sound s {h} e =
    let (x, ek, et) =
      bind-eq-some (match_kind s) (λ x. match_tail x.0 x.1) {b = h} (unfold match_header in e) in
    let (whole, kind_form) = match_kind_sound s ek in
    let (spelled, kind_eq, scope_form, description_form) = match_tail_sound x.0 x.1 et in
    (
      whole ∙ spelled,
      record {
        kind_form = subst IsKind (sym kind_eq) kind_form;
        scope_form = scope_form;
        description_form = description_form;
      },
    )

parse-some :
    (raw : RawCommit) {h : Header}
    → match_header raw.subject ≡ some h
    → parse raw ≡ parse_match raw (some h)
unfolding parse
parse-some raw e = rw e

abbrev header_of : ParsedCommit → Header
header_of c = record {
  kind = c.kind;
  scope = c.scope;
  bang = c.breaking;
  description = c.description;
}

-- Parse reads back the type, the scope and the description of the subject that Format prints for a
-- commit with a well-formed header, and marks it as conforming; it is breaking if the printed
-- commit was, or if its body has a breaking-change footer.
pub parse-format :
    (c : ParsedCommit) (raw : RawCommit)
    → IsKind c.kind
    → IsScope c.scope
    → IsDescription c.description
    → raw.subject ≡ format c
    → let p = parse raw in
      (p.kind ≡ c.kind)
      × (p.scope ≡ c.scope)
      × (p.description ≡ c.description)
      × (p.breaking ≡ (is_found (breaking_change raw.body) || c.breaking))
      × (p.conforms ≡ true)
unfolding format parse_match
parse-format c raw k s d e =
    let matched : match_header raw.subject ≡ some (header_of c) =
      ap match_header e
      ∙ match_header-header_text (header_of c)
          (record { kind_form = k; scope_form = s; description_form = d }) in
    rw (parse-some raw matched) (refl, refl, refl, refl, refl)
