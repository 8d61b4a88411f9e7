-- ===== src/Semver/RoundTrip.antt =====
-- Parse of internal/semver/semver.go accepts well-formed versions only, and reads back what
-- SemVer.String prints.
use hooversion.Common.{
  ℕ, ◌≤◌, ◌≡◌, ◌≢◌, ◌⊎◌, inl, inr, refl, sym, subst, true, false, [], ◌∷◌, ◌++◌, append-nil, Option,
  none, some, arith, ◌==◌, All, All-append, any, ok, Bool-cases, bind-eq-some, ◌>>=?◌, ok-injective,
  err-ne-ok,
}
use hooversion.Text.Spans.{Stops, take_while-append, drop_while-append, take_while-All}
use hooversion.Semver.{
  SemVer, Match, max_int, format_int, suffix_text, string, is_suffix_rune, is_identifiers, number,
  match_core, match_suffixes, suffix, at_end, match_version, has_leading_zero, atoi, convert,
  of_match, parse,
}
use hooversion.Text.Decimal.{
  is_digit, format, IsDigits, format-IsDigits, format-ne-nil, value_from-format,
}
use hooversion.Text.Laws.{trim_space-All}
use hooversion.Text.{Text, is_space, trim_space, split}

-- A prerelease or build suffix: absent, or identifiers joined by dots.
abbrev pub IsSuffix : Text → Type 0
IsSuffix s = (s ≡ []) ⊎ (All (λ c. is_suffix_rune c ≡ true) s × (is_identifiers s ≡ true))

pub record IsValid (v : SemVer) : Type 0 where
  pub major_fits : v.core_major ≤ max_int
  pub minor_fits : v.core_minor ≤ max_int
  pub patch_fits : v.core_patch ≤ max_int
  pub pre_suffix : IsSuffix v.pre
  pub pre_numbers : any has_leading_zero (split v.pre b'.') ≡ false
  pub build_suffix : IsSuffix v.build

number-append :
    (d t : Text) → IsDigits d → d ≢ [] → Stops is_digit t → number (d ++ t) ≡ some (d, t)
unfolding number
number-append [] t h ne stop = absurd (ne refl)
number-append (c ∷ d) t h ne stop =
    cc (take_while-append is_digit (c ∷ d) t h stop, drop_while-append is_digit (c ∷ d) t h stop)

suffix-append :
    (mark : ℕ) (s t : Text)
    → IsSuffix s
    → Stops is_suffix_rune t
    → Stops (λ c. c == mark) t
    → suffix mark (suffix_text mark s ++ t) ≡ some (s, t)
unfolding suffix
suffix-append mark [] [] h stop free = refl
suffix-append mark [] (d ∷ t) h stop free = rw free
suffix-append mark (c ∷ s) t (inl e) stop free = cc
suffix-append mark (c ∷ s) t (inr (a, i)) stop free = ground (
  arith,
  take_while-append is_suffix_rune (c ∷ s) t a stop,
  drop_while-append is_suffix_rune (c ∷ s) t a stop,
)

atoi-format : (n : ℕ) → n ≤ max_int → atoi (format n) ≡ some n
unfolding atoi
atoi-format n h = ground (arith, value_from-format n)

format_int-format : (n : ℕ) → n ≤ max_int → format_int n ≡ format n
unfolding format_int
format_int-format n h = ground arith

-- The text of a version with the given printed components.
abbrev layout : Text → Text → Text → Text → Text → Text
layout a b c pre build =
    a ++ (b'.' ∷ (b ++ (b'.' ∷ (c ++ (suffix_text b'-' pre ++ suffix_text b'+' build)))))

dot-Stops : (t : Text) → Stops is_digit (b'.' ∷ t)
unfolding is_digit
dot-Stops t = refl

suffix-Stops_digit : (p q : Text) → Stops is_digit (suffix_text b'-' p ++ suffix_text b'+' q)
unfolding is_digit
suffix-Stops_digit [] [] = tt
suffix-Stops_digit [] (c ∷ q) = refl
suffix-Stops_digit (c ∷ p) q = refl

build-Stops :
    (q : Text)
    → Stops is_suffix_rune (suffix_text b'+' q) × Stops (λ c. c == b'-') (suffix_text b'+' q)
unfolding is_suffix_rune
build-Stops [] = (tt, tt)
build-Stops (c ∷ q) = (refl, refl)

match_version-layout :
    (a b c p q : Text)
    → IsDigits a × (a ≢ [])
    → IsDigits b × (b ≢ [])
    → IsDigits c × (c ≢ [])
    → IsSuffix p
    → IsSuffix q
    → match_version (layout a b c p q) ≡ some (record { m1 = a; m2 = b; m3 = c; m4 = p; m5 = q })
unfolding match_version match_core match_suffixes
match_version-layout a b c p q ha hb hc hp hq =
    let t : Text = suffix_text b'-' p ++ suffix_text b'+' q in
    let t3 : Text = c ++ t in
    let t2 : Text = b'.' ∷ t3 in
    let t1 : Text = b ++ t2 in
    let t0 : Text = b'.' ∷ t1 in
    ground (
      arith,
      number-append a t0 ha.0 ha.1 (dot-Stops t1),
      number-append b t2 hb.0 hb.1 (dot-Stops t3),
      number-append c t hc.0 hc.1 (suffix-Stops_digit p q),
      suffix-append b'-' p (suffix_text b'+' q) hp (build-Stops q).0 (build-Stops q).1,
      suffix-append b'+' q [] hq tt tt,
      append-nil (suffix_text b'+' q),
    )

digit-space : (c : ℕ) → is_digit c ≡ true → is_space c ≡ false
unfolding is_digit is_space
digit-space c h = ground arith

suffix_rune-space : (c : ℕ) → is_suffix_rune c ≡ true → is_space c ≡ false
unfolding is_suffix_rune is_space
suffix_rune-space c h = ground arith

abbrev NotSpace : ℕ → Type 0
NotSpace c = is_space c ≡ false

digits-NotSpace : (s : Text) → IsDigits s → All NotSpace s
digits-NotSpace [] h = tt
digits-NotSpace (c ∷ s) h = (digit-space c h.0, digits-NotSpace s h.1)

runes-NotSpace : (s : Text) → All (λ c. is_suffix_rune c ≡ true) s → All NotSpace s
runes-NotSpace [] h = tt
runes-NotSpace (c ∷ s) h = (suffix_rune-space c h.0, runes-NotSpace s h.1)

suffix_text-NotSpace :
    (mark : ℕ) (s : Text) → NotSpace mark → IsSuffix s → All NotSpace (suffix_text mark s)
suffix_text-NotSpace mark [] m h = tt
suffix_text-NotSpace mark (c ∷ s) m (inl e) = cc
suffix_text-NotSpace mark (c ∷ s) m (inr (a, i)) = (m, runes-NotSpace (c ∷ s) a)

layout-NotSpace :
    (a b c p q : Text)
    → IsDigits a
    → IsDigits b
    → IsDigits c
    → IsSuffix p
    → IsSuffix q
    → All NotSpace (layout a b c p q)
unfolding is_space
layout-NotSpace a b c p q ha hb hc hp hq = All-append NotSpace a _ (digits-NotSpace a ha) (
  refl,
  All-append NotSpace b _ (digits-NotSpace b hb) (
    refl,
    All-append NotSpace c _ (digits-NotSpace c hc) (
        All-append NotSpace (suffix_text b'-' p) _ (suffix_text-NotSpace b'-' p refl hp)
          (suffix_text-NotSpace b'+' q refl hq)),
  ),
)

string-layout :
    (v : SemVer)
    → IsValid v
    → string v
      ≡ layout (format v.core_major) (format v.core_minor) (format v.core_patch) v.pre v.build
unfolding string
string-layout v h = simp (
  format_int-format _ h.major_fits,
  format_int-format _ h.minor_fits,
  format_int-format _ h.patch_fits,
)

format-good : (n : ℕ) → IsDigits (format n) × (format n ≢ [])
format-good n = (format-IsDigits n, format-ne-nil n)

-- Parse reads back what String prints for every well-formed version: components that fit in an
-- int, and suffixes that are absent or identifiers without a leading zero in a numeric one.
pub parse-string : (v : SemVer) → IsValid v → parse (string v) ≡ ok v
unfolding parse
parse-string v h =
    let a : Text = format v.core_major in
    let b : Text = format v.core_minor in
    let c : Text = format v.core_patch in
    rw
      (
        string-layout v h,
        trim_space-All (layout a b c v.pre v.build) (
            layout-NotSpace a b c v.pre v.build (format-IsDigits _) (format-IsDigits _)
              (format-IsDigits _) h.pre_suffix h.build_suffix),
      )
      (ground (
        arith,
        match_version-layout a b c v.pre v.build (format-good _) (format-good _) (format-good _)
            h.pre_suffix h.build_suffix,
        h.pre_numbers,
        atoi-format _ h.major_fits,
        atoi-format _ h.minor_fits,
        atoi-format _ h.patch_fits,
      ))

suffix-IsSuffix : (mark : ℕ) (s : Text) {p r : Text} → suffix mark s ≡ some (p, r) → IsSuffix p
unfolding suffix
suffix-IsSuffix mark [] h = ground arith
suffix-IsSuffix mark (c ∷ s) h = ground (arith, take_while-All is_suffix_rune s)

at_end-eq : (m : Match) (r : Text) {n : Match} → at_end m r ≡ some n → m ≡ n
unfolding at_end
at_end-eq m [] h = ground arith
at_end-eq m (c ∷ r) h = cc

match_suffixes-IsSuffix :
    (a b c r : Text) {m : Match}
    → match_suffixes (a, b, c, r) ≡ some m
    → IsSuffix m.m4 × IsSuffix m.m5
match_suffixes-IsSuffix a b c r {m} h =
    let (s1, e6, k6) =
      bind-eq-some (suffix b'-' r)
        (λ x. suffix b'+' x.1 >>=? λ y.
          at_end (record { m1 = a; m2 = b; m3 = c; m4 = x.0; m5 = y.0 }) y.1)
        {b = m} (unfold match_suffixes in h) in
    let (s2, e7, k7) = bind-eq-some (suffix b'+' s1.1) _ k6 in
    subst (λ (n : Match). IsSuffix n.m4 × IsSuffix n.m5) (at_end-eq _ s2.1 k7)
      (suffix-IsSuffix b'-' r e6, suffix-IsSuffix b'+' s1.1 e7)

-- What the pattern matched: both suffixes are well formed.
match_version-IsSuffix :
    (s : Text) {m : Match} → match_version s ≡ some m → IsSuffix m.m4 × IsSuffix m.m5
match_version-IsSuffix s {m} h =
    let (r, _, k) =
      bind-eq-some (match_core s) match_suffixes {b = m} (unfold match_version in h) in
    match_suffixes-IsSuffix r.0 r.1 r.2 r.3 k

atoi-le : (s : Text) {n : ℕ} → atoi s ≡ some n → n ≤ max_int
unfolding atoi
atoi-le s h = ground arith

convert-IsValid :
    (m : Match) (a b c : Option ℕ) {v : SemVer}
    → a ≡ atoi m.m1
    → b ≡ atoi m.m2
    → c ≡ atoi m.m3
    → IsSuffix m.m4
    → IsSuffix m.m5
    → any has_leading_zero (split m.m4 b'.') ≡ false
    → convert m a b c ≡ ok v
    → IsValid v
unfolding convert
convert-IsValid m (some a) (some b) (some c) ea eb ec p q z h =
    subst IsValid (ok-injective h) (record {
      major_fits = atoi-le m.m1 (sym ea);
      minor_fits = atoi-le m.m2 (sym eb);
      patch_fits = atoi-le m.m3 (sym ec);
      pre_suffix = p;
      pre_numbers = z;
      build_suffix = q;
    })
convert-IsValid m none b c ea eb ec p q z h = cc
convert-IsValid m (some a) none c ea eb ec p q z h = cc
convert-IsValid m (some a) (some b) none ea eb ec p q z h = cc

of_match-IsValid :
    (s : Text) (o : Option Match) {v : SemVer} → match_version s ≡ o → of_match o ≡ ok v → IsValid v
unfolding of_match
of_match-IsValid s none e h = cc
of_match-IsValid s (some m) e h = elim (Bool-cases (any has_leading_zero (split m.m4 b'.'))) [
  | inl bad ↦ absurd (err-ne-ok (rw bad at h))
  | inr good ↦
      let (p, q) = match_version-IsSuffix s e in
      convert-IsValid m (atoi m.m1) (atoi m.m2) (atoi m.m3) refl refl refl p q good (rw good at h)
]

-- A version that Parse accepts is well formed.
pub parse-IsValid : (s : Text) {v : SemVer} → parse s ≡ ok v → IsValid v
unfolding parse
parse-IsValid s h = of_match-IsValid (trim_space s) (match_version (trim_space s)) refl h
