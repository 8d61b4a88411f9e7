-- ===== src/Text/Maps.antt =====
-- Go maps with string keys, as association lists. A range over a map is modelled by the
-- order of the list only where the order makes no difference.
use hooversion.Common.{
  Bool-cases, inl, inr, ◌≡◌, refl, List, [], ◌∷◌, Option, none, some, arith, if◌then◌else◌,
}
use hooversion.Text.{Text, text_eq}
use hooversion.Text.Laws.{text_eq_iff}

abbrev pub TextMap {ℓ} : Type ℓ → Type ℓ
TextMap V = List (Text × V)

module _ {ℓ} {V : Type ℓ} where
  -- m[k], with none for a missing key
  unfoldable pub lookup : Text → TextMap V → Option V
  unfolding text_eq
  lookup k [] = none
  lookup k ((j, v) ∷ m) = if text_eq j k then some v else lookup k m

  -- m[k] = v
  unfoldable pub insert : Text → V → TextMap V → TextMap V
  unfolding text_eq
  insert k v [] = (k, v) ∷ []
  insert k v ((j, w) ∷ m) = if text_eq j k then (k, v) ∷ m else (j, w) ∷ insert k v m

  -- delete(m, k)
  unfoldable pub delete : Text → TextMap V → TextMap V
  unfolding text_eq
  delete k [] = []
  delete k ((j, w) ∷ m) = if text_eq j k then delete k m else (j, w) ∷ delete k m

  pub lookup-insert :
      (k j : Text) (v : V) (m : TextMap V)
      → lookup j (insert k v m) ≡ (if text_eq k j then some v else lookup j m)
  unfolding lookup insert
  lookup-insert k j v [] = refl
  lookup-insert k j v ((i, w) ∷ m) =
      ground (arith, text_eq_iff k j, text_eq_iff i k, text_eq_iff i j, lookup-insert k j v m)

  pub lookup-delete :
      (k j : Text) (m : TextMap V)
      → lookup j (delete k m) ≡ (if text_eq k j then none else lookup j m)
  unfolding lookup delete
  lookup-delete k j [] = ground arith
  lookup-delete k j ((i, w) ∷ m) =
      ground (arith, text_eq_iff k j, text_eq_iff i k, text_eq_iff i j, lookup-delete k j m)

  -- The keys of a map differ from one another.
  abbrev pub HasDistinctKeys : TextMap V → Type ℓ
  HasDistinctKeys [] = Unit
  HasDistinctKeys ((k, v) ∷ m) = (lookup k m ≡ none) × HasDistinctKeys m

  pub insert-HasDistinctKeys :
      (k : Text) (new : V) (m : TextMap V) → HasDistinctKeys m → HasDistinctKeys (insert k new m)
  unfolding insert
  insert-HasDistinctKeys k new [] h = unfold lookup in (refl, tt)
  insert-HasDistinctKeys k new ((j, v) ∷ m) (f, h) = elim (Bool-cases (text_eq j k)) [
    | inl x ↦ rw (insert, x) (ground (arith, text_eq_iff j k), h)
    | inr x ↦
        rw (insert, x)
          (
            ground (arith, text_eq_iff j k, text_eq_iff k j, lookup-insert k j new m),
            insert-HasDistinctKeys k new m h,
          )
  ]

  pub delete-HasDistinctKeys :
      (k : Text) (m : TextMap V) → HasDistinctKeys m → HasDistinctKeys (delete k m)
  unfolding delete
  delete-HasDistinctKeys k [] h = tt
  delete-HasDistinctKeys k ((j, v) ∷ m) (f, h) = elim (Bool-cases (text_eq j k)) [
    | inl x ↦ rw (delete, x) (delete-HasDistinctKeys k m h)
    | inr x ↦ rw (delete, x) (ground (arith, lookup-delete k j m), delete-HasDistinctKeys k m h)
  ]
