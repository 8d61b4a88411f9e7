-- ===== src/Text/Spans.antt =====
-- Laws of the two halves of a greedy match over a class of runes.
use hooversion.Common.{
  ℕ, ◌≡◌, refl, Bool, true, false, [], ◌∷◌, ◌++◌, arith, All, inl, inr, Bool-cases,
}
use hooversion.Text.{Text, take_while, drop_while}

module _ (p : ℕ → Bool) where
  -- The text that follows a span does not go on with the class.
  abbrev pub Stops : Text → Type 0
  Stops [] = Unit
  Stops (c ∷ s) = p c ≡ false

  pub take_while-append :
      (s t : Text) → All (λ c. p c ≡ true) s → Stops t → take_while p (s ++ t) ≡ s
  unfolding take_while
  take_while-append [] [] h stop = refl
  take_while-append [] (d ∷ t) h stop = rw stop
  take_while-append (c ∷ s) t h stop = ground (arith, take_while-append s t h.1 stop)

  pub drop_while-append :
      (s t : Text) → All (λ c. p c ≡ true) s → Stops t → drop_while p (s ++ t) ≡ t
  unfolding drop_while
  drop_while-append [] [] h stop = refl
  drop_while-append [] (d ∷ t) h stop = rw stop
  drop_while-append (c ∷ s) t h stop = ground (arith, drop_while-append s t h.1 stop)

  pub take_while-All : (s : Text) → All (λ c. p c ≡ true) (take_while p s)
  unfolding take_while
  take_while-All [] = tt
  take_while-All (c ∷ s) = elim (Bool-cases (p c)) [
    | inl e ↦ rw e (e, take_while-All s)
    | inr e ↦ rw e tt
  ]

  pub take_while-drop_while : (s : Text) → take_while p s ++ drop_while p s ≡ s
  unfolding take_while drop_while
  take_while-drop_while [] = refl
  take_while-drop_while (c ∷ s) = ground (arith, take_while-drop_while s)
