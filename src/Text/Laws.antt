-- ===== src/Text/Laws.antt =====
-- Laws of the text functions.
use hooversion.Common.{
  ℕ, ◌≡◌, ◌≢◌, ◌↔◌, refl, ap, ◌∙◌, Bool, true, false, ◌||◌, List, [], ◌∷◌, ◌++◌, arith, All, length,
  drop, some,
}
use hooversion.Text.{
  Text, text_eq, contains, has_prefix, is_space, trim_left, trim_right, trim_space, split,
  replace_from, replace_all, cut_rune,
}

pub text_eq_iff : (s t : Text) → (text_eq s t ≡ true) ↔ (s ≡ t)
unfolding text_eq
text_eq_iff [] [] = ground arith
text_eq_iff [] (y ∷ t) = ground arith
text_eq_iff (x ∷ s) [] = ground arith
text_eq_iff (x ∷ s) (y ∷ t) = ground (arith, text_eq_iff s t)

pub text_eq_refl : (s : Text) → text_eq s s ≡ true
text_eq_refl s = (text_eq_iff s s).1 refl

pub text_eq_ne : (s t : Text) → s ≢ t → text_eq s t ≡ false
text_eq_ne s t h = ground (arith, text_eq_iff s t)

pub has_prefix-append : (p s : Text) → has_prefix (p ++ s) p ≡ true
unfolding has_prefix
has_prefix-append [] s = refl
has_prefix-append (c ∷ p) s = ground (arith, has_prefix-append p s)

-- A text with the prefix `p` is `p` and a rest.
pub has_prefix-split : (s p : Text) → has_prefix s p ≡ true → s ≡ p ++ drop (length p) s
unfolding has_prefix
has_prefix-split s [] h = refl
has_prefix-split [] (c ∷ p) h = cc
has_prefix-split (d ∷ s) (c ∷ p) h = ground (arith, has_prefix-split s p)

-- The text is not empty, and neither its first nor its last rune is a space.
pub record IsTrimmed (s : Text) : Type 0 where
  pub at_left : trim_left is_space s ≡ s
  pub at_right : trim_right is_space s ≡ s

pub trim_space_of_IsTrimmed : (s : Text) → IsTrimmed s → trim_space s ≡ s
unfolding trim_space
trim_space_of_IsTrimmed s h = ap (trim_right is_space) h.at_left ∙ h.at_right

pub trim_right-cons_ne :
    (p : ℕ → Bool) (c : ℕ) (s : Text) → p c ≡ false → trim_right p (c ∷ s) ≡ c ∷ trim_right p s
unfolding trim_right
trim_right-cons_ne p c s h = ground arith

-- Where no rune is a space nothing is trimmed.
pub trim_left-All : (p : ℕ → Bool) (s : Text) → All (λ c. p c ≡ false) s → trim_left p s ≡ s
unfolding trim_left
trim_left-All p [] h = refl
trim_left-All p (c ∷ s) h = rw h.0

pub trim_right-All : (p : ℕ → Bool) (s : Text) → All (λ c. p c ≡ false) s → trim_right p s ≡ s
trim_right-All p [] h = unfold trim_right in refl
trim_right-All p (c ∷ s) h = rw (trim_right-cons_ne p c s h.0) (ap (◌∷◌ c) (trim_right-All p s h.1))

pub trim_space-All : (s : Text) → All (λ c. is_space c ≡ false) s → trim_space s ≡ s
unfolding trim_space
trim_space-All s h =
    ap (trim_right is_space) (trim_left-All is_space s h) ∙ trim_right-All is_space s h

-- Splitting at a rune that does not occur gives the whole text.
pub split_absent : (s : Text) (sep : ℕ) → All (λ c. c ≢ sep) s → split s sep ≡ s ∷ []
unfolding split
split_absent [] sep h = refl
split_absent (c ∷ s) sep h = ground (arith, split_absent s sep h.1)

pub split-append :
    (s t : Text) (sep : ℕ) → All (λ c. c ≢ sep) s → split (s ++ sep ∷ t) sep ≡ s ∷ split t sep
unfolding split
split-append [] t sep h = ground arith
split-append (c ∷ s) t sep h = ground (arith, split-append s t sep h.1)

pub contains-append :
    (xs ys : List Text) (x : Text) → contains (xs ++ ys) x ≡ (contains xs x || contains ys x)
unfolding contains
contains-append [] ys x = refl
contains-append (v ∷ xs) ys x = ground (arith, contains-append xs ys x)

-- Where the first rune of a text does not occur, there is nothing to replace.
replace_from_absent :
    (s old new : Text) (o : ℕ) → All (λ c. c ≢ o) s → replace_from (o ∷ old) new 0 s ≡ s
unfolding replace_from has_prefix
replace_from_absent [] old new o h = refl
replace_from_absent (c ∷ s) old new o h = ground (arith, replace_from_absent s old new o h.1)

pub replace_all_absent :
    (s old new : Text) (o : ℕ) → All (λ c. c ≢ o) s → replace_all s (o ∷ old) new ≡ s
unfolding replace_all
replace_all_absent s old new o h = replace_from_absent s old new o h

-- The text before the first mark is what stands before it.
pub cut_rune-append :
    (s t : Text) (sep : ℕ) → All (λ c. c ≢ sep) s → cut_rune (s ++ sep ∷ t) sep ≡ some (s, t)
unfolding cut_rune
cut_rune-append [] t sep h = ground arith
cut_rune-append (c ∷ s) t sep h = ground (arith, cut_rune-append s t sep h.1)
