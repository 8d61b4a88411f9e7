-- ===== src/Text/Paths.antt =====
-- Packages path and path/filepath on a system with slashes: a cleaned path is a list of elements.
use hooversion.Common.{
  ◌≡◌, ◌≢◌, ◌↔◌, inl, inr, refl, sym, Bool, true, false, not, List, [], ◌∷◌, ◌++◌, Option, none,
  some, arith, if◌then◌else◌, All, Bool-cases,
}
use hooversion.Text.Laws.{text_eq_iff, text_eq_refl}
use hooversion.Text.{Text, text_eq, split, join, has_prefix}

-- `elements` is empty for "." and for "/".
pub record CleanPath : Type 0 where
  pub rooted : Bool
  pub elements : List Text

abbrev pub dot : Text
dot = b'.' ∷ []

abbrev pub dot_dot : Text
dot_dot = b'.' ∷ b'.' ∷ []

-- What ".." does to the elements so far, the last of them first.
back_up : Bool → List Text → List Text
back_up true [] = []
back_up false [] = dot_dot ∷ []
back_up rooted (e ∷ stack) = if text_eq e dot_dot then dot_dot ∷ e ∷ stack else stack

clean_step : Bool → Text → List Text → List Text
unfolding back_up
clean_step rooted part stack =
    if text_eq part []
    then stack
    else if text_eq part dot
    then stack
    else if text_eq part dot_dot
    then back_up rooted stack
    else part ∷ stack

clean_parts : Bool → List Text → List Text → List Text
unfolding clean_step
clean_parts rooted stack [] = stack
clean_parts rooted stack (part ∷ parts) = clean_parts rooted (clean_step rooted part stack) parts

reverse_onto : List Text → List Text → List Text
reverse_onto [] out = out
reverse_onto (e ∷ es) out = reverse_onto es (e ∷ out)

unfoldable pub is_abs : Text → Bool
is_abs path = has_prefix path (b'/' ∷ [])

-- Clean
unfoldable pub clean : Text → CleanPath
unfolding clean_parts reverse_onto
clean path = record {
  rooted = is_abs path;
  elements = reverse_onto (clean_parts (is_abs path) [] (split path b'/')) [];
}

-- The text of a cleaned path.
unfoldable pub render : CleanPath → Text
render p =
    if p.rooted
    then b'/' ∷ join p.elements (b'/' ∷ [])
    else elim p.elements [ [] ↦ dot | e ∷ es ↦ join (e ∷ es) (b'/' ∷ []) ]

ups : List Text → List Text → List Text
ups [] rest = rest
ups (e ∷ es) rest = dot_dot ∷ ups es rest

-- Rel on the elements of cleaned paths
unfoldable pub rel_elements : List Text → List Text → Option (List Text)
unfolding ups
rel_elements [] targ = some targ
rel_elements (b ∷ base) [] = if text_eq b dot_dot then none else some (ups (b ∷ base) [])
rel_elements (b ∷ base) (t ∷ targ) =
    let rest = rel_elements base targ in
    if text_eq t b
    then rest
    else if text_eq b dot_dot
    then none
    else some (ups (b ∷ base) (t ∷ targ))

abbrev same_root : Bool → Bool → Bool
same_root true b = b
same_root false b = not b

-- filepath.Rel; none is its error, and [] is "."
unfoldable pub rel : CleanPath → CleanPath → Option (List Text)
rel base targ =
    if same_root base.rooted targ.rooted then rel_elements base.elements targ.elements else none

-- No element is "..".
abbrev pub IsPlain : List Text → Type 0
IsPlain = All (λ e. text_eq e dot_dot ≡ false)

-- The relative path neither is "." nor leads up.
unfoldable pub leads_down : Option (List Text) → Bool
leads_down none = false
leads_down (some []) = false
leads_down (some (e ∷ es)) = not (text_eq e dot_dot)

-- A path leads down from `base` exactly if it goes on from `base` by at least one element.
pub leads_down-rel_iff :
    (base targ : List Text)
    → IsPlain base
    → IsPlain targ
    → (leads_down (rel_elements base targ) ≡ true)
      ↔ ((rest : List Text) × (rest ≢ []) × (targ ≡ base ++ rest))
unfolding leads_down rel_elements
leads_down-rel_iff [] [] hb ht = (λ e. cc, λ (rest, ne, eq). absurd (ne (sym eq)))
leads_down-rel_iff [] (t ∷ targ) hb ht = (λ e. (t ∷ targ, λ x. cc, refl), λ _. rw ht.0)
leads_down-rel_iff (b ∷ base) [] hb ht = (λ e. absurd (ups_fails e), λ (rest, ne, eq). cc)
  where
    ups_fails : ¬ (leads_down (rel_elements (b ∷ base) []) ≡ true)
    ups_fails e = ground (arith, text_eq_refl dot_dot)
leads_down-rel_iff (b ∷ base) (t ∷ targ) hb ht = elim (Bool-cases (text_eq t b)) [
  | inl same ↦
      let e = (text_eq_iff t b).0 same in
      let (f, g) = leads_down-rel_iff base targ hb.1 ht.1 in
      (
        λ h. let (rest, ne, eq) = f (rw same at h) in (rest, ne, cc),
        λ (rest, ne, eq). rw same (g (rest, ne, cc)),
      )
  | inr differ ↦ (
    λ h. absurd (ground (arith, text_eq_refl dot_dot)),
    λ (rest, ne, eq). absurd (ground (arith, text_eq_iff t b, tail_eq rest eq)),
  )
]
  where
    tail_eq : (rest : List Text) → t ∷ targ ≡ (b ∷ base) ++ rest → t ≡ b
    tail_eq rest eq = cc
