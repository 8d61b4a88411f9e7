-- ===== src/Text/Decimal.antt =====
-- Decimal numbers: the verb %d on a number that is not negative, and strconv.Atoi on digits.
use hooversion.Common.{
  ℕ, zero, suc, ◌+◌, ◌-◌, ◌*◌, ◌/◌, ◌%◌, ◌≤◌, ◌≡◌, ◌≢◌, refl, Bool, true, false, ◌&&◌, [], ◌∷◌,
  arith, leb, ◌==◌, if◌then◌else◌, All, ap, ◌∙◌, Bool-cases, inl, inr,
}
use hooversion.Text.{Text}

unfoldable pub is_digit : ℕ → Bool
is_digit c = leb b'0' c && leb c b'9'

-- The digits of `n` in front of `tail`, none for 0. The fuel `n` is enough: a division by 10 makes
-- a positive number smaller.
put_digits : ℕ → ℕ → Text → Text
put_digits zero n tail = tail
put_digits (suc fuel) n tail = elim (n == 0) [
  | true ↦ tail
  | false ↦ put_digits fuel (n / 10) ((b'0' + n % 10) ∷ tail)
]

unfoldable pub format : ℕ → Text
unfolding put_digits
format n = if n == 0 then b'0' ∷ [] else put_digits n n []

-- the number that digits spell behind `acc`, with no bound
unfoldable pub value_from : ℕ → Text → ℕ
value_from acc [] = acc
value_from acc (c ∷ s) = value_from (acc * 10 + (c - b'0')) s

-- With enough fuel, the digits of `n` spell `n` in front of what follows.
value_from-put_digits :
    (fuel n : ℕ) (tail : Text)
    → n ≤ fuel
    → value_from 0 (put_digits fuel n tail) ≡ value_from n tail
unfolding put_digits value_from
value_from-put_digits zero n tail h = ap (λ k. value_from k tail) (omega arith)
value_from-put_digits (suc fuel) n tail h = elim (Bool-cases (n == 0)) [
  | inl z ↦ rw (put_digits, z) (ap (λ k. value_from k tail) (ground arith))
  | inr p ↦
      let later = value_from-put_digits fuel (n / 10) ((b'0' + n % 10) ∷ tail) (ground arith) in
      rw (put_digits, p) (later ∙ ap (λ k. value_from k tail) (ground arith))
]

abbrev pub IsDigits : Text → Type 0
IsDigits = All (λ c. is_digit c ≡ true)

is_digit-mod : (m : ℕ) → is_digit (b'0' + m % 10) ≡ true
unfolding is_digit
is_digit-mod m = ground arith

put_digits-IsDigits : (fuel n : ℕ) (tail : Text) → IsDigits tail → IsDigits (put_digits fuel n tail)
unfolding put_digits
put_digits-IsDigits zero n tail h = h
put_digits-IsDigits (suc fuel) n tail h = elim (Bool-cases (n == 0)) [
  | inl z ↦ rw (put_digits, z) h
  | inr p ↦ rw (put_digits, p) (put_digits-IsDigits fuel (n / 10) _ (is_digit-mod n, h))
]

put_digits-ne-nil : (fuel n : ℕ) (tail : Text) → tail ≢ [] → put_digits fuel n tail ≢ []
unfolding put_digits
put_digits-ne-nil zero n tail h = h
put_digits-ne-nil (suc fuel) n tail h =
    ground (arith, put_digits-ne-nil fuel (n / 10) ((b'0' + n % 10) ∷ tail))

pub format-IsDigits : (n : ℕ) → IsDigits (format n)
unfolding format
format-IsDigits n = elim (Bool-cases (n == 0)) [
  | inl e ↦ rw e (is_digit-mod 0, tt)
  | inr e ↦ rw e (put_digits-IsDigits n n [] tt)
]

pub format-ne-nil : (n : ℕ) → format n ≢ []
unfolding format put_digits
format-ne-nil zero = ground arith
format-ne-nil (suc n) = ground (arith, put_digits-ne-nil n (suc n / 10) ((b'0' + suc n % 10) ∷ []))

-- The decimal print of a number spells the number.
pub value_from-format : (n : ℕ) → value_from 0 (format n) ≡ n
unfolding format
value_from-format n = elim (Bool-cases (n == 0)) [
  | inl e ↦ rw e (unfold value_from in ground arith)
  | inr e ↦ rw e (value_from-put_digits n n [] (omega arith) ∙ unfold value_from in refl)
]
