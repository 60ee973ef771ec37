-- ===== src/Text/Decimal.antt =====
-- `to_string` on an unsigned integer.
use ripht_php_sapi.Prelude.{
  ℕ, zero, suc, ◌+◌, ◌*◌, ◌/◌, ◌%◌, ◌<◌, ◌≡◌, ap, ◌∙◌, [], ◌∷◌, arith, ltb, if◌then◌else◌,
  Bool-cases, inl, inr, ◌≤◌, All, length,
}
use ripht_php_sapi.Text.{Str}

-- The digits of `n` in front of `rest`; more fuel than digits is enough.
digits : ℕ → ℕ → Str → Str
digits zero n rest = rest
digits (suc fuel) n rest =
    let more = digits fuel (n / 10) ((48 + n % 10) ∷ rest) in
    if ltb n 10 then (48 + n) ∷ rest else more

unfoldable pub decimal : ℕ → Str
unfolding digits
decimal n = digits (suc n) n []

-- The number that a list of digits stands for, after the number read so far.
unfoldable pub number_from : ℕ → Str → ℕ
number_from acc [] = acc
number_from acc (c ∷ s) = number_from (acc * 10 + c % 48) s

number_from-digits :
    (fuel n : ℕ) (rest : Str) → n < fuel → number_from 0 (digits fuel n rest) ≡ number_from n rest
unfolding digits number_from
number_from-digits zero n rest h = elim h [ ]
number_from-digits (suc fuel) n rest h = elim (Bool-cases (ltb n 10)) [
  | inl few ↦ rw few (ap (λ k. number_from k rest) (ground arith))
  | inr many ↦ rw many (
      number_from-digits fuel (n / 10) ((48 + n % 10) ∷ rest) (ground arith)
      ∙ ap (λ k. number_from k rest) (omega arith))
]

-- What is printed is read back as the number.
pub number_from-decimal : (n : ℕ) → number_from 0 (decimal n) ≡ n
unfolding decimal number_from
number_from-decimal n = number_from-digits (suc n) n [] (omega arith)

-- A list of decimal digits.
abbrev pub IsDigit : ℕ → Type 0
IsDigit c = (48 ≤ c) × (c ≤ 57)

digits-IsDigit : (fuel n : ℕ) (rest : Str) → All IsDigit rest → All IsDigit (digits fuel n rest)
unfolding digits
digits-IsDigit zero n rest h = h
digits-IsDigit (suc fuel) n rest h = elim (Bool-cases (ltb n 10)) [
  | inl few ↦ rw few ((omega arith, ground arith), h)
  | inr many ↦
      rw many (digits-IsDigit fuel (n / 10) ((48 + n % 10) ∷ rest) ((omega arith, omega arith), h))
]

pub decimal-IsDigit : (n : ℕ) → All IsDigit (decimal n)
unfolding decimal
decimal-IsDigit n = digits-IsDigit (suc n) n [] tt

length-digits : (fuel n : ℕ) (rest : Str) → length rest ≤ length (digits fuel n rest)
unfolding digits
length-digits zero n rest = omega arith
length-digits (suc fuel) n rest = ground (arith, length-digits fuel (n / 10) ((48 + n % 10) ∷ rest))

-- There is a digit at least.
pub length-decimal : (n : ℕ) → 1 ≤ length (decimal n)
unfolding decimal digits
length-decimal n = ground (arith, length-digits n (n / 10) ((48 + n % 10) ∷ []))
