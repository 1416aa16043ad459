-- ===== src/Format/Digits.antt =====
-- Decimal digits, produced from the last one on, for the tests.
use native.Mathlib.Numerals.{add-one}
use rules_analyzer.Base.{
  ℕ, zero, suc, ◌+◌, ◌-◌, ◌*◌, ◌/◌, ◌%◌, ◌≤◌, ◌<◌, ◌≡◌, refl, ◌∙◌, true, if◌then◌else◌, ltb, [],
  ◌∷◌, ◌++◌, all, all-append, arith, length, length-append, Bool-cases, inl, inr,
}
use rules_analyzer.Strutil.{Text}
use rules_analyzer.Strutil.Numbers.{is_digit, digits_value}
use rules_analyzer.Strutil.Numbers.Decimal.{is_number}
use rules_analyzer.Format.{Format}
use rules_analyzer.Format.Names.{tally_name}

unfoldable pub digits : ℕ → ℕ → Text
digits zero n = []
digits (suc fuel) n =
    let front = digits fuel (n / 10) in
    if ltb n 10 then (48 + n) ∷ [] else front ++ (48 + n % 10) ∷ []

last_value :
    (m : ℕ) (s : Text) (d : ℕ)
    → all is_digit s ≡ true
    → d < 10
    → digits_value m (s ++ (48 + d) ∷ []) ≡ digits_value m s * 10 + d
last_value m [] d h k = ground arith
last_value m (c ∷ s) d h k = ground (arith, last_value (m * 10 + (c - 48)) s d)

digits-all : (fuel n : ℕ) → all is_digit (digits fuel n) ≡ true
unfolding digits
digits-all zero n = refl
digits-all (suc fuel) n = ground (
  arith,
  all-append is_digit (digits fuel (n / 10)) ((48 + n % 10) ∷ []),
  digits-all fuel (n / 10),
)

digits-value : (fuel n : ℕ) → n < fuel → digits_value 0 (digits fuel n) ≡ n
unfolding digits
digits-value zero n h = absurd (omega arith)
digits-value (suc fuel) n h = elim (Bool-cases (ltb n 10)) [
  | inl small ↦ rw small (ground arith)
  | inr large ↦ rw large (
      last_value 0 (digits fuel (n / 10)) (n % 10) (digits-all fuel (n / 10)) (omega arith)
      ∙ ground (arith, digits-value fuel (n / 10)))
]

unfoldable pub decimal : ℕ → Text
unfolding digits
decimal n = digits (n + 1) n

-- A digit at the end makes the text a number.
ends_number :
    (s : Text) (d : ℕ) → all is_digit s ≡ true → d < 10 → is_number (s ++ (48 + d) ∷ []) ≡ true
ends_number [] d h k = ground arith
ends_number (c ∷ s) d h k = ground (arith, all-append is_digit s ((48 + d) ∷ []))

pub is_number-decimal : (n : ℕ) → is_number (decimal n) ≡ true
unfolding decimal
is_number-decimal n = elim (Bool-cases (ltb n 10)) [
  | inl small ↦ rw (add-one, digits) (rw small (ground arith))
  | inr large ↦
      rw (add-one, digits)
        (rw large (ends_number (digits n (n / 10)) (n % 10) (digits-all n (n / 10)) (omega arith)))
]

pub value-decimal : (n : ℕ) → digits_value 0 (decimal n) ≡ n
unfolding decimal
value-decimal n = digits-value (n + 1) n (omega arith)

length-digits : (fuel n : ℕ) → n < 10 → length (digits fuel n) ≤ 1
unfolding digits
length-digits zero n h = omega arith
length-digits (suc fuel) n h = ground arith

length-digits_two : (fuel n : ℕ) → n < 100 → length (digits fuel n) ≤ 2
unfolding digits
length-digits_two zero n h = omega arith
length-digits_two (suc fuel) n h =
    ground (
      arith,
      length-append (digits fuel (n / 10)) ((48 + n % 10) ∷ []),
      length-digits fuel (n / 10),
    )

pub length-decimal : (n : ℕ) → n < 100 → length (decimal n) ≤ 2
unfolding decimal
length-decimal n h = length-digits_two (n + 1) n h

abbrev pub digits_format : Format
digits_format = record {
  decimal = decimal;
  indexed = tally_name;
  is_number-decimal = is_number-decimal;
  value-decimal = value-decimal;
  length-decimal = length-decimal;
}
