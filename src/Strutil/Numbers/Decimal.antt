-- ===== src/Strutil/Numbers/Decimal.antt =====
-- The decimal digits of a number are read again as that number.
use rules_analyzer.Base.{
  ℕ, ◌^◌, ◌≤◌, ◌<◌, ◌≡◌, refl, ap, ◌∙◌, Bool, true, false, [], ◌∷◌, all, arith, some, pos, ltb,
}
use rules_analyzer.Strutil.{Text}
use rules_analyzer.Strutil.Numbers.{
  is_space, is_digit, skip_sign, digits_value, skip_digits, has_minus, to_long, strtol, check_long,
  str2num,
}

skip_all : (cs : Text) → all is_digit cs ≡ true → skip_digits cs ≡ []
skip_all [] h = refl
skip_all (c ∷ cs) h = ground (arith, skip_all cs)

-- A digit is neither a blank nor a sign, so the text is read from its start.
strtol-digits :
    (c : ℕ) (cs : Text)
    → all is_digit (c ∷ cs) ≡ true
    → strtol (c ∷ cs) ≡ (to_long false (digits_value 0 (c ∷ cs)), [])
strtol-digits c cs h =
    let digit : is_digit c ≡ true = ground arith in
    let ink : is_space c ≡ false = ground arith in
    let unsigned : skip_sign (c ∷ cs) ≡ c ∷ cs = ground arith in
    let plus : has_minus (c ∷ cs) ≡ false = ground arith in
    rw ink (rw (unsigned, plus) (rw digit (rw (skip_all cs (ground arith)) refl)))

in_range :
    (n maxval : ℕ)
    → n ≤ maxval
    → maxval < 2 ^ 63
    → check_long (pos 0) (pos maxval) (to_long false n, []) ≡ some (pos n)
in_range n maxval h k = ground arith

-- Decimal digits, at least one.
abbrev pub is_number : Text → Bool
is_number [] = false
is_number (c ∷ cs) = all is_digit (c ∷ cs)

-- A number within the limits is converted to the value of its digits.
pub str2num-number :
    (s : Text) (maxval : ℕ)
    → is_number s ≡ true
    → digits_value 0 s ≤ maxval
    → maxval < 2 ^ 63
    → str2num s (pos 0) (pos maxval) ≡ some (pos (digits_value 0 s))
unfolding str2num
str2num-number [] maxval h k m = cc
str2num-number (c ∷ cs) maxval h k m =
    let least : ltb maxval 0 ≡ false = ground arith in
    rw least (ap (check_long (pos 0) (pos maxval)) (strtol-digits c cs h) ∙ in_range _ maxval k m)
