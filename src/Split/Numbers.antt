-- ===== src/Split/Numbers.antt =====
-- A number in decimal digits is a part (src/tools/strutil.cpp) that no delimiter cuts.
use rules_analyzer.Base.{ℕ, ◌<◌, ◌==◌, ◌≡◌, refl, true, not, [], ◌∷◌, all, arith}
use rules_analyzer.Strutil.{Text}
use rules_analyzer.Strutil.Numbers.{is_digit}
use rules_analyzer.Strutil.Numbers.Decimal.{is_number}
use rules_analyzer.Split.Joined.{is_part}

digit_others :
    (delim : ℕ) (cs : Text)
    → delim < 48
    → all is_digit cs ≡ true
    → all (λ c. not (c == delim)) cs ≡ true
digit_others delim [] k h = refl
digit_others delim (c ∷ cs) k h = ground (arith, digit_others delim cs)

pub number_part : (delim : ℕ) (a : Text) → delim < 48 → is_number a ≡ true → is_part delim a ≡ true
number_part delim [] k h = cc
number_part delim (c ∷ cs) k h = let others = digit_others delim cs k (ground arith) in ground arith
