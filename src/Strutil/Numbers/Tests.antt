-- ===== src/Strutil/Numbers/Tests.antt =====
-- Numbers and truth values in text.
use rules_analyzer.Base.{◌≡◌, refl, true, [], ◌∷◌, none, some, pos}
use rules_analyzer.Strutil.Case.{iends_with}
use rules_analyzer.Strutil.Numbers.{str2num, str2i, str2b}

-- " +42", with a blank and a sign in front.
signed : str2num (32 ∷ 43 ∷ 52 ∷ 50 ∷ []) (pos 0) (pos 99) ≡ some (pos 42)
unfolding str2num
signed = refl

-- "-0" is 0, "4x" is refused, and so is "100" as too large.
minus_zero : str2num (45 ∷ 48 ∷ []) (pos 0) (pos 99) ≡ some (pos 0)
unfolding str2num
minus_zero = refl

behind_number : str2num (52 ∷ 120 ∷ []) (pos 0) (pos 99) ≡ none
unfolding str2num
behind_number = refl

too_large : str2num (49 ∷ 48 ∷ 48 ∷ []) (pos 0) (pos 99) ≡ none
unfolding str2num
too_large = refl

-- A text with no digit that ends at once counts as 0.
no_digits : str2num [] (pos 0) (pos 99) ≡ some (pos 0)
unfolding str2num
no_digits = refl

-- "4294967297" does not fit an int, and is taken for 1.
too_large_int : str2i (52 ∷ 50 ∷ 57 ∷ 52 ∷ 57 ∷ 54 ∷ 55 ∷ 50 ∷ 57 ∷ 55 ∷ []) ≡ some (pos 1)
unfolding str2i
too_large_int = refl

-- "True".
truth : str2b (84 ∷ 114 ∷ 117 ∷ 101 ∷ []) ≡ some true
unfolding str2b
truth = refl

endings : iends_with (97 ∷ 46 ∷ 67 ∷ []) (46 ∷ 99 ∷ []) ≡ true
unfolding iends_with
endings = refl
