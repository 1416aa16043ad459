-- ===== src/Strutil/Case.antt =====
-- src/tools/strutil.cpp: upper and lower case, comparisons without case, endings and plurals.
use mathlib.Core.List.{reverse}
use rules_analyzer.Base.{
  ℕ, ◌-◌, ◌+◌, ◌==◌, Bool, true, false, ◌&&◌, if◌then◌else◌, leb, ltb, [], ◌∷◌, ◌++◌, map, length,
}
use rules_analyzer.Strutil.{Text}

-- The functions of the C library, on the letters of ASCII.
abbrev pub lower : ℕ → ℕ
lower c = if leb 65 c && leb c 90 then c + 32 else c

abbrev pub upper : ℕ → ℕ
upper c = if leb 97 c && leb c 122 then c - 32 else c

-- tolower and toupper of a text.
abbrev pub lower_text : Text → Text
lower_text = map lower

abbrev pub upper_text : Text → Text
upper_text = map upper

abbrev pub icheq : ℕ → ℕ → Bool
icheq a b = lower a == lower b

-- `std::equal` of the first text, as long as the second is: the second has no fewer characters.
abbrev pub equal_by : (ℕ → ℕ → Bool) → Text → Text → Bool
equal_by eq [] ys = true
equal_by eq (x ∷ xs) [] = false
equal_by eq (x ∷ xs) (y ∷ ys) = eq x y && equal_by eq xs ys

unfoldable pub iequal : Text → Text → Bool
iequal s1 s2 = length s1 == length s2 && equal_by icheq s2 s1

unfoldable pub ends_with : Text → Text → Bool
ends_with str ending =
    if ltb (length str) (length ending)
    then false
    else equal_by (λ a b. a == b) (reverse ending) (reverse str)

unfoldable pub iends_with : Text → Text → Bool
iends_with str ending =
    if ltb (length str) (length ending)
    then false
    else equal_by icheq (reverse ending) (reverse str)

abbrev pub pluralize : ℕ → Text → Text → Text
pluralize n singular plural_suffix = if leb n 1 then singular else singular ++ plural_suffix
