-- ===== src/Strutil/Numbers.antt =====
-- src/tools/strutil.cpp: the conversions of a text to a number or a truth value. Every caller asks
-- for the radix 10, and a long has 64 bits.
pub mod Decimal
mod Tests
use rules_analyzer.Base.{
  ℕ, ◌+◌, ◌-◌, ◌*◌, ◌%◌, ◌^◌, ◌==◌, Bool, true, false, ◌&&◌, ◌||◌, if◌then◌else◌, leb, ltb, List,
  [], ◌∷◌, Option, none, some, ℤ, pos, negsuc, negate, ltb_ℤ,
}
use rules_analyzer.Strutil.{Text}
use rules_analyzer.Strutil.Case.{iequal}

abbrev pub is_space : ℕ → Bool
is_space c = c == 32 || leb 9 c && leb c 13

abbrev pub is_digit : ℕ → Bool
is_digit c = leb 48 c && leb c 57

-- strtol of the C library: the value, or `none` for ERANGE, and the text behind it.
abbrev pub skip_spaces : Text → Text
skip_spaces [] = []
skip_spaces (c ∷ cs) = if is_space c then skip_spaces cs else c ∷ cs

abbrev pub has_minus : Text → Bool
has_minus [] = false
has_minus (c ∷ cs) = c == 45

abbrev pub skip_sign : Text → Text
skip_sign [] = []
skip_sign (c ∷ cs) = if c == 45 || c == 43 then cs else c ∷ cs

-- The magnitude of the digits, and the text behind them.
abbrev pub digits_value : ℕ → Text → ℕ
digits_value n [] = n
digits_value n (c ∷ cs) =
    let longer = digits_value (n * 10 + (c - 48)) cs in if is_digit c then longer else n

abbrev pub skip_digits : Text → Text
skip_digits [] = []
skip_digits (c ∷ cs) = if is_digit c then skip_digits cs else c ∷ cs

abbrev pub starts_number : Text → Bool
starts_number [] = false
starts_number (c ∷ cs) = is_digit c

abbrev pub to_long : Bool → ℕ → Option ℤ
to_long true n = if leb n (2 ^ 63) then some (negate n) else none
to_long false n = if ltb n (2 ^ 63) then some (pos n) else none

-- Where there are no digits the value is 0 and the end is the start of the text.
abbrev pub strtol : Text → Option ℤ × Text
strtol numstr =
    let unsigned = skip_sign (skip_spaces numstr) in
    if starts_number unsigned
    then (to_long (has_minus (skip_spaces numstr)) (digits_value 0 unsigned), skip_digits unsigned)
    else (some (pos 0), numstr)

-- `*end_ptr == '\0'`: the text has ended, for C at the first character 0.
abbrev pub is_nul : Text → Bool
is_nul [] = true
is_nul (c ∷ cs) = c == 0

abbrev check_range : ℤ → ℤ → ℤ → Option ℤ
check_range minval maxval l = if ltb_ℤ l minval || ltb_ℤ maxval l then none else some l

abbrev pub check_long : ℤ → ℤ → Option ℤ × Text → Option ℤ
check_long minval maxval (none, end_ptr) = none
check_long minval maxval (some l, end_ptr) =
    if is_nul end_ptr then check_range minval maxval l else none

-- `none` where the function returns false and the value remains as it was.
unfoldable pub str2num : Text → ℤ → ℤ → Option ℤ
str2num numstr minval maxval =
    if ltb_ℤ maxval minval then none else check_long minval maxval (strtol numstr)

-- The assignment of a long to an int keeps the low 32 bits.
abbrev pub to_int : ℕ → ℤ
to_int n = let low = n % 2 ^ 32 in if ltb low (2 ^ 31) then pos low else negate (2 ^ 32 - low)

abbrev int_of : Option ℤ → Option ℤ
int_of none = none
int_of (some (pos n)) = some (to_int n)
int_of (some (negsuc n)) = none

unfoldable pub str2i : Text → Option ℤ
unfolding str2num
str2i str = int_of (str2num str (pos 0) (pos (2 ^ 63 - 1)))

abbrev true_text : Text
true_text = 116 ∷ 114 ∷ 117 ∷ 101 ∷ []

abbrev false_text : Text
false_text = 102 ∷ 97 ∷ 108 ∷ 115 ∷ 101 ∷ []

abbrev is_text : ℕ → Text → Bool
is_text d [] = false
is_text d (c ∷ []) = c == d
is_text d (c ∷ e ∷ cs) = false

unfoldable pub str2b : Text → Option Bool
unfolding iequal
str2b boolstr =
    if iequal boolstr true_text || is_text 49 boolstr
    then some true
    else if iequal boolstr false_text || is_text 48 boolstr
    then some false
    else none
