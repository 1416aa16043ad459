-- ===== src/Strutil.antt =====
-- src/tools/strutil.cpp: functions on strings, as lists of the codes of their characters.
pub mod Last
pub mod Case
pub mod Numbers
pub mod Spell
use Prim.Native.Char.{code}
use Prim.Native.String.{String}
use Prim.Native.String
use rules_analyzer.Base.{ℕ, ◌-◌, ◌==◌, Bool, if◌then◌else◌, List, [], ◌∷◌, ◌++◌, length, ltb, take}

abbrev pub Text : Type 0
Text = List ℕ

-- The text of a name: its bytes, if it is ASCII.
abbrev pub codes : String → Text
codes String.[] = []
codes (String.◌∷◌ c s) = code c ∷ codes s

-- The quotation mark.
abbrev pub quote_mark : ℕ
quote_mark = 34

-- The loop of `quote`.
abbrev pub double_quotes : Text → Text
double_quotes [] = []
double_quotes (c ∷ cs) =
    if c == quote_mark then quote_mark ∷ quote_mark ∷ double_quotes cs else c ∷ double_quotes cs

abbrev pub quote : Text → Text
quote str = quote_mark ∷ double_quotes str ++ quote_mark ∷ []

-- The loop of `strings_join`.
abbrev pub joined : Text → Bool → List Text → Text
joined delim quoted [] = []
joined delim quoted (s ∷ strings) =
    (if quoted then quote s else s) ++ delim ++ joined delim quoted strings

-- The text without the last delimiter, or nothing when no more than a delimiter was written.
unfoldable pub strings_join : List Text → Text → Bool → Text
strings_join strings delim quoted =
    let output = joined delim quoted strings in
    if ltb (length delim) (length output) then take (length output - length delim) output else []
