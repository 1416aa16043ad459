-- ===== src/Split.antt =====
-- src/tools/strutil.cpp: split and trim. A position in a string is the rest of the string from there.
pub mod Ends
pub mod Joined
pub mod Numbers
mod Tests
use rules_analyzer.Base.{
  ℕ, zero, suc, ◌+◌, ◌==◌, Bool, true, false, ◌||◌, if◌then◌else◌, List, [], ◌∷◌, ◌++◌, length,
  Option, none, some,
}
use rules_analyzer.Strutil.{Text}

-- A space or a tabulator.
abbrev pub is_blank : ℕ → Bool
is_blank c = c == 32 || c == 9

-- The text up to its last character that is not blank.
abbrev pub keep : ℕ → Text → Text
keep c [] = if is_blank c then [] else c ∷ []
keep c (d ∷ rest) = c ∷ d ∷ rest

abbrev pub trimright : Text → Text
trimright [] = []
trimright (c ∷ cs) = keep c (trimright cs)

-- The text from its first character that is not blank. The source throws when there is none, which
-- `trim` excludes by `trimright`.
abbrev pub trimleft : Text → Text
trimleft [] = []
trimleft (c ∷ cs) = if is_blank c then trimleft cs else c ∷ cs

abbrev pub trim : Text → Text
trim str = trimleft (trimright str)

-- `find_first_not_of(delim, end)`, with no rest for npos.
abbrev pub skip : ℕ → Text → Text
skip delim [] = []
skip delim (c ∷ cs) = if c == delim then skip delim cs else c ∷ cs

-- `find(delim, start)`: the part in front of it, and the rest from there.
abbrev pub part : ℕ → Text → Text
part delim [] = []
part delim (c ∷ cs) = if c == delim then [] else c ∷ part delim cs

abbrev pub after : ℕ → Text → Text
after delim [] = []
after delim (c ∷ cs) = if c == delim then c ∷ cs else after delim cs

-- A part that is all blank is left out, and the others are kept as they are.
abbrev pub push_unless : Text → Text → List Text → List Text
push_unless value [] parts = parts
push_unless value (c ∷ trimmed) parts = value ∷ parts

abbrev pub push_part : Text → List Text → List Text
push_part value parts = push_unless value (trim value) parts

-- The loop, from the position `end`, with `none` when the fuel is used up.
abbrev pub add_part : Text → Option (List Text) → Option (List Text)
add_part value none = none
add_part value (some parts) = some (push_part value parts)

unfoldable pub split_from : ℕ → ℕ → Text → Option (List Text)
split_from zero delim end = none
split_from (suc fuel) delim end = elim (skip delim end) [
  | [] ↦ some []
  | (c ∷ cs) ↦ add_part (part delim (c ∷ cs)) (split_from fuel delim (after delim (c ∷ cs)))
]

unfoldable pub split : Text → ℕ → Option (List Text)
unfolding split_from
split str delim = split_from (length str + 1) delim str
