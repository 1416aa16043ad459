-- ===== src/Match.antt =====
-- src/tools/match.cpp: the match of a text with a pattern that has the wildcards ? and *.
pub mod Wildcards
pub mod Place
pub mod Loop
mod Tests
use rules_analyzer.Base.{
  ℕ, zero, suc, ◌+◌, ◌*◌, ◌==◌, Bool, true, false, ◌&&◌, ◌||◌, if◌then◌else◌, List, [], ◌∷◌, leb,
  length, Option, none, some,
}
use rules_analyzer.Strutil.{Text}

abbrev pub asterisk : ℕ
asterisk = 42

abbrev pub question_mark : ℕ
question_mark = 63

-- The function of the C library, on the letters of ASCII.
abbrev pub tolower : ℕ → ℕ
tolower c = if leb 65 c && leb c 90 then c + 32 else c

-- A character of the pattern matches one of the text.
abbrev pub char_match : ℕ → ℕ → Bool
char_match q c = q == question_mark || tolower q == tolower c

-- The pattern behind the last * (startIndex + 1), and the text where it was met (match).
abbrev pub Mark : Type 0
Mark = Option (Text × Text)

-- Where a round of the loop goes on: `pattern + j`, `text + i` and the mark.
pub data Round : Type 0 where
  next : Text → Text → Mark → Round
  mismatch : Round

abbrev pub backtrack : Mark → Round
backtrack none = mismatch
backtrack (some (behind, [])) = next behind [] (some (behind, []))
backtrack (some (behind, d ∷ at)) = next behind at (some (behind, at))

abbrev pub round : Text → ℕ → Text → Mark → Round
round [] c text mark = backtrack mark
round (q ∷ pattern) c text mark =
    if char_match q c
    then next pattern text mark
    else if q == asterisk
    then next pattern (c ∷ text) (some (pattern, c ∷ text))
    else backtrack mark

abbrev pub is_end : Text → Bool
is_end [] = true
is_end (c ∷ cs) = false

-- What is left of the pattern when the text has ended.
abbrev pub skip_asterisks : Text → Bool
skip_asterisks [] = true
skip_asterisks (q ∷ pattern) = if q == asterisk then skip_asterisks pattern else false

-- The loop, with `none` when the fuel is used up.
unfoldable pub match_loop : ℕ → Text → Text → Mark → Option Bool
match_loop zero pattern text mark = none
match_loop (suc fuel) pattern [] mark = some (skip_asterisks pattern)
match_loop (suc fuel) pattern (c ∷ text) mark = elim (round pattern c text mark) [
  | mismatch ↦ some false
  | next p t m ↦ match_loop fuel p t m
]

unfoldable pub match : Text → Text → Option Bool
unfolding match_loop
match pattern text =
    match_loop (length text * (length pattern + 1) + length pattern + 1) pattern text none
