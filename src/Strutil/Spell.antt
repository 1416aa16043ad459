-- ===== src/Strutil/Spell.antt =====
-- The name that a text spells, which is the inverse of codes.
use Prim.Native.Char.{Char, char, nul}
use Prim.Native.Nat.{Ordering, compare}
use Prim.Native.String.{String}
use rules_analyzer.Base.{ℕ, ◌≡◌, refl, [], ◌∷◌}
use rules_analyzer.Strutil.{Text, codes}

abbrev low_char : (n : ℕ) (o : Ordering) → compare n 55296 ≡ o → Char
low_char n Ordering.lt e = char n (rw e tt)
low_char n Ordering.eq e = nul
low_char n Ordering.gt e = nul

abbrev pub spell : Text → String
spell [] = String.[]
spell (n ∷ ns) = String.◌∷◌ (low_char n (compare n 55296) refl) (spell ns)

spell_runs : spell (codes "web[1]") ≡ "web[1]"
spell_runs = refl
