-- ===== src/Match/Wildcards.antt =====
-- What a pattern means, apart from the code, and what the last * of a pattern makes superfluous.
use rules_analyzer.Base.{
  ℕ, ◌==◌, ◌≡◌, refl, sym, ◌∙◌, Bool, true, false, not, ◌&&◌, ◌||◌, if◌then◌else◌, [], ◌∷◌, ◌++◌,
  all, arith, Bool-cases, inl, inr, length,
}
use rules_analyzer.Strutil.{Text}
use rules_analyzer.Match.{asterisk, char_match, is_end, skip_asterisks}

-- Some rest of a text, itself included, and some rest of it but itself.
abbrev pub any_rest : (Text → Bool) → Text → Bool
any_rest f [] = f []
any_rest f (c ∷ t) = f (c ∷ t) || any_rest f t

abbrev pub later_rest : (Text → Bool) → Text → Bool
later_rest f [] = false
later_rest f (c ∷ t) = any_rest f t

abbrev pub one_char : ℕ → (Text → Bool) → Text → Bool
one_char q f [] = false
one_char q f (c ∷ t) = char_match q c && f t

-- A text matches: * stands for any run of characters, ? for one, and a letter for itself in
-- either case.
abbrev pub matches : Text → Text → Bool
matches [] t = is_end t
matches (q ∷ p) t = if q == asterisk then any_rest (matches p) t else one_char q (matches p) t

abbrev pub is_plain : Text → Bool
is_plain = all (λ c. not (c == asterisk))

later_any : (f : Text → Bool) (t : Text) → later_rest f t ≡ true → any_rest f t ≡ true
later_any f [] h = cc
later_any f (c ∷ t) h = ground arith

any_any : (f : Text → Bool) (t : Text) → any_rest (any_rest f) t ≡ true → any_rest f t ≡ true
any_any f [] h = h
any_any f (c ∷ t) h = ground (arith, any_any f t)

here_any : (f : Text → Bool) (t : Text) → f t ≡ true → any_rest f t ≡ true
here_any f [] h = h
here_any f (c ∷ t) h = ground arith

-- One character less to match leaves one rest less.
one_later :
    (q : ℕ) (f : Text → Bool) (t : Text) → any_rest (one_char q f) t ≡ true → later_rest f t ≡ true
one_later q f [] h = cc
one_later q f (c ∷ t) h = elim (Bool-cases (char_match q c && f t)) [
  | inl here ↦ here_any f t (ground arith)
  | inr gone ↦ later_any f t (one_later q f t (ground arith))
]

letter_any :
    (q : ℕ) (p t : Text)
    → (q == asterisk) ≡ false
    → any_rest (matches (q ∷ p)) t ≡ any_rest (one_char q (matches p)) t
letter_any q p [] e = rw e refl
letter_any q p (c ∷ t) e = rw (e, letter_any q p t e) refl

-- A plain piece of the pattern takes as many characters as it has.
pub later-shift :
    (u v p t : Text)
    → length u ≡ length v
    → is_plain u ≡ true
    → later_rest (matches (u ++ p)) (v ++ t) ≡ true
    → later_rest (matches p) t ≡ true
later-shift [] [] p t e h k = k
later-shift [] (d ∷ v) p t e h k = absurd (omega arith)
later-shift (q ∷ u) [] p t e h k = absurd (omega arith)
later-shift (q ∷ u) (d ∷ v) p t e h k =
    let plain : (q == asterisk) ≡ false = ground arith in
    later-shift u v p t (omega arith) (ground arith)
      (one_later q (matches (u ++ p)) (v ++ t) (sym (letter_any q (u ++ p) (v ++ t) plain) ∙ k))

pub matches_end : (p : Text) → matches p [] ≡ skip_asterisks p
matches_end [] = refl
matches_end (q ∷ p) = ground (arith, matches_end p)

-- A rest that the * of an earlier place reaches, the * of a later place reaches too.
pub asterisk_reaches :
    (p t : Text) → later_rest (matches (asterisk ∷ p)) t ≡ true → any_rest (matches p) t ≡ true
asterisk_reaches p [] h = cc
asterisk_reaches p (d ∷ t) h = later_any (matches p) (d ∷ t) (any_any (matches p) t h)
