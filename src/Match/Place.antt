-- ===== src/Match/Place.antt =====
-- The place of the loop of `match` and its mark, and what one round makes of them.
use mathlib.Core.List.{append_assoc}
use mathlib.Core.Path.{subst}
use rules_analyzer.Base.{
  ℕ, ◌≤◌, ◌==◌, ◌≡◌, refl, sym, ◌∙◌, Bool, true, false, ◌&&◌, [], ◌∷◌, ◌++◌, arith, length,
  length-append, none, some, ==_iff,
}
use rules_analyzer.Strutil.{Text}
use rules_analyzer.Match.{asterisk, char_match, Mark, next, backtrack, round}
use rules_analyzer.Match.Wildcards.{
  any_rest, later_rest, matches, is_plain, later-shift, asterisk_reaches,
}

-- What the mark still promises.
abbrev pub later : Mark → Bool
later none = false
later (some (behind, at)) = later_rest (matches behind) at

-- Between the mark and the place of the loop stands a plain piece of the pattern, which has taken
-- one character of the text for each of its own.
abbrev pub IsPlaced : Text → Text → Mark → Type 0
IsPlaced p t none = Unit
IsPlaced p t (some (behind, at)) =
    (u : Text) × (v : Text) × (behind ≡ u ++ p)
    × (at ≡ v ++ t)
    × (length u ≡ length v)
    × (is_plain u ≡ true)

-- The sizes that the fuel counts: the pattern is at most `m` long, and what is left at the mark,
-- like the text, at most `k`.
abbrev pub IsBounded : ℕ → ℕ → Mark → Type 0
IsBounded m k none = Unit
IsBounded m k (some (behind, at)) = (length behind ≤ m) × (length at ≤ k) × (is_plain at ≡ true)

-- At a place, what the mark promises holds of the rests behind the place.
pub placed_later :
    (p t : Text) (mark : Mark)
    → IsPlaced p t mark
    → later mark ≡ true
    → later_rest (matches p) t ≡ true
placed_later p t none w h = cc
placed_later p t (some (behind, at)) (u, v, e, f, g, plain) h =
    later-shift u v p t g plain (rw (e, f) at h)

plain_snoc :
    (u : Text) (q : ℕ) → is_plain u ≡ true → (q == asterisk) ≡ false → is_plain (u ++ q ∷ []) ≡ true
plain_snoc [] q h e = ground arith
plain_snoc (d ∷ u) q h e = ground (arith, plain_snoc u q)

pub advance :
    (q c : ℕ) (p t : Text) (mark : Mark)
    → (q == asterisk) ≡ false
    → IsPlaced (q ∷ p) (c ∷ t) mark
    → IsPlaced p t mark
advance q c p t none plain w = tt
advance q c p t (some (behind, at)) plain (u, v, e, f, g, k) = (
  u ++ q ∷ [],
  v ++ c ∷ [],
  e ∙ sym (append_assoc u (q ∷ []) p),
  f ∙ sym (append_assoc v (c ∷ []) t),
  omega (arith, length-append u (q ∷ []), length-append v (c ∷ [])),
  plain_snoc u q k plain,
)

-- A plain text has no character that a pattern's * would match as a letter.
pub letter_first :
    (q c : ℕ) → (c == asterisk) ≡ false → char_match q c ≡ true → (q == asterisk) ≡ false
letter_first q c plain h = ground arith

module _ (q c : ℕ) (p t : Text) where
  pub round_hit : (mark : Mark) → char_match q c ≡ true → round (q ∷ p) c t mark ≡ next p t mark
  round_hit mark hit = rw hit refl

  pub round_star :
      (mark : Mark)
      → char_match q c ≡ false
      → (q == asterisk) ≡ true
      → round (q ∷ p) c t mark ≡ next p (c ∷ t) (some (p, c ∷ t))
  round_star mark miss star = rw (miss, star) refl

  pub round_back :
      (mark : Mark)
      → char_match q c ≡ false
      → (q == asterisk) ≡ false
      → round (q ∷ p) c t mark ≡ backtrack mark
  round_back mark miss letter = rw (miss, letter) refl

  pub matches_letter :
      (b : Bool)
      → char_match q c ≡ b
      → (q == asterisk) ≡ false
      → matches (q ∷ p) (c ∷ t) ≡ (b && matches p t)
  matches_letter b e letter = rw (letter, e) refl

  pub matches_star : (q == asterisk) ≡ true → matches (q ∷ p) (c ∷ t) ≡ any_rest (matches p) (c ∷ t)
  matches_star star = rw star refl

  -- A new mark keeps what the one before it promised.
  pub promise_kept :
      (mark : Mark)
      → (q == asterisk) ≡ true
      → IsPlaced (q ∷ p) (c ∷ t) mark
      → later mark ≡ true
      → any_rest (matches p) (c ∷ t) ≡ true
  promise_kept mark star w promised =
      let target : q ≡ asterisk = (==_iff q asterisk).0 star in
      asterisk_reaches p (c ∷ t) (
        subst (λ x. later_rest (matches (x ∷ p)) (c ∷ t) ≡ true) target
          (placed_later (q ∷ p) (c ∷ t) mark w promised))
