-- ===== src/Match/Loop.antt =====
-- The loop of `match` against the meaning of a pattern, and its fuel.
use mathlib.Core.Bool.{true≢false}
use rules_analyzer.Base.{
  ℕ, zero, suc, ◌+◌, ◌*◌, ◌≤◌, ◌<◌, ◌==◌, ◌≡◌, refl, sym, ap, ◌∙◌, Bool, true, false, ◌||◌, [], ◌∷◌,
  arith, Bool-cases, inl, inr, length, length-append, Option, none, some,
}
use rules_analyzer.Strutil.{Text}
use rules_analyzer.Match.{
  asterisk, char_match, Mark, Round, next, mismatch, backtrack, match_loop, match,
}
use rules_analyzer.Match.Wildcards.{any_rest, later_rest, matches, is_plain, matches_end}
use rules_analyzer.Match.Place.{
  later, IsPlaced, IsBounded, placed_later, advance, letter_first, round_hit, round_star,
  round_back, matches_letter, matches_star, promise_kept,
}

abbrev Claim : ℕ → Type 0
Claim fuel =
    (k m : ℕ) (p t : Text) (mark : Mark)
    → is_plain t ≡ true
    → length t ≤ k
    → length p ≤ m
    → IsBounded m k mark
    → IsPlaced p t mark
    → k * (m + 1) + length p < fuel
    → match_loop fuel p t mark ≡ some (matches p t || later mark)

here_or_later : (f : Text → Bool) (t : Text) → (f t || later_rest f t) ≡ any_rest f t
here_or_later f [] = ground arith
here_or_later f (c ∷ t) = refl

-- A round that goes back to the mark, or gives up.
abbrev after_round : ℕ → Round → Option Bool
after_round fuel mismatch = some false
after_round fuel (next p t m) = match_loop fuel p t m

mul_step : (k m : ℕ) → suc k * (m + 1) ≡ k * (m + 1) + (m + 1)
mul_step k m = omega arith

go_back :
    (fuel k m c : ℕ) (p t : Text) (mark : Mark)
    → Claim fuel
    → length t < k
    → IsBounded m k mark
    → IsPlaced p (c ∷ t) mark
    → k * (m + 1) ≤ fuel
    → after_round fuel (backtrack mark) ≡ some (later mark)
go_back fuel k m c p t none ih h b w g = refl
go_back fuel k m c p t (some (behind, [])) ih h b (u, v, e, f, w, x) g =
    absurd (omega (arith, ap length f, length-append v (c ∷ t)))
go_back fuel zero m c p t (some (behind, d ∷ at)) ih h b w g = absurd (omega arith)
go_back fuel (suc k) m c p t (some (behind, d ∷ at)) ih h (b, short, plain) w g =
    ih k m behind at (some (behind, at)) (ground arith) (omega arith) b
      (b, omega arith, ground arith) ([], [], refl, refl, refl, refl) (omega (arith, mul_step k m))
    ∙ ap some (here_or_later (matches behind) at)

absorb : (x l : Bool) → (l ≡ true → x ≡ true) → x ≡ (x || l)
absorb x true h = ground (arith, h refl)
absorb x false h = ground arith

no_promise : (x : Bool) → (x || false) ≡ x
no_promise x = ground arith

-- Enough fuel makes the loop answer, and the answer is what the place and the mark promise.
loop_lem : (fuel : ℕ) → Claim fuel
unfolding match_loop
loop_lem zero k m p t mark plain h i b w g = absurd (omega arith)
loop_lem (suc fuel) k m p [] mark plain h i b w g = elim (Bool-cases (later mark)) [
  | inl promised ↦ absurd (true≢false (sym (placed_later p [] mark w promised)))
  | inr done ↦ rw (done, matches_end p) (ground arith)
]
loop_lem (suc fuel) k m [] (c ∷ t) mark plain h i b w g =
    go_back fuel k m c [] t mark (loop_lem fuel) (omega arith) b w (omega arith)
loop_lem (suc fuel) k m (q ∷ p) (c ∷ t) mark plain h i b w g = elim (Bool-cases (char_match q c)) [
  | inl hit ↦
      let letter : (q == asterisk) ≡ false = letter_first q c (ground arith) hit in
      ap (after_round fuel) (round_hit q c p t mark hit)
      ∙ loop_lem fuel k m p t mark (ground arith) (omega arith) (omega arith) b
          (advance q c p t mark letter w) (omega arith)
      ∙ ap (λ x. some (x || later mark)) (sym (matches_letter q c p t true hit letter))
  | inr miss ↦ elim (Bool-cases (q == asterisk)) [
    | inl star ↦
        ap (after_round fuel) (round_star q c p t mark miss star)
        ∙ loop_lem fuel k m p (c ∷ t) (some (p, c ∷ t)) plain h (omega arith)
            (omega arith, h, plain) ([], [], refl, refl, refl, refl) (omega arith)
        ∙ ap some
            (absorb (any_rest (matches p) (c ∷ t)) (later mark) (promise_kept q c p t mark star w))
        ∙ ap (λ x. some (x || later mark)) (sym (matches_star q c p t star))
    | inr letter ↦
        ap (after_round fuel) (round_back q c p t mark miss letter)
        ∙ go_back fuel k m c (q ∷ p) t mark (loop_lem fuel) (omega arith) b w (omega arith)
        ∙ ap (λ x. some (x || later mark)) (sym (matches_letter q c p t false miss letter))
  ]
]

-- On a text without *, `match` answers, and says whether the text matches the pattern.
pub match-matches :
    (pattern text : Text) → is_plain text ≡ true → match pattern text ≡ some (matches pattern text)
unfolding match
match-matches pattern text plain =
    loop_lem _ (length text) (length pattern) pattern text none plain (omega arith) (omega arith) tt
      tt (omega arith)
    ∙ ap some (no_promise (matches pattern text))
