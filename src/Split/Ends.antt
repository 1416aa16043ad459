-- ===== src/Split/Ends.antt =====
-- One round of split (src/tools/strutil.cpp), and its fuel.
use rules_analyzer.Base.{
  ℕ, zero, suc, ◌+◌, ◌≤◌, ◌<◌, ◌==◌, ◌≡◌, refl, ap, ◌∙◌, false, List, [], ◌∷◌, arith, Bool-cases,
  inl, inr, length, Option, some,
}
use rules_analyzer.Strutil.{Text}
use rules_analyzer.Split.{skip, part, after, push_part, add_part, split_from, split}

module _ (delim : ℕ) where
  -- One round, behind the delimiters.
  abbrev pub after_skip : ℕ → Text → Option (List Text)
  after_skip fuel [] = some []
  after_skip fuel (c ∷ cs) =
      add_part (part delim (c ∷ cs)) (split_from fuel delim (after delim (c ∷ cs)))

  pub split_round :
      (fuel : ℕ) (end : Text) → split_from (suc fuel) delim end ≡ after_skip fuel (skip delim end)
  unfolding split_from
  split_round fuel end = refl

  skip_head : (end : Text) (c : ℕ) (cs : Text) → skip delim end ≡ c ∷ cs → (c == delim) ≡ false
  skip_head [] c cs e = cc
  skip_head (d ∷ end) c cs e = elim (Bool-cases (d == delim)) [
    | inl here ↦ skip_head end c cs (rw here at e)
    | inr other ↦
        let same : d ∷ end ≡ c ∷ cs = rw other at e in let head : d ≡ c = cc in rw (← head) other
  ]

  after_shorter : (s : Text) → length (after delim s) ≤ length s
  after_shorter [] = omega arith
  after_shorter (c ∷ s) = ground (arith, after_shorter s)

  skip_shorter : (s : Text) → length (skip delim s) ≤ length s
  skip_shorter [] = omega arith
  skip_shorter (c ∷ s) = ground (arith, skip_shorter s)

  round_ends :
      (fuel : ℕ) (end rest : Text)
      → ((s : Text)
          → length s < fuel
          → (parts : List Text) × (split_from fuel delim s ≡ some parts))
      → length end < suc fuel
      → skip delim end ≡ rest
      → (parts : List Text) × (split_from (suc fuel) delim end ≡ some parts)
  round_ends fuel end [] ih h e = ([], split_round fuel end ∙ ap (after_skip fuel) e)
  round_ends fuel end (c ∷ cs) ih h e =
      let other : (c == delim) ≡ false = skip_head end c cs e in
      let short : length (c ∷ cs) ≤ length end = omega (arith, skip_shorter end, ap length e) in
      let drop : after delim (c ∷ cs) ≡ after delim cs = rw other refl in
      let (parts, q) =
        ih (after delim (c ∷ cs)) (omega (arith, after_shorter cs, ap length drop)) in
      (
        push_part (part delim (c ∷ cs)) parts,
        split_round fuel end ∙ ap (after_skip fuel) e ∙ ap (add_part (part delim (c ∷ cs))) q,
      )

  split_ends :
      (fuel : ℕ) (end : Text)
      → length end < fuel
      → (parts : List Text) × (split_from fuel delim end ≡ some parts)
  split_ends zero end h = absurd (omega arith)
  split_ends (suc fuel) end h = round_ends fuel end (skip delim end) (split_ends fuel) h refl

  -- Of any text, `split` ends within its fuel.
  pub split_ends_always : (str : Text) → (parts : List Text) × (split str delim ≡ some parts)
  unfolding split
  split_ends_always str = split_ends (length str + 1) str (omega arith)
