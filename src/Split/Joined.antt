-- ===== src/Split/Joined.antt =====
-- Parts that are joined by a delimiter, without quotation marks, and split again.
use mathlib.Core.Bool.{true≢false}
use mathlib.Core.List.{append-nil, append_assoc}
use rules_analyzer.Strutil.Last.{strip_last}
use rules_analyzer.Base.{
  ℕ, zero, suc, ◌+◌, ◌≤◌, ◌<◌, ◌==◌, ◌≡◌, refl, sym, ap, ◌∙◌, Bool, true, false, not, ◌&&◌, ◌||◌,
  if◌then◌else◌, List, [], ◌∷◌, ◌++◌, all, any, arith, Bool-cases, inl, inr, length, length-append,
  ◌-◌, ltb, take, some,
}
use rules_analyzer.Strutil.{Text, joined, strings_join}
use rules_analyzer.Split.{
  is_blank, keep, trimright, trimleft, skip, part, after, push_unless, push_part, split_from, split,
}
use rules_analyzer.Split.Ends.{after_skip, split_round}

-- A part without the delimiter, and with a character that is not blank.
abbrev pub is_part : ℕ → Text → Bool
is_part delim s = all (λ c. not (c == delim)) s && any (λ c. not (is_blank c)) s

part_front :
    (delim : ℕ) (s t : Text)
    → all (λ c. not (c == delim)) s ≡ true
    → (part delim (s ++ delim ∷ t) ≡ s) × (after delim (s ++ delim ∷ t) ≡ delim ∷ t)
part_front delim [] t h =
    let itself : (delim == delim) ≡ true = ground arith in (rw itself refl, rw itself refl)
part_front delim (c ∷ s) t h =
    let (x, y) = part_front delim s t (ground arith) in
    let other : (c == delim) ≡ false = ground arith in (rw (other, x) refl, rw other y)

part_last :
    (delim : ℕ) (s : Text)
    → all (λ c. not (c == delim)) s ≡ true
    → (part delim s ≡ s) × (after delim s ≡ [])
part_last delim [] h = (refl, refl)
part_last delim (c ∷ s) h =
    let (x, y) = part_last delim s (ground arith) in
    let other : (c == delim) ≡ false = ground arith in (rw (other, x) refl, rw other y)

abbrev has_ink : Text → Bool
has_ink = any (λ c. not (is_blank c))

keep_ink : (c : ℕ) (r : Text) → (not (is_blank c) || has_ink r) ≡ true → has_ink (keep c r) ≡ true
keep_ink c [] h = elim (Bool-cases (is_blank c)) [
  | inl blank ↦ absurd (true≢false (sym h ∙ rw blank refl))
  | inr ink ↦ rw ink (rw ink refl)
]
keep_ink c (d ∷ r) h = h

trimright_ink : (s : Text) → has_ink s ≡ true → has_ink (trimright s) ≡ true
trimright_ink [] h = cc
trimright_ink (c ∷ s) h = keep_ink c (trimright s) (elim (Bool-cases (is_blank c)) [
  | inl blank ↦ rw blank (trimright_ink s (rw blank at h))
  | inr ink ↦ rw ink refl
])

trimleft_some : (s : Text) → has_ink s ≡ true → (c : ℕ) × (r : Text) × (trimleft s ≡ c ∷ r)
trimleft_some [] h = cc
trimleft_some (c ∷ s) h = elim (Bool-cases (is_blank c)) [
  | inl blank ↦ let (d, r, e) = trimleft_some s (rw blank at h) in (d, r, rw blank e)
  | inr ink ↦ (c, s, rw ink refl)
]

-- A part with a character that is not blank is added as it is.
push_ink : (s : Text) (parts : List Text) → has_ink s ≡ true → push_part s parts ≡ s ∷ parts
push_ink s parts h =
    let (c, r, e) = trimleft_some (trimright s) (trimright_ink s h) in
    ap (λ trimmed. push_unless s trimmed parts) e

module _ (delim : ℕ) where
  abbrev line : Text → List Text → Text
  line s [] = s
  line s (t ∷ ts) = s ++ delim ∷ line t ts

  skip-line :
      (s : Text) (ts : List Text) → is_part delim s ≡ true → skip delim (line s ts) ≡ line s ts
  skip-line [] ts h = absurd (true≢false (sym h))
  skip-line (c ∷ s) [] h = let other : (c == delim) ≡ false = ground arith in rw other refl
  skip-line (c ∷ s) (t ∷ ts) h = let other : (c == delim) ≡ false = ground arith in rw other refl

  skip_delim : (t : Text) → skip delim (delim ∷ t) ≡ skip delim t
  skip_delim t = let itself : (delim == delim) ≡ true = ground arith in rw itself refl

  split_none : (fuel : ℕ) → 0 < fuel → split_from fuel delim [] ≡ some []
  unfolding split_from
  split_none zero h = absurd (omega arith)
  split_none (suc fuel) h = refl

  split_line :
      (fuel : ℕ) (end s : Text) (ts : List Text)
      → all (is_part delim) (s ∷ ts) ≡ true
      → skip delim end ≡ line s ts
      → length (line s ts) + 1 ≤ fuel
      → split_from fuel delim end ≡ some (s ∷ ts)
  split_line zero end s ts h e g = absurd (omega arith)
  split_line (suc fuel) end [] ts h e g = absurd (true≢false (sym h))
  split_line (suc fuel) end (c ∷ s) [] h e g =
      let (x, y) = part_last delim (c ∷ s) (ground arith) in
      split_round delim fuel end
      ∙ ap (after_skip delim fuel) e
      ∙ rw (x, y, split_none fuel (omega arith)) (ap some (push_ink (c ∷ s) [] (ground arith)))
  split_line (suc fuel) end (c ∷ s) (t ∷ ts) h e g =
      let (x, y) = part_front delim (c ∷ s) (line t ts) (ground arith) in
      let skipped : skip delim (delim ∷ line t ts) ≡ line t ts =
        skip_delim (line t ts) ∙ skip-line t ts (ground arith) in
      let rest : split_from fuel delim (delim ∷ line t ts) ≡ some (t ∷ ts) =
        split_line fuel (delim ∷ line t ts) t ts (ground arith) skipped
          (omega (arith, length-append s (delim ∷ line t ts))) in
      split_round delim fuel end
      ∙ ap (after_skip delim fuel) e
      ∙ rw (x, y, rest) (ap some (push_ink (c ∷ s) (t ∷ ts) (ground arith)))

  joined-parts :
      (s : Text) (ts : List Text) → joined (delim ∷ []) false (s ∷ ts) ≡ line s ts ++ delim ∷ []
  joined-parts s [] = append-nil (s ++ delim ∷ [])
  joined-parts s (t ∷ ts) =
      ap (λ xs. s ++ delim ∷ [] ++ xs) (joined-parts t ts)
      ∙ append_assoc s (delim ∷ []) (line t ts ++ delim ∷ [])
      ∙ sym (append_assoc s (delim ∷ line t ts) (delim ∷ []))

  length-line : (s : Text) (ts : List Text) → is_part delim s ≡ true → 0 < length (line s ts)
  length-line [] ts h = absurd (true≢false (sym h))
  length-line (c ∷ s) [] h = omega arith
  length-line (c ∷ s) (t ∷ ts) h = omega arith

  -- Parts, at least one, that are joined by a delimiter without quotation marks are split again as
  -- they were, when each has a character that is not blank and none has the delimiter.
  pub split-strings_join :
      (s : Text) (ts : List Text)
      → all (is_part delim) (s ∷ ts) ≡ true
      → split (strings_join (s ∷ ts) (delim ∷ []) false) delim ≡ some (s ∷ ts)
  unfolding split strings_join
  split-strings_join s ts h =
      let whole : strings_join (s ∷ ts) (delim ∷ []) false ≡ line s ts =
        ap (λ output. if ltb 1 (length output) then take (length output - 1) output else [])
          (joined-parts s ts)
        ∙ strip_last (line s ts) delim (length-line s ts (ground arith)) in
      ap (λ str. split_from (length str + 1) delim str) whole
      ∙ split_line (length (line s ts) + 1) (line s ts) s ts h (skip-line s ts (ground arith))
          (omega arith)

  pub split-one : (s : Text) → is_part delim s ≡ true → split s delim ≡ some (s ∷ [])
  unfolding split
  split-one s h =
      split_line (length s + 1) s s [] (ground arith) (skip-line s [] (ground arith)) (omega arith)

  pub split-two :
      (s t : Text)
      → is_part delim s ≡ true
      → is_part delim t ≡ true
      → split (s ++ delim ∷ t) delim ≡ some (s ∷ t ∷ [])
  unfolding split
  split-two s t h k =
      split_line (length (s ++ delim ∷ t) + 1) (s ++ delim ∷ t) s (t ∷ []) (ground arith)
        (skip-line s (t ∷ []) (ground arith)) (omega arith)
