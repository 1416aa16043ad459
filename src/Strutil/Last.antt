-- ===== src/Strutil/Last.antt =====
-- How strings_join (src/tools/strutil.cpp) takes the last delimiter off.
use rules_analyzer.Base.{
  ℕ, ◌-◌, ◌<◌, ◌≡◌, true, if◌then◌else◌, [], ◌∷◌, ◌++◌, arith, length, ltb, lt→ltb, take,
  take-append, length-append,
}
use rules_analyzer.Strutil.{Text}

-- The text before the last delimiter is kept.
pub strip_last :
    (xs : Text) (c : ℕ)
    → 0 < length xs
    → (if ltb 1 (length (xs ++ c ∷ []))
        then take (length (xs ++ c ∷ []) - 1) (xs ++ c ∷ [])
        else [])
      ≡ xs
strip_last xs c h =
    let long : ltb 1 (length (xs ++ c ∷ [])) ≡ true =
      lt→ltb _ _ (omega (arith, length-append xs (c ∷ []))) in
    let kept : length (xs ++ c ∷ []) - 1 ≡ length xs = omega (arith, length-append xs (c ∷ [])) in
    rw (long, kept) (take-append xs (c ∷ []))
