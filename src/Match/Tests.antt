-- ===== src/Match/Tests.antt =====
-- Patterns and texts.
use rules_analyzer.Base.{◌≡◌, refl, true, false, [], ◌∷◌, some}
use rules_analyzer.Match.{match, match_loop}
use rules_analyzer.Match.Wildcards.{matches}
use rules_analyzer.Match.Loop.{match-matches}

-- "*b?" with "aBab1".
goes_back : match (42 ∷ 98 ∷ 63 ∷ []) (97 ∷ 66 ∷ 97 ∷ 98 ∷ 49 ∷ []) ≡ some true
unfolding match match_loop
goes_back = refl

-- In a text, * is taken for a letter before it is taken for a wildcard: "*" does not match "*a".
asterisk_in_text : match (42 ∷ []) (42 ∷ 97 ∷ []) ≡ some false
unfolding match match_loop
asterisk_in_text = refl

match-matches_example :
    match (42 ∷ 98 ∷ 63 ∷ []) (97 ∷ 66 ∷ 97 ∷ 98 ∷ 49 ∷ [])
    ≡ some (matches (42 ∷ 98 ∷ 63 ∷ []) (97 ∷ 66 ∷ 97 ∷ 98 ∷ 49 ∷ []))
match-matches_example = match-matches (42 ∷ 98 ∷ 63 ∷ []) (97 ∷ 66 ∷ 97 ∷ 98 ∷ 49 ∷ []) refl
