-- ===== src/Split/Tests.antt =====
-- "a b, ,c" split at the commas: the blank part is left out.
use rules_analyzer.Base.{◌≡◌, refl, false, [], ◌∷◌, some}
use rules_analyzer.Strutil.{strings_join}
use rules_analyzer.Split.{split, split_from}
use rules_analyzer.Split.Joined.{split-strings_join}

blank_part :
    split (97 ∷ 32 ∷ 98 ∷ 44 ∷ 32 ∷ 44 ∷ 99 ∷ []) 44 ≡ some ((97 ∷ 32 ∷ 98 ∷ []) ∷ (99 ∷ []) ∷ [])
unfolding split split_from
blank_part = refl

split-strings_join_example :
    split (strings_join ((97 ∷ 32 ∷ 98 ∷ []) ∷ (99 ∷ []) ∷ []) (44 ∷ []) false) 44
    ≡ some ((97 ∷ 32 ∷ 98 ∷ []) ∷ (99 ∷ []) ∷ [])
split-strings_join_example = split-strings_join 44 (97 ∷ 32 ∷ 98 ∷ []) ((99 ∷ []) ∷ []) refl
