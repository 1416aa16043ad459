-- ===== src/ObjectDictionary/Tests.antt =====
-- A dictionary of two names, one of which is loaded twice.
use rules_analyzer.Base.{ℕ, ◌+◌, ◌≡◌, refl, List, [], ◌∷◌, Option, none, some, String}
use rules_analyzer.Match.{match, match_loop}
use rules_analyzer.Cache.{Cache}
use rules_analyzer.ObjectDictionary.{insert_item, del, get, add, load, query}
use rules_analyzer.ObjectDictionary.Entries.{latest, made, load-latest}

abbrev label : String × ℕ → String
label p = p.0

abbrev dictionary : Cache (String × ℕ)
dictionary = ("mail", ("mail", 3)) ∷ ("web", ("web", 2)) ∷ []

load_runs :
    load label (some ("web", 1) ∷ none ∷ some ("mail", 3) ∷ some ("web", 2) ∷ []) 0 []
    ≡ (3, dictionary)
unfolding load add insert_item
load_runs = refl

query_runs : query label "w*" dictionary ≡ ("web", 2) ∷ []
unfolding query match match_loop
query_runs = refl

del_runs : del "mail" dictionary ≡ ("web", ("web", 2)) ∷ []
unfolding del
del_runs = refl

abbrev later : List (Option (String × ℕ))
later = some ("ftp", 7) ∷ []

load-latest_example :
    ((load label later 0 dictionary).0 ≡ 0 + made later)
    × (get "ftp" (load label later 0 dictionary).1
        ≡ latest label "ftp" later (get "ftp" dictionary))
load-latest_example = load-latest label later 0 dictionary "ftp"
