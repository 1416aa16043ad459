-- ===== src/NamedList/Tests.antt =====
-- A list of numbers that are their own names.
use rules_analyzer.Base.{ℕ, ◌==◌, ◌≡◌, refl, [], ◌∷◌, ==_iff}
use rules_analyzer.NamedList.{Named, NamedMnodeList, push_back}
use rules_analyzer.NamedList.Names.{IsWellFormed}

abbrev numbers : Named ℕ
numbers = record { Name = ℕ; name = λ n. n; eq = λ a b. a == b; eq_iff = ==_iff }

abbrev two_nodes : NamedMnodeList numbers
two_nodes = record { named_node_names = 5 ∷ 3 ∷ []; named_node_list = 3 ∷ 5 ∷ [] }

known_name : push_back numbers 3 two_nodes ≡ two_nodes
unfolding push_back
known_name = refl

abbrev one_node : NamedMnodeList numbers
one_node = record { named_node_names = 3 ∷ []; named_node_list = 3 ∷ [] }

one-IsWellFormed : IsWellFormed numbers one_node
one-IsWellFormed = record { same = λ n. refl; unique = (refl, tt) }
