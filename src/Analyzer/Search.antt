-- ===== src/Analyzer/Search.antt =====
-- The cache and the searches of src/model/analyzer.cpp among the rules in front of a rule.
use rules_analyzer.Base.{
  ℕ, ◌==◌, ◌≡◌, refl, Bool, false, ◌&&◌, if◌then◌else◌, [], ◌∷◌, ◌++◌, any, filter, Option, some,
  arith,
}
use rules_analyzer.Bdd.{Buddy}
use rules_analyzer.Mnode.{is_subset, overlaps}
use rules_analyzer.Rule.{Rule, RuleAction, action_eq, rule_bdd}
use rules_analyzer.RuleList.{RuleList, filter_before}
use rules_analyzer.Analyzer.{Bddcache, lookup, insert, when, find_overlaping, find_other_is_subset}

abbrev pub Has_address : ℕ → RuleList → Bool
Has_address a = any (λ s. s.address == a)

abbrev AllSome : (Rule → Option Bool) → (Rule → Bool) → RuleList → Type 0
AllSome f q [] = Unit
AllSome f q (r ∷ rs) = (f r ≡ some (q r)) × AllSome f q rs

-- Where no predicate throws, `filter_before` keeps the selected rules in front of the sentinel.
filter_before_split :
    (f : Rule → Option Bool) (q : Rule → Bool) (before after : RuleList) (r : Rule)
    → Has_address r.address before ≡ false
    → AllSome f q before
    → filter_before r.address f (before ++ r ∷ after) ≡ some (filter q before)
unfolding filter_before
filter_before_split f q [] after r h k = ground arith
filter_before_split f q (s ∷ before) after r h k =
    ground (arith, filter_before_split f q before after r)

module _ (L : Buddy) where
  open L use {Bdd}

  pub lookup-insert :
      (i j : ℕ) (b : Bdd) (cache : Bddcache L)
      → lookup L j (insert L i b cache) ≡ (if i == j then some b else lookup L j cache)
  unfolding lookup insert
  lookup-insert i j b [] = refl
  lookup-insert i j b ((k, c) ∷ cache) = ground (arith, lookup-insert i j b cache)

  -- The cache has the diagram of each rule of the list.
  abbrev pub Cached : Bddcache L → RuleList → Type 0
  Cached cache [] = Unit
  Cached cache (r ∷ rs) = (lookup L r.id cache ≡ some (rule_bdd L r)) × Cached cache rs

  -- The rules of a list with an action that share a packet with the diagram, and those inside it.
  abbrev pub overlapping : Bdd → RuleAction → RuleList → RuleList
  overlapping b action = filter λ o. action_eq o.action action && overlaps L b (rule_bdd L o)

  abbrev pub inside : Bdd → RuleAction → RuleList → RuleList
  inside b action = filter λ o. action_eq o.action action && is_subset L (rule_bdd L o) b

  all_some :
      (test : Bdd → Bool) (action : RuleAction) (cache : Bddcache L) (rs : RuleList)
      → Cached cache rs
      → AllSome
          (λ o. when L (action_eq o.action action) (lookup L o.id cache) test)
          (λ o. action_eq o.action action && test (rule_bdd L o))
          rs
  all_some test action cache [] h = tt
  all_some test action cache (r ∷ rs) h = (ground (arith, h.0), all_some test action cache rs h.1)

  module _ (before after : RuleList) (r : Rule) (b : Bdd) (action : RuleAction) (cache : Bddcache L)
      (fresh : Has_address r.address before ≡ false) (cached : Cached cache before) where
    pub find_overlaping_lem :
        find_overlaping L (before ++ r ∷ after) r b action cache
        ≡ some (overlapping b action before)
    unfolding find_overlaping
    find_overlaping_lem =
        filter_before_split _ _ before after r fresh
          (all_some (overlaps L b) action cache before cached)

    pub find_other_is_subset_lem :
        find_other_is_subset L (before ++ r ∷ after) r b action cache
        ≡ some (inside b action before)
    unfolding find_other_is_subset
    find_other_is_subset_lem =
        filter_before_split _ _ before after r fresh
          (all_some (λ c. is_subset L c b) action cache before cached)
