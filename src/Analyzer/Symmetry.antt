-- ===== src/Analyzer/Symmetry.antt =====
-- `check_symmetry` (src/model/analyzer.cpp): the pairs of rules of which one is the other with its
-- sides swapped. The diagrams of the swapped predicates are kept in a cache by rule id.
pub mod Pairs
pub mod Turned
mod Tests
use rules_analyzer.Base.{
  ℕ, ◌+◌, Bool, ◌&&◌, if◌then◌else◌, List, [], ◌∷◌, ◌++◌, Option, none, some, ok, err, ◌>>=◌,
}
use rules_analyzer.Bdd.{Buddy}
use rules_analyzer.Mnode.{equals}
use rules_analyzer.Predicate as Predicates
use rules_analyzer.Predicate.{Predicate}
use rules_analyzer.Predicate.Symmetrical.{symmetrical}
use rules_analyzer.Rule.{Rule, action_eq, rule_bdd}
use rules_analyzer.RuleList.{RuleList}
use rules_analyzer.Analyzer.{Result, interrupt_error, invalid_argument, Bddcache, lookup, insert}

abbrev pub RulePair : Type 0
RulePair = Rule × Rule

-- The locals of the loops: how often the callback was asked, the cache, and the pairs.
pub record Search (L : Buddy) : Type 0 where
  pub rounds : ℕ
  pub cache : Bddcache L
  pub pairs : List RulePair

module _ (L : Buddy) (places fresh : ℕ) where
  -- The diagram of the predicate the other way. The object is destroyed after each use, so the
  -- next one can stand at the same addresses.
  abbrev pub diagram : Option Predicate → Result L.Bdd
  diagram none = err invalid_argument
  diagram (some q) = ok (Predicates.make_bdd L q)

  unfoldable pub symmetrical_bdd : Rule → Result L.Bdd
  symmetrical_bdd other = diagram (symmetrical L places fresh other.predicate)

  -- From the cache, or made and put there.
  abbrev recall : Rule → Bddcache L → Option L.Bdd → Result (L.Bdd × Bddcache L)
  recall other cache (some b) = ok (b, cache)
  recall other cache none = symmetrical_bdd other >>= λ b. ok (b, insert L other.id b cache)

  unfoldable pub cached_symmetrical : Rule → Bddcache L → Result (L.Bdd × Bddcache L)
  unfolding symmetrical_bdd
  cached_symmetrical other cache = recall other cache (lookup L other.id cache)

  abbrev pub are_symmetrical : Rule → Rule → L.Bdd → Bool
  are_symmetrical rule other b = action_eq rule.action other.action && equals L (rule_bdd L rule) b

  -- The body of the inner loop.
  abbrev compare_pair : (ℕ → Bool) → Rule → Rule → Search L → L.Bdd × Bddcache L → Result (Search L)
  compare_pair interrupts rule other s (b, cache) =
      if interrupts s.rounds
      then err interrupt_error
      else ok (record {
        rounds = s.rounds + 1;
        cache = cache;
        pairs = if are_symmetrical rule other b then s.pairs ++ (rule, other) ∷ [] else s.pairs;
      })

  unfoldable pub check_others : (ℕ → Bool) → Rule → RuleList → Search L → Result (Search L)
  unfolding cached_symmetrical
  check_others interrupts rule [] s = ok s
  check_others interrupts rule (other ∷ others) s =
      cached_symmetrical other s.cache
      >>= compare_pair interrupts rule other s
      >>= check_others interrupts rule others

  -- The outer loop: each rule against those behind it.
  unfoldable pub check_pairs : (ℕ → Bool) → RuleList → Search L → Result (Search L)
  unfolding check_others
  check_pairs interrupts [] s = ok s
  check_pairs interrupts (rule ∷ acl) s =
      check_others interrupts rule acl s >>= check_pairs interrupts acl

  unfoldable pub check_symmetry : (ℕ → Bool) → RuleList → Result (List RulePair)
  unfolding check_pairs
  check_symmetry interrupts acl =
      check_pairs interrupts acl (record { rounds = 0; cache = []; pairs = [] }) >>= λ s. ok s.pairs
