-- ===== src/Analyzer.antt =====
-- src/model/analyzer.h and src/model/analyzer.cpp: the search for anomalies in a list of rules. The
-- diagrams of the rules are kept in a cache by rule id.
pub mod Search
pub mod Explains
pub mod Verdict
pub mod Run
pub mod Removal
pub mod Symmetry
mod Tests
use rules_analyzer.Base.{
  ℕ, ◌+◌, ◌==◌, Bool, true, false, not, ◌&&◌, ◌||◌, if◌then◌else◌, List, [], ◌∷◌, ◌++◌, Option,
  none, some, length, ltb, Outcome, ok, err, ◌>>=◌,
}
use rules_analyzer.Bdd.{Buddy}
use rules_analyzer.Mnode.{is_subset, is_none, is_any, is_disjoint, overlaps, equals, negate_if}
use rules_analyzer.Group as Groups
use rules_analyzer.Address.{IpAddressModel, AddressGroup, address_node}
use rules_analyzer.Service.{service_node}
use rules_analyzer.Predicate.{any_predicate}
use rules_analyzer.Predicate as Predicates
use rules_analyzer.Rule.{Rule, RuleAction, allow, deny, opposite, action_eq, rule_bdd, is_deny_all}
use rules_analyzer.RuleList.{RuleList, filter_rules, filter_before, is_last}
use rules_analyzer.State.{State, initial, update, processed}
use rules_analyzer.Anomaly.{
  RuleAnomalyDetails, shadowed, full_redundant, partial_redundant, correlated,
  redundant_or_correlated, generalized, RuleAnomaly, RuleAnomalies,
}

-- `interrupt_error`, `std::out_of_range` of a cache lookup, and `std::invalid_argument` of an address.
pub data Error : Type 0 where
  interrupt_error out_of_range invalid_argument : Error

abbrev pub Result {ℓ} : Type ℓ → Type ℓ
Result A = Outcome Error A

-- `at`, of a map.
abbrev pub found {ℓ} : {A : Type ℓ} → Option A → Result A
found none = err out_of_range
found (some a) = ok a

module _ (L : Buddy) where
  open L use {Bdd}

  -- Bddcache, an unordered map from rule ids.
  abbrev pub Bddcache : Type 0
  Bddcache = List (ℕ × Bdd)

  unfoldable pub lookup : ℕ → Bddcache → Option Bdd
  lookup id [] = none
  lookup id ((k, b) ∷ cache) = if k == id then some b else lookup id cache

  -- `cache[id] = b`.
  unfoldable pub insert : ℕ → Bdd → Bddcache → Bddcache
  insert id b [] = (id, b) ∷ []
  insert id b ((k, c) ∷ cache) = if k == id then (id, b) ∷ cache else (k, c) ∷ insert id b cache

  -- The select functions of the three searches: `other.action() == action && ...`.
  abbrev pub when : Bool → Option Bdd → (Bdd → Bool) → Option Bool
  when false b test = some false
  when true none test = none
  when true (some b) test = some (test b)

  unfoldable pub find_other_is_subset :
      RuleList → Rule → Bdd → RuleAction → Bddcache → Option RuleList
  find_other_is_subset acl rule predicate_bdd action cache =
      filter_before rule.address
        (λ other.
          when (action_eq other.action action) (lookup other.id cache)
            (λ b. is_subset L b predicate_bdd))
        acl

  unfoldable pub find_overlaping : RuleList → Rule → Bdd → RuleAction → Bddcache → Option RuleList
  find_overlaping acl rule predicate_bdd action cache =
      filter_before rule.address
        (λ other.
          when (action_eq other.action action) (lookup other.id cache)
            (λ b. overlaps L predicate_bdd b))
        acl

  -- Each function takes the cached diagram of its rule, which the source looks up first.
  unfoldable pub analyze_fully_masked_rule :
      RuleList → Rule → Bdd → State L → Bddcache → Result RuleAnomalyDetails
  analyze_fully_masked_rule acl rule predicate_bdd state cache =
      if is_subset L predicate_bdd (processed L state (opposite rule.action))
      then (do
        rs ← found (find_overlaping acl rule predicate_bdd (opposite rule.action) cache)
        ok (shadowed rs))
      else if is_disjoint L predicate_bdd (processed L state (opposite rule.action))
      then (do
        rs ← found (find_overlaping acl rule predicate_bdd rule.action cache)
        ok (full_redundant rs))
      else (do
        cs ← found (find_overlaping acl rule predicate_bdd (opposite rule.action) cache)
        rs ← found (find_overlaping acl rule predicate_bdd rule.action cache)
        ok (redundant_or_correlated rs cs))

  -- The search for correlated rules, then the one for redundant rules before it, as the source
  -- falls from one to the next.
  unfoldable pub look_for_correlation :
      RuleList → Rule → Bdd → State L → Bddcache → Result (Option RuleAnomalyDetails)
  look_for_correlation acl rule predicate_bdd state cache =
      if overlaps L predicate_bdd (processed L state (opposite rule.action))
      then (do
        rs ← found (find_overlaping acl rule predicate_bdd (opposite rule.action) cache)
        ok (if ltb 0 (length rs) then some (correlated rs) else none))
      else ok none

  unfoldable pub look_for_redundancy :
      RuleList → Rule → Bdd → State L → Bddcache → Result (Option RuleAnomalyDetails)
  unfolding look_for_correlation
  look_for_redundancy acl rule predicate_bdd state cache =
      if overlaps L predicate_bdd (processed L state rule.action)
      then (do
        rs ← found (find_other_is_subset acl rule predicate_bdd rule.action cache)
        if ltb 0 (length rs)
            then ok (some (partial_redundant rs))
            else look_for_correlation acl rule predicate_bdd state cache)
      else look_for_correlation acl rule predicate_bdd state cache

  unfoldable pub analyze_partially_masked_rule :
      RuleList → Rule → Bdd → State L → Bddcache → Result (Option RuleAnomalyDetails)
  unfolding look_for_redundancy
  analyze_partially_masked_rule acl rule predicate_bdd state cache = do
    rs ← found (find_other_is_subset acl rule predicate_bdd (opposite rule.action) cache)
    if ltb 0 (length rs)
        then ok (some (generalized rs))
        else look_for_redundancy acl rule predicate_bdd state cache

  abbrev pub classify :
      RuleList → Rule → Bdd → State L → Bddcache → Result (Option RuleAnomalyDetails)
  classify acl rule predicate_bdd state cache =
      if is_subset L predicate_bdd state.remaining
      then ok none
      else if is_none L state.remaining || is_disjoint L predicate_bdd state.remaining
      then (do d ← analyze_fully_masked_rule acl rule predicate_bdd state cache; ok (some d))
      else analyze_partially_masked_rule acl rule predicate_bdd state cache

  unfoldable pub check_rule :
      RuleList → Rule → State L → Bddcache → Result (Option RuleAnomalyDetails)
  check_rule acl rule state cache = do
    predicate_bdd ← found (lookup rule.id cache)
    classify acl rule predicate_bdd state cache

  -- One round of `check_anomaly`: the diagram goes to the cache, the rule is checked unless it is a
  -- last rule that denies all, and the state is updated from the cache.
  abbrev keep : Rule → Option RuleAnomalyDetails → List RuleAnomaly → List RuleAnomaly
  keep rule none anomalies = anomalies
  keep rule (some d) anomalies = anomalies ++ record { rule = rule; details = d } ∷ []

  abbrev pub check_unless_last :
      RuleList → Rule → State L → Bddcache → Result (Option RuleAnomalyDetails)
  check_unless_last acl rule state cache =
      if not (is_deny_all L rule && is_last rule.address acl)
      then check_rule acl rule state cache
      else ok none

  -- The answers of the interrupt callback are a sequence, one for each round. The progress bar is
  -- left out.
  unfoldable pub check_rules :
      (ℕ → Bool)
      → RuleList
      → ℕ
      → RuleList
      → State L
      → Bddcache
      → List RuleAnomaly
      → Result (List RuleAnomaly × State L)
  check_rules interrupts acl k [] state cache anomalies = ok (anomalies, state)
  check_rules interrupts acl k (rule ∷ rules) state cache anomalies =
      if interrupts k then err interrupt_error else (do
        let cache' = insert rule.id (rule_bdd L rule) cache
        anomaly ← check_unless_last acl rule state cache'
        b ← found (lookup rule.id cache')
        check_rules interrupts acl (k + 1) rules (update L state rule.action b) cache'
            (keep rule anomaly anomalies))

  -- The state begins with the packets of the `any` predicate, built at fresh addresses.
  unfoldable pub check_anomaly : IpAddressModel → ℕ → (ℕ → Bool) → RuleList → Result RuleAnomalies
  unfolding check_rules
  check_anomaly ip_model fresh interrupts acl = do
    (anomalies, state) ←
        check_rules interrupts acl 0 acl
          (initial L (Predicates.make_bdd L (any_predicate ip_model fresh))) [] []
    ok (record { anomalies = anomalies; missing_deny_all = not (is_none L state.remaining) })

  unfoldable pub check_any : AddressGroup → RuleList → RuleList
  check_any any_addresses = filter_rules λ rule.
      action_eq rule.action allow
      && is_subset L (Groups.make_bdd (address_node L) any_addresses) (
          negate_if L (Groups.make_bdd (address_node L) rule.predicate.dst_addresses)
            rule.predicate.negate_dst_addresses)
      && is_any L (Groups.make_bdd (service_node L) rule.predicate.services)

  -- The loop appends the rules that deny and equal the `any` predicate.
  unfoldable pub check_deny : IpAddressModel → ℕ → RuleList → RuleList
  check_deny ip_model fresh = filter_rules λ rule.
      action_eq rule.action deny
      && equals L (rule_bdd L rule) (Predicates.make_bdd L (any_predicate ip_model fresh))
