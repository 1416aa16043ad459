-- ===== src/Analyzer/Run.antt =====
-- The whole run of `check_anomaly`: it ends with one report for each rule that needs one, in order.
use mathlib.Core.List.{append-nil, append_assoc}
use rules_analyzer.Base.{
  ℕ, ◌+◌, ◌==◌, ◌≡◌, refl, sym, ap, ◌∙◌, ◌↔◌, Bool, true, false, not, ◌&&◌, List, [], ◌∷◌, ◌++◌,
  any, Option, none, some, arith, Bool-cases, inl, inr,
}
use rules_analyzer.Bdd.{Buddy}
use rules_analyzer.Mnode.{is_none}
use rules_analyzer.Mnode.Laws.{is_none_iff}
use rules_analyzer.Address.{IpAddressModel}
use rules_analyzer.Predicate.{any_predicate}
use rules_analyzer.Predicate as Predicates
use rules_analyzer.Rule.{Rule, RuleAction, allow, deny, rule_bdd, is_deny_all}
use rules_analyzer.RuleList.{RuleList, is_last}
use rules_analyzer.State.{State, initial, update, processed}
use rules_analyzer.State.FirstMatch.{matched, decides, run, run-append, run_first_match}
use rules_analyzer.Anomaly.{RuleAnomalyDetails, RuleAnomaly, RuleAnomalies}
use rules_analyzer.Analyzer.{Bddcache, lookup, insert, check_rule, check_rules, check_anomaly}
use rules_analyzer.Base.{ok}
use rules_analyzer.Analyzer.Search.{Has_address, Cached, lookup-insert}
use rules_analyzer.Analyzer.Explains.{Tracks, Explains}
use rules_analyzer.Analyzer.Verdict.{check_rule-Explains}

abbrev pub Has_id : ℕ → RuleList → Bool
Has_id i = any (λ s. s.id == i)

-- No rule has the address or the id of one in front of it.
abbrev pub Fresh : RuleList → RuleList → Type 0
Fresh before [] = Unit
Fresh before (r ∷ rs) =
    (Has_address r.address before ≡ false)
    × (Has_id r.id before ≡ false)
    × Fresh (before ++ r ∷ []) rs

-- The reports on some rules behind others: none where the rule is the last and denies all, or
-- where `Explains` holds of no report, and else the details that are explained.
pub data Reports (L : Buddy) (acl : RuleList)
    : RuleList → RuleList → List RuleAnomaly → Type 0 where
  done : {before : RuleList} → Reports L acl before [] []
  skip :
      {before rules : RuleList} {anomalies : List RuleAnomaly} (r : Rule)
      → is_deny_all L r ≡ true
      → is_last r.address acl ≡ true
      → Reports L acl (before ++ r ∷ []) rules anomalies
      → Reports L acl before (r ∷ rules) anomalies
  quiet :
      {before rules : RuleList} {anomalies : List RuleAnomaly} (r : Rule)
      → Explains L before r none
      → Reports L acl (before ++ r ∷ []) rules anomalies
      → Reports L acl before (r ∷ rules) anomalies
  report :
      {before rules : RuleList} {anomalies : List RuleAnomaly} (r : Rule) (d : RuleAnomalyDetails)
      → Explains L before r (some d)
      → Reports L acl (before ++ r ∷ []) rules anomalies
      → Reports L acl before (r ∷ rules) (record { rule = r; details = d } ∷ anomalies)

module _ (L : Buddy) where
  open L use {bddtrue}

  Cached-insert :
      (i : ℕ) (b : L.Bdd) (cache : Bddcache L) (rs : RuleList)
      → Has_id i rs ≡ false
      → Cached L cache rs
      → Cached L (insert L i b cache) rs
  Cached-insert i b cache [] h c = tt
  Cached-insert i b cache (r ∷ rs) h c = (
    ground (arith, lookup-insert L i r.id b cache, c.0),
    Cached-insert i b cache rs (ground arith) c.1,
  )

  Cached-snoc :
      (cache : Bddcache L) (rs : RuleList) (r : Rule)
      → Cached L cache rs
      → lookup L r.id cache ≡ some (rule_bdd L r)
      → Cached L cache (rs ++ r ∷ [])
  Cached-snoc cache [] r c h = (h, tt)
  Cached-snoc cache (s ∷ rs) r c h = (c.0, Cached-snoc cache rs r c.1 h)

  abbrev pub start : State L
  start = initial L bddtrue

  pub run-Tracks : (rs : RuleList) → Tracks L (run L start rs) rs
  run-Tracks rs = record { decided = decided; left = left }
    where
      decided :
          (a : RuleAction) (p : L.Packet)
          → L.holds (processed L (run L start rs) a) p ≡ decides L a rs p
      decided allow p = (run_first_match L bddtrue rs p).0 ∙ rw (L.holds_true p)
      decided deny p = (run_first_match L bddtrue rs p).1 ∙ rw (L.holds_true p)

      left : (p : L.Packet) → L.holds (run L start rs).remaining p ≡ not (matched L rs p)
      left p = (run_first_match L bddtrue rs p).2 ∙ rw (L.holds_true p)

  none_left :
      (rs : RuleList)
      → (is_none L (run L start rs).remaining ≡ true) ↔ ((p : L.Packet) → matched L rs p ≡ true)
  none_left rs = (
    (λ e p. ground (arith, (is_none_iff L _).0 e p, (run-Tracks rs).left p)),
    (λ h. (is_none_iff L _).1 λ p. ground (arith, h p, (run-Tracks rs).left p)),
  )

  module _ (interrupts : ℕ → Bool) (never : (k : ℕ) → interrupts k ≡ false) where
    abbrev Ends : RuleList → RuleList → RuleList → ℕ → Bddcache L → List RuleAnomaly → Type 0
    Ends acl before rules k cache anomalies =
        (news : List RuleAnomaly) × (check_rules L interrupts acl k rules (run L start before) cache
            anomalies
          ≡ ok (anomalies ++ news, run L start acl))
        × Reports L acl before rules news

    own :
        (r : Rule) (cache : Bddcache L)
        → lookup L r.id (insert L r.id (rule_bdd L r) cache) ≡ some (rule_bdd L r)
    own r cache = ground (arith, lookup-insert L r.id r.id (rule_bdd L r) cache)

    after_rule :
        (before : RuleList) (r : Rule)
        → update L (run L start before) r.action (rule_bdd L r) ≡ run L start (before ++ r ∷ [])
    after_rule before r = sym (run-append L start before (r ∷ []))

    conclude :
        (acl before rules : RuleList) (k : ℕ) (cache : Bddcache L) (anomalies : List RuleAnomaly)
        (r : Rule) (d : Option RuleAnomalyDetails)
        → ((found : List RuleAnomaly)
            → Ends acl (before ++ r ∷ []) rules (k + 1) (insert L r.id (rule_bdd L r) cache) found)
        → (is_deny_all L r && is_last r.address acl) ≡ false
        → check_rule L acl r (run L start before) (insert L r.id (rule_bdd L r) cache) ≡ ok d
        → Explains L before r d
        → Ends acl before (r ∷ rules) k cache anomalies
    unfolding check_rules
    conclude acl before rules k cache anomalies r none rest other checked x =
        let (news, q, y) = rest anomalies in
        (news, rw (never k, other, checked, own r cache, after_rule before r) q, quiet r x y)
    conclude acl before rules k cache anomalies r (some d) rest other checked x =
        let entry : RuleAnomaly = record { rule = r; details = d } in
        let (news, q, y) = rest (anomalies ++ entry ∷ []) in
        (
          entry ∷ news,
          rw (never k, other, checked, own r cache, after_rule before r)
              (q ∙ ap (λ l. ok (l, run L start acl)) (append_assoc anomalies (entry ∷ []) news)),
          report r d x y,
        )

    check_rules-Ends :
        (acl before rules : RuleList) (k : ℕ) (cache : Bddcache L) (anomalies : List RuleAnomaly)
        → before ++ rules ≡ acl
        → Fresh before rules
        → Cached L cache before
        → Ends acl before rules k cache anomalies
    unfolding check_rules
    check_rules-Ends acl before [] k cache anomalies e f c =
        ([], rw (append-nil anomalies, ← e, append-nil before), done)
    check_rules-Ends acl before (r ∷ rules) k cache anomalies e f c =
        let b = rule_bdd L r in
        let cache' = insert L r.id b cache in
        let c' = Cached-insert r.id b cache before f.1 c in
        let all' = Cached-snoc cache' before r c' (own r cache) in
        let e' : (before ++ r ∷ []) ++ rules ≡ acl = append_assoc before (r ∷ []) rules ∙ e in
        let rest = λ (found : List RuleAnomaly).
          check_rules-Ends acl (before ++ r ∷ []) rules (k + 1) cache' found e' f.2 all' in
        elim (Bool-cases (is_deny_all L r && is_last r.address acl)) [
          | inl last ↦
              let (news, q, x) = rest anomalies in
              (
                news,
                rw (never k, last, own r cache, after_rule before r) q,
                skip r (ground arith) (ground arith) x,
              )
          | inr other ↦
              let (d, q, x) =
                check_rule-Explains L before rules r (run L start before) cache' f.0 c'
                  (run-Tracks before) (own r cache) in
              conclude acl before rules k cache anomalies r d rest other (rw e at q) x
        ]

  -- With no interrupt, on rules of distinct ids and addresses, `check_anomaly` returns: a report
  -- for each rule as `Explains` says, in order, and `missing_deny_all` is false exactly when every
  -- packet is matched by some rule.
  pub check_anomaly_explains :
      (ip_model : IpAddressModel) (new : ℕ) (interrupts : ℕ → Bool) (acl : RuleList)
      → ((k : ℕ) → interrupts k ≡ false)
      → Fresh [] acl
      → (x : RuleAnomalies) × (check_anomaly L ip_model new interrupts acl ≡ ok x)
        × Reports L acl [] acl x.anomalies
        × ((x.missing_deny_all ≡ false) ↔ ((p : L.Packet) → matched L acl p ≡ true))
  unfolding check_anomaly Predicates.make_bdd
  check_anomaly_explains ip_model new interrupts acl never f =
      let (news, q, y) = check_rules-Ends interrupts never acl [] acl 0 [] [] refl f tt in
      (
        record { anomalies = news; missing_deny_all = not (is_none L (run L start acl).remaining) },
        rw q,
        y,
        (
          (λ e. (none_left acl).0 (ground arith)),
          (λ h. let e = (none_left acl).1 h in ground arith),
        ),
      )
