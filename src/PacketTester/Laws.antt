-- ===== src/PacketTester/Laws.antt =====
-- The answer of the packet tester against the first rule that matches a packet of the traffic.
use mathlib.Core.Bool.{true≢false}
use rules_analyzer.Base.{
  ℕ, ◌≡◌, refl, sym, ◌∙◌, Bool, true, false, if◌then◌else◌, [], ◌∷◌, Option, none, some, Bool-cases,
  inl, inr,
}
use rules_analyzer.Bdd.{Buddy}
use rules_analyzer.Mnode.{is_subset}
use rules_analyzer.Mnode.Laws.{is_subset_iff}
use rules_analyzer.Predicate.{make_bdd_with}
use rules_analyzer.Rule.{Rule, RuleAction, allow, deny, action_eq}
use rules_analyzer.RuleList.{RuleList}
use rules_analyzer.PacketTester.{
  Traffic, bdd_options, test_predicate, test_rules, is_packet_allowed,
}
use rules_analyzer.PacketTester.Given.{
  is_traffic, matches_given, holds-make_bdd_with, holds-test_predicate,
}

module _ (L : Buddy) where
  open L use {Bdd, Packet, holds}

  abbrev pub first_given : ℕ → Traffic → RuleList → Packet → Option Rule
  first_given fresh t [] p = none
  first_given fresh t (r ∷ rs) p =
      if matches_given L fresh t r p then some r else first_given fresh t rs p

  -- Whether a rule allows.
  abbrev is_allow : RuleAction → Bool
  is_allow allow = true
  is_allow deny = false

  abbrev pub answer : Option Rule → Bool × Option Rule
  answer none = (false, none)
  answer (some r) = (is_allow r.action, some r)

  -- No rule tells two packets of the traffic apart.
  abbrev pub IsUniform : ℕ → Traffic → RuleList → Type 0
  IsUniform fresh t [] = Unit
  IsUniform fresh t (r ∷ rs) =
      ((p q : Packet)
        → is_traffic L t p ≡ true
        → is_traffic L t q ≡ true
        → matches_given L fresh t r p ≡ matches_given L fresh t r q)
      × IsUniform fresh t rs

  answer_lem :
      (a : RuleAction) (r : Rule) → r.action ≡ a → answer (some r) ≡ (action_eq a allow, some r)
  answer_lem allow r e = rw e refl
  answer_lem deny r e = rw e refl

  test_rules_lem :
      (fresh : ℕ) (t : Traffic) (acl : RuleList) (p : Packet)
      → is_traffic L t p ≡ true
      → IsUniform fresh t acl
      → test_rules L fresh
          (bdd_options t)
          (make_bdd_with L fresh (bdd_options t) (test_predicate fresh t))
          acl
        ≡ answer (first_given fresh t acl p)
  unfolding test_rules
  test_rules_lem fresh t [] p h u = refl
  test_rules_lem fresh t (r ∷ acl) p h u =
      let ih = test_rules_lem fresh t acl p h u.1 in
      let test = make_bdd_with L fresh (bdd_options t) (test_predicate fresh t) in
      let rule_bdd = make_bdd_with L fresh (bdd_options t) r.predicate in
      let of_rule = holds-make_bdd_with L fresh t r.predicate in
      let of_test = holds-test_predicate L fresh t in
      elim (Bool-cases (matches_given L fresh t r p)) [
        | inl hit ↦
            let covers : is_subset L test rule_bdd ≡ true =
              (is_subset_iff L test rule_bdd).1
                (λ q k. of_rule q ∙ u.0 q p (sym (of_test q) ∙ k) h ∙ hit) in
            rw (covers, hit) (sym (answer_lem r.action r refl))
        | inr miss ↦ elim (Bool-cases (is_subset L test rule_bdd)) [
          | inl covers ↦
              let inside = (is_subset_iff L test rule_bdd).0 covers p (of_test p ∙ h) in
              absurd (true≢false (sym inside ∙ of_rule p ∙ miss))
          | inr parts ↦ rw (parts, miss, ih) refl
        ]
      ]

  -- When no rule of the list tells two packets of the traffic apart, then for each packet of the
  -- traffic the answer is the first rule that matches it, with whether that rule allows, or a
  -- refusal when none does. A packet is of the traffic when it is in its groups of addresses and of
  -- services and in those of the two zones and of the groups of applications, users and urls that
  -- are given. A rule matches a packet in its addresses, each side turned into its complement when
  -- it is negated, and in its zones, applications, users and urls only where the traffic gives that
  -- part: with no user given, a rule for one user matches the packets of another. With applications
  -- given, a rule that takes the default services of its applications asks nothing of the services;
  -- with none given, it matches in those default services.
  pub is_packet_allowed-first_given :
      (fresh : ℕ) (t : Traffic) (acl : RuleList) (p : Packet)
      → is_traffic L t p ≡ true
      → IsUniform fresh t acl
      → is_packet_allowed L fresh t acl ≡ answer (first_given fresh t acl p)
  unfolding is_packet_allowed
  is_packet_allowed-first_given fresh t acl p h u = test_rules_lem fresh t acl p h u
