-- ===== src/State/FirstMatch.antt =====
-- The state after some rules against the first rule that matches a packet.
use rules_analyzer.Base.{
  ◌≡◌, refl, ◌∙◌, ◌↔◌, Bool, true, false, not, ◌&&◌, ◌||◌, if◌then◌else◌, List, [], ◌∷◌, ◌++◌, any,
  arith, Option, none, some, Bool-cases, inl, inr,
}
use rules_analyzer.Bdd.{Buddy}
use rules_analyzer.Rule.{Rule, RuleAction, allow, deny, opposite, action_eq, rule_bdd}
use rules_analyzer.State.{State, initial, update, processed}

same_action : (a b : RuleAction) → (action_eq a b ≡ true) ↔ (some a ≡ some b)
same_action deny deny = (λ e. refl, λ e. refl)
same_action deny allow = (λ e. cc, λ e. cc)
same_action allow deny = (λ e. cc, λ e. cc)
same_action allow allow = (λ e. refl, λ e. refl)

module _ (L : Buddy) where
  open L use {Bdd, Packet, holds}

  abbrev pub matches : Rule → Packet → Bool
  matches r p = holds (rule_bdd L r) p

  abbrev pub matched : List Rule → Packet → Bool
  matched rs p = any (λ r. matches r p) rs

  -- What a firewall does with a packet: the action of the first rule that matches.
  abbrev pub decide : List Rule → Packet → Option RuleAction
  decide [] p = none
  decide (r ∷ rs) p = if matches r p then some r.action else decide rs p

  abbrev pub decides : RuleAction → List Rule → Packet → Bool
  decides a [] p = false
  decides a (r ∷ rs) p = if matches r p then action_eq r.action a else decides a rs p

  pub decides_iff :
      (a : RuleAction) (rs : List Rule) (p : Packet)
      → (decides a rs p ≡ true) ↔ (decide rs p ≡ some a)
  decides_iff a [] p = (λ e. cc, λ e. cc)
  decides_iff a (r ∷ rs) p = elim (Bool-cases (matches r p)) [
    | inl hit ↦ rw hit (same_action r.action a)
    | inr miss ↦ rw miss (decides_iff a rs p)
  ]

  -- The analyzer's loop over the state alone.
  abbrev pub run : State L → List Rule → State L
  run s [] = s
  run s (r ∷ rs) = run (update L s r.action (rule_bdd L r)) rs

  abbrev Balanced : State L → Packet → Type 0
  Balanced s p =
      holds s.remaining p ≡ (holds s.input p && not (holds s.accepted p || holds s.denied p))

  update_remaining :
      (s : State L) (a : RuleAction) (b : Bdd) (p : Packet)
      → Balanced s p
      → holds (update L s a b).remaining p ≡ (holds s.remaining p && not (holds b p))
  unfolding update
  update_remaining s allow b p h = simp (L.holds_and, L.holds_not, L.holds_or) (ground arith)
  update_remaining s deny b p h = simp (L.holds_and, L.holds_not, L.holds_or) (ground arith)

  update-Balanced :
      (s : State L) (a : RuleAction) (b : Bdd) (p : Packet) → Balanced (update L s a b) p
  unfolding update
  update-Balanced s allow b p = simp (L.holds_and, L.holds_not, L.holds_or)
  update-Balanced s deny b p = simp (L.holds_and, L.holds_not, L.holds_or)

  -- The packets that an update adds to one action are those that were left and match.
  update-processed :
      (s : State L) (a : RuleAction) (b : Bdd) (c : RuleAction) (p : Packet)
      → holds (processed L (update L s a b) c) p
        ≡ (holds (processed L s c) p || (holds s.remaining p && holds b p && action_eq a c))
  unfolding update
  update-processed s allow b allow p = simp (L.holds_and, L.holds_or) (ground arith)
  update-processed s allow b deny p = ground arith
  update-processed s deny b allow p = ground arith
  update-processed s deny b deny p = simp (L.holds_and, L.holds_or) (ground arith)

  run_remaining :
      (s : State L) (rs : List Rule) (p : Packet)
      → Balanced s p
      → holds (run s rs).remaining p ≡ (holds s.remaining p && not (matched rs p))
  run_remaining s [] p h = ground arith
  run_remaining s (r ∷ rs) p h =
      run_remaining (update L s r.action (rule_bdd L r)) rs p
        (update-Balanced s r.action (rule_bdd L r) p)
      ∙ rw (update_remaining s r.action (rule_bdd L r) p h) (ground arith)

  run-processed :
      (s : State L) (rs : List Rule) (c : RuleAction) (p : Packet)
      → Balanced s p
      → holds (processed L (run s rs) c) p
        ≡ (holds (processed L s c) p || (holds s.remaining p && decides c rs p))
  run-processed s [] c p h = ground arith
  run-processed s (r ∷ rs) c p h =
      run-processed (update L s r.action (rule_bdd L r)) rs c p
        (update-Balanced s r.action (rule_bdd L r) p)
      ∙ rw
          (
            update_remaining s r.action (rule_bdd L r) p h,
            update-processed s r.action (rule_bdd L r) c p,
          )
          (ground arith)

  initial-Balanced : (b : Bdd) (p : Packet) → Balanced (initial L b) p
  initial-Balanced b p = ground (arith, L.holds_false p)

  -- After any rules, of the packets of the input: accepted are those whose first matching rule
  -- allows, denied are those whose first matching rule denies, remaining are those that no rule
  -- matches.
  pub run_first_match :
      (input : Bdd) (rs : List Rule) (p : Packet)
      → (holds (run (initial L input) rs).accepted p ≡ (holds input p && decides allow rs p))
        × (holds (run (initial L input) rs).denied p ≡ (holds input p && decides deny rs p))
        × (holds (run (initial L input) rs).remaining p ≡ (holds input p && not (matched rs p)))
  run_first_match input rs p = (
    run-processed (initial L input) rs allow p (initial-Balanced input p)
        ∙ ground (arith, L.holds_false p),
    run-processed (initial L input) rs deny p (initial-Balanced input p)
        ∙ ground (arith, L.holds_false p),
    run_remaining (initial L input) rs p (initial-Balanced input p),
  )

  -- A packet is matched when some action is decided of it, and never both.
  pub matched-decides :
      (a : RuleAction) (rs : List Rule) (p : Packet)
      → matched rs p ≡ (decides a rs p || decides (opposite a) rs p)
  matched-decides a [] p = refl
  matched-decides allow (r ∷ rs) p = ground (arith, matched-decides allow rs p)
  matched-decides deny (r ∷ rs) p = ground (arith, matched-decides deny rs p)

  pub decides_once :
      (a : RuleAction) (rs : List Rule) (p : Packet)
      → (decides a rs p && decides (opposite a) rs p) ≡ false
  decides_once a [] p = refl
  decides_once allow (r ∷ rs) p = ground (arith, decides_once allow rs p)
  decides_once deny (r ∷ rs) p = ground (arith, decides_once deny rs p)

  pub decide-append :
      (rs ss : List Rule) (p : Packet)
      → decide (rs ++ ss) p ≡ (if matched rs p then decide rs p else decide ss p)
  decide-append [] ss p = refl
  decide-append (r ∷ rs) ss p = ground (arith, decide-append rs ss p)

  pub run-append : (s : State L) (rs ss : List Rule) → run s (rs ++ ss) ≡ run (run s rs) ss
  run-append s [] ss = refl
  run-append s (r ∷ rs) ss = run-append (update L s r.action (rule_bdd L r)) rs ss
