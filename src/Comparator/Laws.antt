-- ===== src/Comparator/Laws.antt =====
-- What the comparator computes against the first enabled rule that matches a packet.
use rules_analyzer.Base.{
  ◌≡◌, refl, sym, ap, ◌∙◌, ◌↔◌, Bool, true, false, not, ◌&&◌, ◌||◌, if◌then◌else◌, [], ◌∷◌, arith,
  Option, none, some, Bool-cases, inl, inr, eq_of_iff,
}
use rules_analyzer.Bdd.{Buddy}
use rules_analyzer.Mnode.{equal, compare}
use rules_analyzer.Mnode.Laws.{compare_iff}
use rules_analyzer.Rule.{Rule, RuleAction, allow, deny, enabled, action_eq, status_eq, rule_bdd}
use rules_analyzer.RuleList.{RuleList, filter_status}
use rules_analyzer.State.FirstMatch.{decide, decides, decides_iff}
use rules_analyzer.Comparator.{Verdicts, add_verdict, compute_from, compute_bdd, compare_lists}

-- The enabled rules: the access list of a firewall.
abbrev pub active : RuleList → RuleList
active = filter_status enabled

module _ (L : Buddy) where
  open L use {Bdd, Packet, holds}

  abbrev undecided : Verdicts L → Packet → Bool
  undecided v p = not (holds v.allowed p || holds v.denied p)

  abbrev ApartAt : Verdicts L → Packet → Type 0
  ApartAt v p = (holds v.allowed p && holds v.denied p) ≡ false

  abbrev Grows : Verdicts L → RuleList → Verdicts L → Packet → Type 0
  Grows v rs w p =
      (holds w.allowed p ≡ (holds v.allowed p || (undecided v p && decides L allow rs p)))
      × (holds w.denied p ≡ (holds v.denied p || (undecided v p && decides L deny rs p)))

  add_Apart :
      (a : RuleAction) (b : Bdd) (v : Verdicts L) (p : Packet)
      → ApartAt v p
      → ApartAt (add_verdict L a b v) p
  add_Apart allow b v p h = simp (L.holds_or, L.holds_diff) (ground arith)
  add_Apart deny b v p h = simp (L.holds_or, L.holds_diff) (ground arith)

  add_Grows :
      (a : RuleAction) (b : Bdd) (v w : Verdicts L) (p : Packet) (first second : Bool)
      → ApartAt v p
      → (holds w.allowed p
          ≡ (holds (add_verdict L a b v).allowed p || (undecided (add_verdict L a b v) p && first)))
        × (holds w.denied p ≡ (
            holds (add_verdict L a b v).denied p || (undecided (add_verdict L a b v) p && second)))
      → (holds w.allowed p ≡ (
          holds v.allowed p || (undecided v p && (if holds b p then action_eq a allow else first))))
        × (holds w.denied p ≡ (
            holds v.denied p
            || (undecided v p && (if holds b p then action_eq a deny else second))))
  add_Grows allow b v w p first second h g =
      let o = L.holds_or v.allowed (L.bdd_diff b v.denied) p in
      let d = L.holds_diff b v.denied p in
      let (x, y) = g in (x ∙ rw (o, d) (ground arith), y ∙ rw (o, d) (ground arith))
  add_Grows deny b v w p first second h g =
      let o = L.holds_or v.denied (L.bdd_diff b v.allowed) p in
      let d = L.holds_diff b v.allowed p in
      let (x, y) = g in (x ∙ rw (o, d) (ground arith), y ∙ rw (o, d) (ground arith))

  -- One rule, with the decision on its status taken.
  step_Grows :
      (on : Bool) (v : Verdicts L) (r : Rule) (rs : RuleList) (p : Packet)
      → ApartAt v p
      → ((w : Verdicts L) → ApartAt w p → Grows w (active rs) (compute_from L w rs) p)
      → Grows v
          (if on then r ∷ active rs else active rs)
          (compute_from L (if on then add_verdict L r.action (rule_bdd L r) v else v) rs)
          p
  step_Grows true v r rs p h ih =
      add_Grows r.action (rule_bdd L r) v _ p (decides L allow (active rs) p)
        (decides L deny (active rs) p) h (ih _ (add_Apart r.action (rule_bdd L r) v p h))
  step_Grows false v r rs p h ih = ih v h

  compute_from_lem :
      (v : Verdicts L) (rs : RuleList) (p : Packet)
      → ApartAt v p
      → Grows v (active rs) (compute_from L v rs) p
  unfolding compute_from
  compute_from_lem v [] p h = (ground arith, ground arith)
  compute_from_lem v (r ∷ rs) p h =
      step_Grows (status_eq r.status enabled) v r rs p h λ w k. compute_from_lem w rs p k

  -- `compute_bdd` holds, as allowed and as denied, the packets whose first matching enabled rule
  -- allows or denies them.
  pub compute_bdd_first_match :
      (rs : RuleList) (p : Packet)
      → (holds (compute_bdd L rs).allowed p ≡ decides L allow (active rs) p)
        × (holds (compute_bdd L rs).denied p ≡ decides L deny (active rs) p)
  unfolding compute_bdd
  compute_bdd_first_match rs p =
      let none_yet = L.holds_false p in
      let (x, y) =
        compute_from_lem (record { allowed = L.bddfalse; denied = L.bddfalse }) rs p
          (ground (arith, none_yet)) in
      (x ∙ ground (arith, none_yet), y ∙ ground (arith, none_yet))

  abbrev outcome : Bool → Bool → Option RuleAction
  outcome allowed denied = if allowed then some allow else if denied then some deny else none

  first_outcome : (a : RuleAction) → outcome (action_eq a allow) (action_eq a deny) ≡ some a
  first_outcome allow = refl
  first_outcome deny = refl

  decide-outcome :
      (rs : RuleList) (p : Packet)
      → outcome (decides L allow rs p) (decides L deny rs p) ≡ decide L rs p
  decide-outcome [] p = refl
  decide-outcome (r ∷ rs) p = elim (Bool-cases (holds (rule_bdd L r) p)) [
    | inl hit ↦ rw hit (first_outcome r.action)
    | inr miss ↦ rw miss (decide-outcome rs p)
  ]

  same_decides :
      (a : RuleAction) (xs ys : RuleList) (p : Packet)
      → decide L xs p ≡ decide L ys p
      → decides L a xs p ≡ decides L a ys p
  same_decides a xs ys p e =
      eq_of_iff (decides L a xs p) (decides L a ys p)
        (λ h. (decides_iff L a ys p).1 (sym e ∙ (decides_iff L a xs p).0 h))
        (λ h. (decides_iff L a xs p).1 (e ∙ (decides_iff L a ys p).0 h))

  same_fate :
      (xs ys : RuleList) (p : Packet)
      → decides L allow xs p ≡ decides L allow ys p
      → decides L deny xs p ≡ decides L deny ys p
      → decide L xs p ≡ decide L ys p
  same_fate xs ys p e f = sym (decide-outcome xs p) ∙ rw (e, f) (decide-outcome ys p)

  compare_equal_iff : (a b : Bdd) → (compare L a b ≡ equal) ↔ ((p : Packet) → holds a p ≡ holds b p)
  compare_equal_iff a b = (
    (λ e p.
        let (x, y) = (compare_iff L equal a b).0 e in
        eq_of_iff (holds a p) (holds b p) (x p) (y p)),
    (λ f. (compare_iff L equal a b).1 ((λ p h. sym (f p) ∙ h), (λ p h. f p ∙ h))),
  )

  -- Two lists compare as equal, in what they allow and in what they deny, exactly when the first
  -- enabled rule that matches decides every packet alike in both.
  pub compare_lists_equal_iff :
      (xs ys : RuleList)
      → (compare_lists L xs ys ≡ record { on_allowed = equal; on_denied = equal })
        ↔ ((p : Packet) → decide L (active xs) p ≡ decide L (active ys) p)
  unfolding compare_lists
  compare_lists_equal_iff xs ys =
      let x = compute_bdd_first_match xs in
      let y = compute_bdd_first_match ys in
      (
        (λ e p.
            same_fate (active xs) (active ys) p
              (sym (x p).0 ∙ (compare_equal_iff _ _).0 (ap (λ r. r.on_allowed) e) p ∙ (y p).0)
              (sym (x p).1 ∙ (compare_equal_iff _ _).0 (ap (λ r. r.on_denied) e) p ∙ (y p).1)),
        (λ f.
            let same_on : (a : RuleAction) (p : Packet)
                → decides L a (active xs) p ≡ decides L a (active ys) p =
              λ a p. same_decides a (active xs) (active ys) p (f p) in
            rw
              (
                (compare_equal_iff _ _).1 (λ p. (x p).0 ∙ same_on allow p ∙ sym (y p).0),
                (compare_equal_iff _ _).1 (λ p. (x p).1 ∙ same_on deny p ∙ sym (y p).1),
              )
              refl),
      )
