-- ===== src/FirewallFactory/Rules/Added.antt =====
-- What a call of add_rule (src/ostore/firewallfactory.cpp) adds to the firewall.
use mathlib.Core.Path.{subst}
use mathlib.Core.List.{append-nil, map-append}
use rules_analyzer.Base.{
  ℕ, ◌==◌, ◌≡◌, refl, sym, ap, ◌∙◌, Bool, true, false, ◌&&◌, if◌then◌else◌, List, [], ◌∷◌, ◌++◌,
  length, any-append, Option, none, some, Outcome, ok, err, arith, Bool-cases, inl, inr,
}
use rules_analyzer.Bdd.{Buddy}
use rules_analyzer.Format.{Format}
use rules_analyzer.IpConvertor.{Inet}
use rules_analyzer.Rule.{Rule, RuleAction, RuleStatus}
use rules_analyzer.Firewall.{Firewall, add_rule as push_rule, get_rule}
use rules_analyzer.Firewall.Status.{IsUnique, ids, has}
use rules_analyzer.Firewall.Access.{IsWellFormed, add_rule-IsWellFormed, or_else, last_with}
use rules_analyzer.PolicyReader.{RuleObject}
use rules_analyzer.ObjectStore.{AddressObject, ObjectStore}
use rules_analyzer.Network.{Network}
use rules_analyzer.FirewallFactory.{FactoryFault}
use rules_analyzer.FirewallFactory.Status.{Unresolved, LoaderStatus, Loading, RuleGroups}
use rules_analyzer.FirewallFactory.Builds.{build_groups}
use rules_analyzer.FirewallFactory.Rules.{
  note_empty, all_filled, new_rule, is_new, add_valid, add_built, add_with,
}

pub kept {ℓ} :
    {E : Type 0} {B : Type ℓ} (P : B → Type 0) (a b : B)
    → ◌≡◌ {A = Outcome E B} (ok a) (ok b)
    → P a
    → P b
kept P a b e p = let same : a ≡ b = cc in subst P same p

IsUnique-snoc : (ns : List ℕ) (n : ℕ) → IsUnique ns → has n ns ≡ false → IsUnique (ns ++ n ∷ [])
IsUnique-snoc [] n u h = (refl, tt)
IsUnique-snoc (x ∷ ns) n u h = (
  any-append (λ m. m == x) ns (n ∷ []) ∙ ground (arith, u.0),
  IsUnique-snoc ns n u.1 (ground arith),
)

or_else-none : (o p : Option ℕ) → or_else o p ≡ none → (o ≡ none) × (p ≡ none)
or_else-none none p h = (refl, h)
or_else-none (some a) p h = absurd (cc)

not_there : (id : ℕ) (rules : List Rule) → last_with id rules ≡ none → has id (ids rules) ≡ false
not_there id [] h = refl
not_there id (r ∷ rules) h =
    let (behind, here) =
      or_else-none (last_with id rules) (if r.id == id then some r.address else none) h in
    elim (Bool-cases (r.id == id)) [
      | inl same ↦ absurd (cc (rw same at here))
      | inr other ↦ rw other (not_there id rules behind)
    ]

-- What a call of add_rule does: it adds a rule with a new id, or none, and counts nothing.
pub record IsAdded (b : Bool) (s s' : Loading) : Type 0 where
  pub added : List Rule
  pub many : length added ≡ (if b then 1 else 0)
  pub rules : s'.firewall.rules ≡ s.firewall.rules ++ added
  pub well : IsWellFormed s'.firewall
  pub unique : IsUnique (ids s'.firewall.rules)
  pub loaded : s'.status.loaded_count ≡ s.status.loaded_count
  pub errors : s'.status.error_count ≡ s.status.error_count

abbrev SameCounts : LoaderStatus → LoaderStatus → Type 0
SameCounts t t' = (t'.loaded_count ≡ t.loaded_count) × (t'.error_count ≡ t.error_count)

module _ (L : Buddy) (F : Format) (I : Inet) (fqdn_resolve : AddressObject → Option AddressObject)
    (store : ObjectStore) where
  no_rule-IsAdded :
      (s s' : Loading)
      → IsWellFormed s.firewall
      → IsUnique (ids s.firewall.rules)
      → s'.firewall ≡ s.firewall
      → SameCounts s.status s'.status
      → IsAdded false s s'
  no_rule-IsAdded s s' w u e c = record {
    added = [];
    many = refl;
    rules = ap (λ (fw : Firewall). fw.rules) e ∙ sym (append-nil s.firewall.rules);
    well = subst IsWellFormed (sym e) w;
    unique = subst (λ (fw : Firewall). IsUnique (ids fw.rules)) (sym e) u;
    loaded = c.0;
    errors = c.1;
  }

  rule-IsAdded :
      (r : Rule) (s s' : Loading)
      → IsWellFormed s.firewall
      → IsUnique (ids s.firewall.rules)
      → get_rule r.id s.firewall ≡ none
      → s'.firewall ≡ push_rule r s.firewall
      → SameCounts s.status s'.status
      → IsAdded true s s'
  unfolding push_rule
  rule-IsAdded r s s' w u new e c =
      let free : has r.id (ids s.firewall.rules) ≡ false =
        not_there r.id s.firewall.rules (sym (w.mapped r.id) ∙ new) in
      let more : ids (s.firewall.rules ++ r ∷ []) ≡ ids s.firewall.rules ++ r.id ∷ [] =
        map-append _ _ _ in
      record {
        added = r ∷ [];
        many = refl;
        rules = ap (λ (fw : Firewall). fw.rules) e;
        well = subst IsWellFormed (sym e) (add_rule-IsWellFormed r s.firewall w);
        unique =
            subst (λ (fw : Firewall). IsUnique (ids fw.rules)) (sym e)
              (subst IsUnique (sym more) (IsUnique-snoc (ids s.firewall.rules) r.id u free));
        loaded = c.0;
        errors = c.1;
      }

  is_new-none : (o : Option ℕ) → is_new o ≡ true → o ≡ none
  is_new-none none h = refl
  is_new-none (some a) h = absurd (cc)

  abbrev pub Adds : Loading → Bool × Loading → Type 0
  Adds s r = IsAdded r.0 s r.1

  -- `u` has the network and the status that building the groups of the rule leaves.
  add_valid-Adds :
      (b : Bool) (rule : RuleObject) (status : RuleStatus) (action : RuleAction) (g : RuleGroups)
      (s t : Loading) (r : Bool × Loading)
      → IsWellFormed s.firewall
      → IsUnique (ids s.firewall.rules)
      → t.firewall ≡ s.firewall
      → SameCounts s.status t.status
      → (b ≡ true → get_rule rule.id s.firewall ≡ none)
      → add_valid b rule status action g t ≡ ok r
      → Adds s r
  unfolding add_valid
  add_valid-Adds false rule status action g s t r w u e c new h =
      kept (Adds s) (false, t) r h (no_rule-IsAdded s t w u e c)
  add_valid-Adds true rule status action g s t r w u e c new h = kept (Adds s) _ r h (
      rule-IsAdded (new_rule t.network.next_address rule status action g) s _ w u (new refl)
        (ap (λ fw. push_rule (new_rule t.network.next_address rule status action g) fw) e) c)

  add_built-Adds :
      (o : Outcome FactoryFault (RuleGroups × Unresolved × Network)) (action : RuleAction)
      (status : RuleStatus) (rule : RuleObject) (s : Loading) (r : Bool × Loading)
      → IsWellFormed s.firewall
      → IsUnique (ids s.firewall.rules)
      → add_built L F I fqdn_resolve store o action status rule s ≡ ok r
      → Adds s r
  unfolding note_empty
  add_built-Adds (err fault) action status rule s r w u h = absurd (cc)
  add_built-Adds (ok (g, unresolved, nw)) action status rule s r w u h =
      add_valid-Adds (is_new (get_rule rule.id s.firewall) && all_filled L g) rule status action g s
        _ r w u refl (refl, refl) (λ b. is_new-none (get_rule rule.id s.firewall) (ground arith)) h

  pub add_with-Adds :
      (action : Option RuleAction) (status : Option RuleStatus) (rule : RuleObject) (s : Loading)
      (r : Bool × Loading)
      → IsWellFormed s.firewall
      → IsUnique (ids s.firewall.rules)
      → add_with L F I fqdn_resolve store action status rule s ≡ ok r
      → Adds s r
  add_with-Adds none status rule s r w u h =
      kept (Adds s) (false, s) r h (no_rule-IsAdded s s w u refl (refl, refl))
  add_with-Adds (some action) none rule s r w u h =
      kept (Adds s) (false, s) r h (no_rule-IsAdded s s w u refl (refl, refl))
  add_with-Adds (some action) (some status) rule s r w u h =
      add_built-Adds (build_groups L F I fqdn_resolve store rule s.status.unresolved s.network)
        action status rule s r w u h
