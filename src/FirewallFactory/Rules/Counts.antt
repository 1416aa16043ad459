-- ===== src/FirewallFactory/Rules/Counts.antt =====
-- What the loop of `load_rules` (src/ostore/firewallfactory.cpp) counts and adds.
use mathlib.Core.Path.{subst}
use mathlib.Core.List.{append-nil, append_assoc}
use rules_analyzer.Base.{
  ◌+◌, ◌≡◌, refl, sym, ap, ◌∙◌, Bool, true, false, List, [], ◌∷◌, ◌++◌, length, length-append,
  Option, none, some, Outcome, ok, err, ◌>>=◌, arith,
}
use rules_analyzer.Bdd.{Buddy}
use rules_analyzer.Format.{Format}
use rules_analyzer.IpConvertor.{Inet}
use rules_analyzer.Rule.{Rule}
use rules_analyzer.Firewall.Status.{IsUnique, ids}
use rules_analyzer.Firewall.Access.{IsWellFormed}
use rules_analyzer.PolicyReader.{RuleObject}
use rules_analyzer.ObjectStore.{AddressObject, ObjectStore}
use rules_analyzer.FirewallFactory.{FactoryFault}
use rules_analyzer.FirewallFactory.Status.{Loading, action_of, status_of}
use rules_analyzer.FirewallFactory.Rules.{add_rule, counted, load_rows}
use rules_analyzer.FirewallFactory.Rules.Added.{IsAdded, Adds, add_with-Adds}

-- The rows that are read: those in front of the first one for which `next_row` answers false.
abbrev pub read_rows : List (Option RuleObject) → List RuleObject
read_rows [] = []
read_rows (none ∷ rows) = []
read_rows (some rule ∷ rows) = rule ∷ read_rows rows

module _ (L : Buddy) (F : Format) (I : Inet) (fqdn_resolve : AddressObject → Option AddressObject)
    (store : ObjectStore) where
  -- The rules that the rows have added, and how they are counted.
  pub record IsLoaded (rows : List (Option RuleObject)) (s s' : Loading) : Type 0 where
    pub added : List Rule
    pub rules : s'.firewall.rules ≡ s.firewall.rules ++ added
    pub well : IsWellFormed s'.firewall
    pub unique : IsUnique (ids s'.firewall.rules)
    pub loaded : s'.status.loaded_count ≡ s.status.loaded_count + length added
    pub read :
        s'.status.loaded_count + s'.status.error_count
        ≡ s.status.loaded_count + s.status.error_count + length (read_rows rows)

  nothing_read :
      (rows : List (Option RuleObject)) (s s' : Loading)
      → read_rows rows ≡ []
      → IsWellFormed s.firewall
      → IsUnique (ids s.firewall.rules)
      → s ≡ s'
      → IsLoaded rows s s'
  nothing_read rows s s' none_read w u e =
      subst (λ t. IsLoaded rows s t) e
        (record {
          added = [];
          rules = sym (append-nil s.firewall.rules);
          well = w;
          unique = u;
          loaded = omega arith;
          read = omega (arith, ap length none_read);
        })

  one_read :
      (b : Bool) (rule : RuleObject) (rows : List (Option RuleObject)) (s t s' : Loading)
      → IsAdded b s t
      → IsLoaded rows (counted b t) s'
      → IsLoaded (some rule ∷ rows) s s'
  one_read true rule rows s t s' a l = record {
    added = a.added ++ l.added;
    rules =
        l.rules ∙ ap (λ rs. rs ++ l.added) a.rules ∙ append_assoc s.firewall.rules a.added l.added;
    well = l.well;
    unique = l.unique;
    loaded = omega (arith, l.loaded, a.loaded, a.many, length-append a.added l.added);
    read = omega (arith, l.read, a.loaded, a.errors);
  }
  one_read false rule rows s t s' a l = record {
    added = a.added ++ l.added;
    rules =
        l.rules ∙ ap (λ rs. rs ++ l.added) a.rules ∙ append_assoc s.firewall.rules a.added l.added;
    well = l.well;
    unique = l.unique;
    loaded = omega (arith, l.loaded, a.loaded, a.many, length-append a.added l.added);
    read = omega (arith, l.read, a.loaded, a.errors);
  }

  step-IsLoaded :
      (o : Outcome FactoryFault (Bool × Loading)) (rule : RuleObject)
      (rows : List (Option RuleObject)) (s s' : Loading)
      → ((r : Bool × Loading) → o ≡ ok r → Adds L F I fqdn_resolve store s r)
      → ((t : Loading)
          → IsWellFormed t.firewall
          → IsUnique (ids t.firewall.rules)
          → load_rows L F I fqdn_resolve store rows t ≡ ok s'
          → IsLoaded rows t s')
      → (o >>= λ r. load_rows L F I fqdn_resolve store rows (counted r.0 r.1)) ≡ ok s'
      → IsLoaded (some rule ∷ rows) s s'
  step-IsLoaded (err fault) rule rows s s' adds again h = absurd (cc)
  step-IsLoaded (ok (true, t)) rule rows s s' adds again h =
      let a = adds (true, t) refl in
      one_read true rule rows s t s' a (again (counted true t) a.well a.unique h)
  step-IsLoaded (ok (false, t)) rule rows s s' adds again h =
      let a = adds (false, t) refl in
      one_read false rule rows s t s' a (again (counted false t) a.well a.unique h)

  -- From a firewall that is well formed and has no id twice, the loop of load_rules, when it ends
  -- without an exception, reads the rows in front of the first one that is not valid, counts each as
  -- loaded or as an error, and adds as many rules as it counts as loaded behind those that were there.
  -- The firewall stays well formed, without an id twice.
  pub load_rows-IsLoaded :
      (rows : List (Option RuleObject)) (s s' : Loading)
      → IsWellFormed s.firewall
      → IsUnique (ids s.firewall.rules)
      → load_rows L F I fqdn_resolve store rows s ≡ ok s'
      → IsLoaded rows s s'
  unfolding load_rows add_rule
  load_rows-IsLoaded [] s s' w u h = nothing_read [] s s' refl w u (cc)
  load_rows-IsLoaded (none ∷ rows) s s' w u h = nothing_read (none ∷ rows) s s' refl w u (cc)
  load_rows-IsLoaded (some rule ∷ rows) s s' w u h =
      step-IsLoaded (add_rule L F I fqdn_resolve store rule s) rule rows s s'
        (λ r e.
          add_with-Adds L F I fqdn_resolve store (action_of rule.action) (status_of rule.status)
            rule s r w u e)
        (λ t v x k. load_rows-IsLoaded rows t s' v x k) h
