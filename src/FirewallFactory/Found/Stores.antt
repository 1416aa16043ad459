-- ===== src/FirewallFactory/Found/Stores.antt =====
-- The dictionaries of pools (src/ostore/objectdictionary.h, objectstore.cpp) have their keys as names:
-- after clear, and when pools are added.
use text.Mathlib.Text.{◌==◌ as str_eq}
use text.Mathlib.TextEquality.{eq_iff}
use rules_analyzer.Base.{◌≡◌, refl, sym, ap, ◌∙◌, [], some, Bool-cases, inl, inr}
use rules_analyzer.Cache.{Cache}
use rules_analyzer.Cache
use rules_analyzer.Address.{IpAddressModel, ip4_model, ip6_model, ip64_model}
use rules_analyzer.GenericResolver.{Pool}
use rules_analyzer.ObjectDictionary.{get, add}
use rules_analyzer.ObjectDictionary.Entries.{get-insert_item}
use rules_analyzer.ObjectStore.{cleared, first_pools}
use rules_analyzer.FirewallFactory.Found.Kinds.{HasNames, IsNamed}

nil-HasNames : HasNames []
unfolding get Cache.get
nil-HasNames name p h = absurd (cc)

add-HasNames :
    (q : Pool) (pools : Cache Pool) → HasNames pools → HasNames (add (λ p. p.name) (some q) pools)
unfolding add
add-HasNames q pools named name p h = elim (Bool-cases (str_eq q.name name)) [
  | inl here ↦
      let found : some q ≡ some p = sym (get-insert_item q.name name q pools ∙ rw here refl) ∙ h in
      let same : q ≡ p = cc in ap (λ (r : Pool). r.name) (sym same) ∙ (eq_iff q.name name).0 here
  | inr other ↦ named name p (sym (get-insert_item q.name name q pools ∙ rw other refl) ∙ h)
]

first_pools-HasNames : (ip_model : IpAddressModel) → HasNames (first_pools ip_model)
first_pools-HasNames ip4_model = nil-HasNames
first_pools-HasNames ip6_model = nil-HasNames
first_pools-HasNames ip64_model = add-HasNames _ [] nil-HasNames

pub cleared-IsNamed : (ip_model : IpAddressModel) → IsNamed (cleared ip_model)
unfolding cleared
cleared-IsNamed ip_model = record {
  address_pools = first_pools-HasNames ip_model;
  service_pools = nil-HasNames;
  application_pools = nil-HasNames;
  user_pools = nil-HasNames;
  url_pools = nil-HasNames;
}
