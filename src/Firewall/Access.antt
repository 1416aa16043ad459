-- ===== src/Firewall/Access.antt =====
-- The pointers of a firewall: the list and the map stay those of the rules that it owns.
use rules_analyzer.Base.{
  ℕ, ◌==◌, ◌≡◌, refl, sym, ap, ◌∙◌, if◌then◌else◌, List, [], ◌∷◌, ◌++◌, map, Option, none, some,
  arith, Bool-cases, inl, inr, String,
}
use mathlib.Core.List.{map-append}
use rules_analyzer.Rule.{Rule, RuleStatus}
use rules_analyzer.Firewall.{
  Firewall, find_id, set_id, new_firewall, clear, add_rule, get_rule, set_at,
}

abbrev pub addresses : List Rule → List ℕ
addresses = map (λ r. r.address)

-- The address of the last rule with an id.
abbrev pub or_else : Option ℕ → Option ℕ → Option ℕ
or_else none o = o
or_else (some a) o = some a

abbrev pub last_with : ℕ → List Rule → Option ℕ
last_with id [] = none
last_with id (r ∷ rules) =
    or_else (last_with id rules) (if r.id == id then some r.address else none)

-- The list points to the rules that are owned, in order, and the map takes an id to the last rule
-- that was added with it.
pub record IsWellFormed (fw : Firewall) : Type 0 where
  pub listed : fw.rule_list ≡ addresses fw.rules
  pub mapped : (id : ℕ) → get_rule id fw ≡ last_with id fw.rules

find-set_id :
    (i k a : ℕ) (ids : List (ℕ × ℕ))
    → find_id i (set_id k a ids) ≡ (if k == i then some a else find_id i ids)
find-set_id i k a [] = refl
find-set_id i k a ((j, b) ∷ ids) = ground (arith, find-set_id i k a ids)

last_with-snoc :
    (i : ℕ) (rules : List Rule) (r : Rule)
    → last_with i (rules ++ r ∷ []) ≡ (if r.id == i then some r.address else last_with i rules)
last_with-snoc i [] r = ground arith
last_with-snoc i (s ∷ rules) r = rw (last_with-snoc i rules r) (ground arith)

pub new_firewall-IsWellFormed : (name : String) → IsWellFormed (new_firewall name)
unfolding new_firewall get_rule
new_firewall-IsWellFormed name = record { listed = refl; mapped = λ id. refl }

pub clear-IsWellFormed : (fw : Firewall) → IsWellFormed (clear fw)
unfolding clear get_rule
clear-IsWellFormed fw = record { listed = refl; mapped = λ id. refl }

pub add_rule-IsWellFormed :
    (r : Rule) (fw : Firewall) → IsWellFormed fw → IsWellFormed (add_rule r fw)
unfolding add_rule get_rule
add_rule-IsWellFormed r fw w = record {
  listed = ap (λ xs. xs ++ r.address ∷ []) w.listed ∙ sym (map-append _ _ _);
  mapped = λ id.
      find-set_id id r.id r.address fw.rule_ids
      ∙ ap (λ o. if r.id == id then some r.address else o) (w.mapped id)
      ∙ sym (last_with-snoc id fw.rules r);
}

pub addresses-set_at :
    (status : RuleStatus) (a : ℕ) (rules : List Rule)
    → addresses (set_at status a rules) ≡ addresses rules
addresses-set_at status a [] = refl
addresses-set_at status a (r ∷ rules) = elim (Bool-cases (r.address == a)) [
  | inl here ↦ rw here refl
  | inr there ↦ rw (there, addresses-set_at status a rules) refl
]

last_with-set_at :
    (i : ℕ) (status : RuleStatus) (a : ℕ) (rules : List Rule)
    → last_with i (set_at status a rules) ≡ last_with i rules
last_with-set_at i status a [] = refl
last_with-set_at i status a (r ∷ rules) = elim (Bool-cases (r.address == a)) [
  | inl here ↦ rw here refl
  | inr there ↦ rw (there, last_with-set_at i status a rules) refl
]

pub set_at-IsWellFormed :
    (status : RuleStatus) (a : ℕ) (fw : Firewall)
    → IsWellFormed fw
    → IsWellFormed (record fw { rules = set_at status a fw.rules })
unfolding get_rule
set_at-IsWellFormed status a fw w = record {
  listed = w.listed ∙ sym (addresses-set_at status a fw.rules);
  mapped = λ id. w.mapped id ∙ sym (last_with-set_at id status a fw.rules);
}
