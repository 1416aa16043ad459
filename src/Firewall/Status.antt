-- ===== src/Firewall/Status.antt =====
-- The access list of a firewall, and what the enabling and disabling of a rule does to it.
use mathlib.Core.Path.{subst}
use rules_analyzer.Base.{
  ℕ, ◌==◌, ◌≡◌, refl, sym, ap, ◌∙◌, Bool, true, false, not, List, [], ◌∷◌, map, any, Option, none,
  some, arith, Bool-cases, Option-cases, inl, inr, ==_iff,
}
use rules_analyzer.Rule.{Rule, enabled, disabled, status_eq}
use rules_analyzer.RuleList.{RuleList, filter_rules, filter_status}
use rules_analyzer.Firewall.{Firewall, deref_all, acl, get_rule, set_at, set_through, change_status}
use rules_analyzer.Firewall.Access.{
  IsWellFormed, addresses, last_with, or_else, addresses-set_at, set_at-IsWellFormed,
}

abbrev pub has : ℕ → List ℕ → Bool
has n = any (λ m. m == n)

abbrev pub IsUnique : List ℕ → Type 0
IsUnique [] = Unit
IsUnique (n ∷ ns) = (has n ns ≡ false) × IsUnique ns

abbrev pub ids : List Rule → List ℕ
ids = map (λ r. r.id)

deref_other :
    (r : Rule) (rules : List Rule) (pointers : List ℕ)
    → has r.address pointers ≡ false
    → deref_all (r ∷ rules) pointers ≡ deref_all rules pointers
deref_other r rules [] h = refl
deref_other r rules (a ∷ pointers) h =
    let other : (r.address == a) ≡ false = ground arith in
    rw (other, deref_other r rules pointers (ground arith)) refl

-- Pointers to all the rules that are owned, followed.
deref_addresses :
    (rules : List Rule) → IsUnique (addresses rules) → deref_all rules (addresses rules) ≡ rules
deref_addresses [] u = refl
deref_addresses (r ∷ rules) u =
    let itself : (r.address == r.address) ≡ true = ground arith in
    rw (itself, deref_other r rules (addresses rules) u.0, deref_addresses rules u.1) refl

-- The access list is the enabled rules among those that were added, in order.
pub acl-IsWellFormed :
    (fw : Firewall)
    → IsWellFormed fw
    → IsUnique (addresses fw.rules)
    → acl fw ≡ filter_status enabled fw.rules
unfolding acl
acl-IsWellFormed fw w u =
    ap (λ ps. filter_status enabled (deref_all fw.rules ps)) w.listed
    ∙ ap (filter_status enabled) (deref_addresses fw.rules u)

abbrev pub without : ℕ → RuleList → RuleList
without id = filter_rules (λ r. not (r.id == id))

absent_id : (id : ℕ) (rules : List Rule) → has id (ids rules) ≡ false → last_with id rules ≡ none
absent_id id [] h = refl
absent_id id (r ∷ rules) h =
    let other : (r.id == id) ≡ false = ground arith in
    rw (other, absent_id id rules (ground arith)) refl

without_absent :
    (id : ℕ) (rules : List Rule)
    → has id (ids rules) ≡ false
    → without id (filter_status enabled rules) ≡ filter_status enabled rules
without_absent id [] h = refl
without_absent id (r ∷ rules) h =
    let other : (r.id == id) ≡ false = ground arith in
    elim (Bool-cases (status_eq r.status enabled)) [
      | inl on ↦ rw (on, other, without_absent id rules (ground arith)) refl
      | inr off ↦ rw (off, without_absent id rules (ground arith)) refl
    ]

found_address :
    (id a : ℕ) (rules : List Rule) → last_with id rules ≡ some a → has a (addresses rules) ≡ true
found_address id a [] e = cc
found_address id a (r ∷ rules) e = elim (Option-cases (last_with id rules)) [
  | inl nowhere ↦ ground (arith, rw nowhere at e)
  | inr (b, later) ↦
      let same : some b ≡ some a = rw later at e in
      ground (arith, found_address id a rules (later ∙ same))
]

present_id :
    (id : ℕ) (rules : List Rule)
    → has id (ids rules) ≡ true
    → (a : ℕ) × (last_with id rules ≡ some a)
present_id id [] h = cc
present_id id (r ∷ rules) h = elim (Option-cases (last_with id rules)) [
  | inl nowhere ↦ elim (Bool-cases (r.id == id)) [
    | inl here ↦ (r.address, rw (nowhere, here) refl)
    | inr there ↦
        let (a, e) = present_id id rules (ground arith) in
        let never : ◌≡◌ {A = Option ℕ} none (some a) = sym nowhere ∙ e in cc
  ]
  | inr (b, later) ↦ (b, rw later refl)
]

or_else-none : (o : Option ℕ) → or_else o none ≡ o
or_else-none none = refl
or_else-none (some a) = refl

-- Disabling the rule with an id takes it out of the enabled ones.
disable_at :
    (id a : ℕ) (rules : List Rule)
    → IsUnique (addresses rules)
    → IsUnique (ids rules)
    → last_with id rules ≡ some a
    → filter_status enabled (set_at disabled a rules) ≡ without id (filter_status enabled rules)
disable_at id a [] u v e = refl
disable_at id a (r ∷ rules) u v e = elim (Bool-cases (r.id == id)) [
  | inl here ↦
      let alone : has id (ids rules) ≡ false = ground arith in
      let same : some r.address ≡ some a = rw (absent_id id rules alone, here) at e in
      let target : r.address ≡ a = cc in
      let itself : (r.address == a) ≡ true = (==_iff r.address a).1 target in
      elim (Bool-cases (status_eq r.status enabled)) [
        | inl on ↦ rw (itself, on, here) (sym (without_absent id rules alone))
        | inr off ↦ rw (itself, off) (sym (without_absent id rules alone))
      ]
  | inr there ↦
      let later : last_with id rules ≡ some a =
        sym (or_else-none (last_with id rules)) ∙ rw there at e in
      let other : (r.address == a) ≡ false = ground (arith, found_address id a rules later) in
      let ih = disable_at id a rules u.1 v.1 later in
      elim (Bool-cases (status_eq r.status enabled)) [
        | inl on ↦ rw (other, on, there, ih) refl
        | inr off ↦ rw (other, off, ih) refl
      ]
]

-- Of a firewall whose rules have distinct addresses and ids, the command that disables a rule
-- finds each rule by its id. After it the firewall is well formed, and the access list is what it
-- was, without that rule.
pub disable-acl :
    (id : ℕ) (fw : Firewall)
    → IsWellFormed fw
    → IsUnique (addresses fw.rules)
    → IsUnique (ids fw.rules)
    → has id (ids fw.rules) ≡ true
    → (after : Firewall) × (change_status disabled id fw ≡ some after)
      × IsWellFormed after
      × (acl after ≡ without id (acl fw))
unfolding change_status get_rule
disable-acl id fw w u v h =
    let (a, e) = present_id id fw.rules h in
    let after : Firewall = record fw { rules = set_at disabled a fw.rules } in
    let well : IsWellFormed after = set_at-IsWellFormed disabled a fw w in
    let apart : IsUnique (addresses after.rules) =
      subst IsUnique (sym (addresses-set_at disabled a fw.rules)) u in
    (
      after,
      ap (set_through disabled fw) (w.mapped id ∙ e),
      well,
      acl-IsWellFormed after well apart
          ∙ disable_at id a fw.rules u v e
          ∙ ap (without id) (sym (acl-IsWellFormed fw w u)),
    )
