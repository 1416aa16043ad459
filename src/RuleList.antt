-- ===== src/RuleList.antt =====
-- src/model/rulelist.h and src/model/rulelist.cpp: a list of pointers to rules, with its filters.
pub mod Zones
use text.Mathlib.Text.{◌==◌ as str_eq}
use rules_analyzer.Base.{
  ℕ, ◌+◌, ◌==◌, Bool, false, not, ◌&&◌, ◌||◌, if◌then◌else◌, List, [], ◌∷◌, map, any, Option, none,
  some, filter, all,
}
use rules_analyzer.Bdd.{Buddy}
use rules_analyzer.Mnode.{is_subset}
use rules_analyzer.Group as Groups
use rules_analyzer.Group.{group, plain, nil}
use rules_analyzer.Zone.{Zone, zone_node}
use rules_analyzer.Address.{address_node}
use rules_analyzer.Service.{Service, ServiceGroup, service_node}
use rules_analyzer.Application.{Application, ApplicationGroup, application_node, with_services}
use rules_analyzer.User.{user_node, url_node}
use rules_analyzer.Rule.{
  Rule, RuleAction, RuleStatus, allow, deny, action_eq, status_eq, is_default_app_svc,
}

abbrev pub RuleList : Type 0
RuleList = List Rule

-- The first rule; `none` where the vector is empty and the call is undefined.
abbrev pub front : RuleList → Option Rule
front [] = none
front (r ∷ rs) = some r

abbrev pub back : RuleList → Option Rule
back [] = none
back (r ∷ []) = some r
back (r ∷ s ∷ rs) = back (s ∷ rs)

-- `filter` of a predicate, in the order of the list.
abbrev pub filter_rules : (Rule → Bool) → RuleList → RuleList
filter_rules = filter

abbrev pub filter_action : RuleAction → RuleList → RuleList
filter_action action = filter_rules (λ r. action_eq r.action action)

abbrev pub filter_status : RuleStatus → RuleList → RuleList
filter_status status = filter_rules (λ r. status_eq r.status status)

-- `filter_before`: the selected rules in front of the sentinel. The predicate may throw, which
-- ends the call: `none`.
abbrev select : Rule → Option Bool → Option RuleList → Option RuleList
select r none rest = none
select r (some keep) none = none
select r (some keep) (some rs) = some (if keep then r ∷ rs else rs)

unfoldable pub filter_before : ℕ → (Rule → Option Bool) → RuleList → Option RuleList
filter_before sentinel predicate [] = some []
filter_before sentinel predicate (r ∷ rs) =
    let rest = select r (predicate r) (filter_before sentinel predicate rs) in
    if r.address == sentinel then some [] else rest

abbrev pub is_last : ℕ → RuleList → Bool
is_last a rs = elim (back rs) [ none ↦ false | some r ↦ a == r.address ]

abbrev pub id_list : RuleList → List ℕ
id_list = map (λ r. r.id)

abbrev pub have_names : RuleList → Bool
have_names = any (λ r. not (str_eq r.name ""))

abbrev pub have_negate : RuleList → Bool
have_negate = any (λ r. r.predicate.negate_src_addresses || r.predicate.negate_dst_addresses)

pub record Counters : Type 0 where
  pub allowed : ℕ
  pub denied : ℕ

abbrev count_rule : Counters → RuleAction → Counters
count_rule c allow = record c { allowed = c.allowed + 1 }
count_rule c deny = record c { denied = c.denied + 1 }

-- The loop of `get_counters`.
unfoldable pub count_from : Counters → RuleList → Counters
count_from c [] = c
count_from c (r ∷ rs) = count_from (count_rule c r.action) rs

unfoldable pub get_counters : RuleList → Counters
unfolding count_from
get_counters rs = count_from (record { allowed = 0; denied = 0 }) rs

module _ (L : Buddy) where
  -- The filters by an object that the rule uses.
  unfoldable pub filter_zones : Zone → Zone → RuleList → RuleList
  filter_zones src_zone dst_zone = filter_rules λ r.
      is_subset L ((zone_node L).make_bdd src_zone)
        (Groups.make_bdd (zone_node L) r.predicate.src_zones)
      && is_subset L ((zone_node L).make_bdd dst_zone)
          (Groups.make_bdd (zone_node L) r.predicate.dst_zones)

  unfoldable pub filter_src_address : ℕ → RuleList → RuleList
  filter_src_address a =
      filter_rules λ r. Groups.contains_item (address_node L) r.predicate.src_addresses a

  unfoldable pub filter_dst_address : ℕ → RuleList → RuleList
  filter_dst_address a =
      filter_rules λ r. Groups.contains_item (address_node L) r.predicate.dst_addresses a

  unfoldable pub filter_service : ℕ → RuleList → RuleList
  filter_service a = filter_rules λ r. Groups.contains_item (service_node L) r.predicate.services a

  unfoldable pub filter_application : ℕ → RuleList → RuleList
  filter_application a =
      filter_rules λ r. Groups.contains_item (application_node L) r.predicate.applications a

  unfoldable pub filter_user : ℕ → RuleList → RuleList
  filter_user a = filter_rules λ r. Groups.contains_item (user_node L) r.predicate.users a

  unfoldable pub filter_url : ℕ → RuleList → RuleList
  filter_url a = filter_rules λ r. Groups.contains_item (url_node L) r.predicate.urls a

  unfoldable pub filter_services : ServiceGroup → RuleList → RuleList
  filter_services services = filter_rules λ r.
      is_subset L (Groups.make_bdd (service_node L) services)
        (Groups.make_bdd (service_node L) r.predicate.services)

  -- The group of the services that each application is combined with, at a fresh address.
  abbrev service_copy : ℕ → List Service → ServiceGroup → ServiceGroup
  service_copy fresh [] svc_group = svc_group
  service_copy fresh (s ∷ ss) svc_group =
      service_copy fresh ss (Groups.add_item (service_node L) svc_group s)

  -- An application with the services is within the applications of a rule.
  abbrev pair_selected : ℕ → ServiceGroup → Rule → Application → Bool
  pair_selected fresh services rule application =
      let svc_group =
        service_copy fresh (Groups.items (service_node L) services) (group plain fresh "" nil) in
      is_subset L ((application_node L).make_bdd (with_services (fresh + 1) application svc_group))
        (Groups.make_bdd (application_node L) rule.predicate.applications)

  abbrev applications_within : ApplicationGroup → Rule → Bool
  applications_within applications rule =
      is_subset L (Groups.make_bdd (application_node L) applications)
        (Groups.make_bdd (application_node L) rule.predicate.applications)

  -- `filter` of applications and services. The temporary objects stand at fresh addresses.
  unfoldable pub filter_applications : ℕ → ApplicationGroup → ServiceGroup → RuleList → RuleList
  filter_applications fresh applications services =
      if Groups.empty (service_node L) services
      then filter_rules (applications_within applications)
      else filter_rules (λ rule.
        if is_default_app_svc rule
        then all (pair_selected fresh services rule)
            (Groups.items (application_node L) applications)
        else applications_within applications rule
          && is_subset L (Groups.make_bdd (service_node L) services)
              (Groups.make_bdd (service_node L) rule.predicate.services))
