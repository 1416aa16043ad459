-- ===== src/FirewallFactory/Rules.antt =====
-- The rules that src/ostore/firewallfactory.cpp adds to a firewall, with the status of the loading.
pub mod Added
pub mod Counts
pub mod Disabled
use rules_analyzer.Base.{
  ℕ, ◌+◌, ◌-◌, ◌%◌, ◌^◌, Bool, true, false, not, ◌&&◌, ◌||◌, if◌then◌else◌, List, [], ◌∷◌, ◌++◌,
  length, Option, none, some, String, Outcome, ok, err, ◌>>=◌,
}
use rules_analyzer.Strutil.{Text, codes}
use rules_analyzer.Strutil.Case.{iequal}
use rules_analyzer.Bdd.{Buddy}
use rules_analyzer.Format.{Format}
use rules_analyzer.IpConvertor.{Inet}
use rules_analyzer.Group.{Group, Node, group, plain, nil, add_item, empty}
use rules_analyzer.Zone.{Zone, ZoneGroup, zone_node}
use rules_analyzer.Address.{AddressGroup, address_node, source, destination}
use rules_analyzer.Service.{ServiceGroup, service_node}
use rules_analyzer.Application.{ApplicationGroup, application_node, default_services}
use rules_analyzer.User.{UserGroup, user_node, url_node}
use rules_analyzer.Predicate.{any_predicate}
use rules_analyzer.Rule.{Rule, RuleAction, allow, deny, RuleStatus, enabled, disabled}
use rules_analyzer.Firewall.{Firewall, add_rule as push_rule, get_rule, acl}
use rules_analyzer.PolicyReader.{RuleObject, default_app_services}
use rules_analyzer.ObjectStore.{AddressObject, ObjectStore}
use rules_analyzer.Network.{Network}
use rules_analyzer.Network.Register.{
  Call, allocate, register_src_zone, register_dst_zone, register_service,
}
use rules_analyzer.FirewallFactory.{FactoryFault, lifted, Building, build_group}
use rules_analyzer.FirewallFactory.Status.{
  Unresolved, LoaderStatus, new_status, Loading, RuleGroups, action_of, status_of,
}
use rules_analyzer.FirewallFactory.Kinds.{
  address_kind, service_kind, application_kind, user_kind, url_kind,
}
use rules_analyzer.FirewallFactory.Builds.{build_groups}

-- The rows whose groups are empty go to the status.
abbrev pub noted : Bool → ℕ → List ℕ → List ℕ
noted is_empty row rows = if is_empty then rows ++ row ∷ [] else rows

-- The new rule, with its predicate.
abbrev pub new_rule : ℕ → RuleObject → RuleStatus → RuleAction → RuleGroups → Rule
new_rule a rule status action g = record {
  address = a;
  name = rule.name;
  id = rule.id;
  status = status;
  action = action;
  predicate = record {
    is_any_predicate = false;
    src_zones = g.src_zones;
    dst_zones = g.dst_zones;
    src_addresses = g.src_addresses;
    negate_src_addresses = rule.negate_source_addresses;
    dst_addresses = g.dst_addresses;
    negate_dst_addresses = rule.negate_destination_addresses;
    services = g.services;
    applications = g.applications;
    users = g.users;
    urls = g.urls;
  };
}

abbrev pub is_new : Option ℕ → Bool
is_new none = true
is_new (some a) = false

-- The rule is added if it is valid.
unfoldable pub add_valid :
    Bool
    → RuleObject
    → RuleStatus
    → RuleAction
    → RuleGroups
    → Loading
    → Outcome FactoryFault (Bool × Loading)
unfolding push_rule
add_valid false rule status action g s = ok (false, s)
add_valid true rule status action g s = lifted (allocate s.network) >>= λ p. ok (
  true,
  record s { firewall = push_rule (new_rule p.0 rule status action g) s.firewall; network = p.1 },
)

abbrev pub counted : Bool → Loading → Loading
counted true s = record s { status = record s.status { loaded_count = s.status.loaded_count + 1 } }
counted false s = record s { status = record s.status { error_count = s.status.error_count + 1 } }

-- `add_deny_all_rule`: the groups of the predicate stand at twenty new addresses.
unfoldable pub add_deny_all_rule : Loading → Loading
unfolding push_rule
add_deny_all_rule s =
    let a = s.network.next_address in
    record s {
      firewall =
          push_rule
            (record {
              address = a + 20;
              name = "";
              id = 0;
              status = enabled;
              action = deny;
              predicate = any_predicate s.network.ip_model a;
            })
            s.firewall;
      network = record s.network { next_address = a + 21 };
    }

-- `disabled_count = loaded_count - fw.acl().size()`, on 64 bits.
abbrev pub count_disabled : Loading → Loading
count_disabled s = record s {
  status = record s.status {
    disabled_count = (s.status.loaded_count + 2 ^ 64 - length (acl s.firewall)) % 2 ^ 64;
  };
}

module _ (L : Buddy) where
  unfoldable pub note_empty : ℕ → RuleGroups → LoaderStatus → LoaderStatus
  unfolding empty
  note_empty row g status = record status {
    empty_sources = noted (empty (address_node L) g.src_addresses) row status.empty_sources;
    empty_destinations =
        noted (empty (address_node L) g.dst_addresses) row status.empty_destinations;
    empty_applications =
        noted (empty (application_node L) g.applications) row status.empty_applications;
    empty_services = noted (empty (service_node L) g.services) row status.empty_services;
    empty_src_zones = noted (empty (zone_node L) g.src_zones) row status.empty_src_zones;
    empty_dst_zones = noted (empty (zone_node L) g.dst_zones) row status.empty_dst_zones;
    empty_users = noted (empty (user_node L) g.users) row status.empty_users;
    empty_urls = noted (empty (url_node L) g.urls) row status.empty_urls;
  }

  unfoldable pub all_filled : RuleGroups → Bool
  unfolding empty
  all_filled g =
      not (empty (address_node L) g.src_addresses)
      && not (empty (address_node L) g.dst_addresses)
      && not (empty (application_node L) g.applications)
      && not (empty (service_node L) g.services)
      && not (empty (zone_node L) g.src_zones)
      && not (empty (zone_node L) g.dst_zones)
      && not (empty (user_node L) g.users)
      && not (empty (url_node L) g.urls)

module _ (L : Buddy) (F : Format) (I : Inet) (fqdn_resolve : AddressObject → Option AddressObject)
    (store : ObjectStore) where
  abbrev pub add_built :
      Outcome FactoryFault (RuleGroups × Unresolved × Network)
      → RuleAction
      → RuleStatus
      → RuleObject
      → Loading
      → Outcome FactoryFault (Bool × Loading)
  add_built (err fault) action status rule s = err fault
  add_built (ok (g, unresolved, nw)) action status rule s =
      add_valid (is_new (get_rule rule.id s.firewall) && all_filled L g) rule status action g
        (record s {
          network = nw;
          status = note_empty L rule.row_number g (record s.status { unresolved = unresolved });
        })

  abbrev pub add_with :
      Option RuleAction
      → Option RuleStatus
      → RuleObject
      → Loading
      → Outcome FactoryFault (Bool × Loading)
  add_with none status rule s = ok (false, s)
  add_with (some action) none rule s = ok (false, s)
  add_with (some action) (some status) rule s =
      add_built (build_groups L F I fqdn_resolve store rule s.status.unresolved s.network) action
        status rule s

  -- `add_rule`: whether the rule was valid, and added.
  unfoldable pub add_rule : RuleObject → Loading → Outcome FactoryFault (Bool × Loading)
  unfolding build_groups note_empty all_filled add_valid action_of status_of get_rule
  add_rule rule s = add_with (action_of rule.action) (status_of rule.status) rule s

  -- The loop of `load_rules` over what `next_row` answers in turn.
  unfoldable pub load_rows : List (Option RuleObject) → Loading → Outcome FactoryFault Loading
  unfolding add_rule
  load_rows [] s = ok s
  load_rows (none ∷ rows) s = ok s
  load_rows (some rule ∷ rows) s = add_rule rule s >>= λ r. load_rows rows (counted r.0 r.1)

  unfoldable pub load_rules :
      Bool → List (Option RuleObject) → Firewall → Network → Outcome FactoryFault Loading
  unfolding load_rows add_deny_all_rule acl
  load_rules add_implicit_deny_all rows fw nw =
      load_rows rows (record { firewall = fw; network = nw; status = new_status }) >>= λ s.
      ok (count_disabled (if add_implicit_deny_all then add_deny_all_rule s else s))
