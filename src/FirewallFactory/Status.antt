-- ===== src/FirewallFactory/Status.antt =====
-- The status of the loading of a policy (src/ostore/firewallfactory.h), and the groups of a rule.
use rules_analyzer.Base.{ℕ, ◌||◌, if◌then◌else◌, List, [], Option, none, some, String}
use rules_analyzer.Strutil.{Text, codes}
use rules_analyzer.Strutil.Case.{iequal}
use rules_analyzer.Zone.{ZoneGroup}
use rules_analyzer.Address.{AddressGroup}
use rules_analyzer.Service.{ServiceGroup}
use rules_analyzer.Application.{ApplicationGroup}
use rules_analyzer.User.{UserGroup}
use rules_analyzer.Rule.{RuleAction, allow, deny, RuleStatus, enabled, disabled}
use rules_analyzer.Firewall.{Firewall}
use rules_analyzer.Network.{Network}

-- The names of a policy that are not resolved.
pub record Unresolved : Type 0 where
  pub addresses : List String
  pub services : List String
  pub applications : List String
  pub users : List String
  pub urls : List String

pub record LoaderStatus : Type 0 where
  pub loaded_count : ℕ
  pub error_count : ℕ
  pub disabled_count : ℕ
  pub empty_sources : List ℕ
  pub empty_destinations : List ℕ
  pub empty_services : List ℕ
  pub empty_applications : List ℕ
  pub empty_src_zones : List ℕ
  pub empty_dst_zones : List ℕ
  pub empty_users : List ℕ
  pub empty_urls : List ℕ
  pub unresolved : Unresolved

abbrev pub new_status : LoaderStatus
new_status = record {
  loaded_count = 0;
  error_count = 0;
  disabled_count = 0;
  empty_sources = [];
  empty_destinations = [];
  empty_services = [];
  empty_applications = [];
  empty_src_zones = [];
  empty_dst_zones = [];
  empty_users = [];
  empty_urls = [];
  unresolved = record { addresses = []; services = []; applications = []; users = []; urls = [] };
}

-- What the loader changes.
pub record Loading : Type 0 where
  pub firewall : Firewall
  pub network : Network
  pub status : LoaderStatus

-- The groups that are built for a rule.
pub record RuleGroups : Type 0 where
  pub src_addresses : AddressGroup
  pub dst_addresses : AddressGroup
  pub applications : ApplicationGroup
  pub services : ServiceGroup
  pub src_zones : ZoneGroup
  pub dst_zones : ZoneGroup
  pub users : UserGroup
  pub urls : UserGroup

unfoldable pub action_of : Text → Option RuleAction
unfolding iequal
action_of text =
    if iequal text (codes "allow")
    then some allow
    else if iequal text (codes "accept")
    then some allow
    else if iequal text (codes "drop")
    then some deny
    else if iequal text (codes "deny")
    then some deny
    else none

unfoldable pub status_of : Text → Option RuleStatus
unfolding iequal
status_of text =
    if iequal text (codes "enable") || iequal text (codes "enabled")
    then some enabled
    else if iequal text (codes "disable") || iequal text (codes "disabled")
    then some disabled
    else none
