-- ===== src/Predicate.antt =====
-- src/model/predicate.h and src/model/predicate.cpp: what a rule says of a packet.
pub mod Parts
pub mod Symmetrical
pub mod Turned
pub mod Projection
mod Tests
use rules_analyzer.Base.{ℕ, ◌+◌, Bool, true, false, if◌then◌else◌}
use rules_analyzer.Bdd.{Buddy}
use rules_analyzer.Mnode.{negate_if}
use rules_analyzer.Options.{Options}
use rules_analyzer.Group as Groups
use rules_analyzer.Zone.{ZoneGroup, zone_node, src_any_zone_group, dst_any_zone_group}
use rules_analyzer.Address.{
  AddressGroup, address_node, any_address_group, IpAddressModel, source, destination,
}
use rules_analyzer.Service.{ServiceGroup, service_node, is_app_services, any_service_group}
use rules_analyzer.Application.{
  ApplicationGroup, application_node, any_application_group, default_services,
}
use rules_analyzer.User.{UserGroup, user_node, url_node, any_user_group, any_url_group}

-- The subclasses Any4Predicate, Any6Predicate and Any64Predicate override `make_bdd`.
pub record Predicate : Type 0 where
  pub is_any_predicate : Bool
  pub src_zones : ZoneGroup
  pub dst_zones : ZoneGroup
  pub src_addresses : AddressGroup
  pub negate_src_addresses : Bool
  pub dst_addresses : AddressGroup
  pub negate_dst_addresses : Bool
  pub services : ServiceGroup
  pub applications : ApplicationGroup
  pub users : UserGroup
  pub urls : UserGroup

pub data BddOption : Type 0 where
  source_zone destination_zone application user url : BddOption

-- `any`: the groups stand at addresses from the given one on.
abbrev pub any_predicate : IpAddressModel → ℕ → Predicate
any_predicate ip_model a = record {
  is_any_predicate = true;
  src_zones = src_any_zone_group a (a + 1);
  dst_zones = dst_any_zone_group (a + 2) (a + 3);
  src_addresses = any_address_group source ip_model (a + 4) (a + 5) (a + 6);
  negate_src_addresses = false;
  dst_addresses = any_address_group destination ip_model (a + 7) (a + 8) (a + 9);
  negate_dst_addresses = false;
  services = any_service_group (a + 10) (a + 11);
  applications = any_application_group (a + 12) (a + 13) (a + 14) (a + 15);
  users = any_user_group (a + 16) (a + 17);
  urls = any_url_group (a + 18) (a + 19);
}

module _ (L : Buddy) where
  open L use {Bdd, bddtrue, bdd_and}

  unfoldable pub src_addresses_bdd : Predicate → Bdd
  src_addresses_bdd q =
      negate_if L (Groups.make_bdd (address_node L) q.src_addresses) q.negate_src_addresses

  unfoldable pub dst_addresses_bdd : Predicate → Bdd
  dst_addresses_bdd q =
      negate_if L (Groups.make_bdd (address_node L) q.dst_addresses) q.negate_dst_addresses

  unfoldable pub services_bdd : Predicate → Bdd
  services_bdd q =
      if is_app_services q.services then bddtrue else Groups.make_bdd (service_node L) q.services

  infixl 65 ◌&◌
  abbrev ◌&◌ : Bdd → Bdd → Bdd
  a & b = bdd_and a b

  -- `Predicate::make_bdd`.
  unfoldable pub conjunction : Predicate → Bdd
  unfolding src_addresses_bdd dst_addresses_bdd services_bdd
  conjunction q =
      Groups.make_bdd (zone_node L) q.src_zones
      & Groups.make_bdd (zone_node L) q.dst_zones
      & src_addresses_bdd q
      & dst_addresses_bdd q
      & services_bdd q
      & Groups.make_bdd (application_node L) q.applications
      & Groups.make_bdd (user_node L) q.users
      & Groups.make_bdd (url_node L) q.urls

  -- The virtual `make_bdd`.
  unfoldable pub make_bdd : Predicate → Bdd
  make_bdd q = if q.is_any_predicate then bddtrue else conjunction q

  -- One `if (options.contains(...)) output_bdd &= ...;`.
  abbrev pub and_if : Bool → Bdd → Bdd → Bdd
  and_if selected extra output_bdd = if selected then output_bdd & extra else output_bdd

  -- `make_bdd(options)`, which no subclass overrides. A copy of the default services stands at a
  -- fresh address.
  unfoldable pub make_bdd_with : ℕ → Options BddOption → Predicate → Bdd
  unfolding src_addresses_bdd dst_addresses_bdd services_bdd
  make_bdd_with fresh options q =
      let addresses : Bdd = src_addresses_bdd q & dst_addresses_bdd q in
      let sources : Bdd =
        and_if (options.contains source_zone) (Groups.make_bdd (zone_node L) q.src_zones)
          addresses in
      let zones : Bdd =
        and_if (options.contains destination_zone) (Groups.make_bdd (zone_node L) q.dst_zones)
          sources in
      let traffic : Bdd =
        if options.contains application
        then zones & (services_bdd q & Groups.make_bdd (application_node L) q.applications)
        else zones
          & (if is_app_services q.services
              then Groups.make_bdd (service_node L) (default_services L fresh q.applications)
              else Groups.make_bdd (service_node L) q.services) in
      let users : Bdd =
        and_if (options.contains user) (Groups.make_bdd (user_node L) q.users) traffic in
      and_if (options.contains url) (Groups.make_bdd (url_node L) q.urls) users
