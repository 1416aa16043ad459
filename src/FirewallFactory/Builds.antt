-- ===== src/FirewallFactory/Builds.antt =====
-- The groups that src/ostore/firewallfactory.cpp builds for a rule.
use rules_analyzer.Base.{if◌then◌else◌, List, [], ◌∷◌, Option, String, Outcome, ok, ◌>>=◌}
use rules_analyzer.Bdd.{Buddy}
use rules_analyzer.Format.{Format}
use rules_analyzer.IpConvertor.{Inet}
use rules_analyzer.Group.{group, plain, nil, add_item}
use rules_analyzer.Zone.{Zone, ZoneGroup, zone_node}
use rules_analyzer.Address.{address_node, source, destination}
use rules_analyzer.Service.{ServiceGroup, service_node}
use rules_analyzer.Application.{ApplicationGroup, application_node, default_services}
use rules_analyzer.User.{user_node, url_node}
use rules_analyzer.PolicyReader.{RuleObject, default_app_services}
use rules_analyzer.ObjectStore.{AddressObject, ObjectStore}
use rules_analyzer.Network.{Network}
use rules_analyzer.Network.Register.{Call, allocate, register_src_zone, register_dst_zone}
use rules_analyzer.FirewallFactory.{FactoryFault, lifted, build_group}
use rules_analyzer.FirewallFactory.Status.{Unresolved, RuleGroups}
use rules_analyzer.FirewallFactory.Kinds.{
  address_kind, service_kind, application_kind, user_kind, url_kind,
}

module _ (L : Buddy) where
  -- The loop over the zones of a rule.
  unfoldable pub add_zones : (String → Call Zone) → List String → ZoneGroup → Call ZoneGroup
  add_zones register_zone [] g nw = ok (g, nw)
  add_zones register_zone (name ∷ names) g nw = register_zone name nw >>= λ r.
      add_zones register_zone names (add_item (zone_node L) g r.0) r.1

  -- `build_src_zone_group` and `build_dst_zone_group`.
  unfoldable pub build_zone_group :
      (String → Call Zone) → List String → Network → Outcome FactoryFault (ZoneGroup × Network)
  unfolding add_zones
  build_zone_group register_zone names nw =
      lifted (allocate nw >>= λ p. add_zones register_zone names (group plain p.0 "$root" nil) p.1)

  module _ (F : Format) (I : Inet) (fqdn_resolve : AddressObject → Option AddressObject)
      (store : ObjectStore) where
    -- The groups of a rule, in the order in which they are built. The group of the default services is
    -- new, and the test for them in `build_service_group` is made in front of it.
    unfoldable pub build_services :
        RuleObject
        → ApplicationGroup
        → List String
        → Network
        → Outcome FactoryFault (ServiceGroup × List String × Network)
    unfolding build_group default_services default_app_services
    build_services rule applications unresolved nw =
        if default_app_services rule
        then (lifted (allocate nw) >>= λ p.
            ok (default_services L p.0 applications, unresolved, p.1))
        else build_group (service_node L) (service_kind L F I store) rule.services unresolved nw

    unfoldable pub build_groups :
        RuleObject → Unresolved → Network → Outcome FactoryFault (RuleGroups × Unresolved × Network)
    unfolding build_group build_services build_zone_group register_src_zone register_dst_zone
    build_groups rule unresolved nw =
        build_group (address_node L) (address_kind L F I store fqdn_resolve source)
          rule.source_addresses unresolved.addresses nw
        >>= λ (src, addresses1, nw1).
            build_group (address_node L) (address_kind L F I store fqdn_resolve destination)
              rule.destination_addresses addresses1 nw1
            >>= λ (dst, addresses2, nw2).
                build_group (application_node L)
                  (application_kind L F I store (default_app_services rule)) rule.applications
                  unresolved.applications nw2
                >>= λ (apps, applications, nw3).
                    build_services rule apps unresolved.services nw3 >>= λ (svcs, services, nw4).
                    build_zone_group register_src_zone rule.source_zones nw4 >>= λ (srcz, nw5).
                    build_zone_group register_dst_zone rule.destination_zones nw5 >>= λ (dstz, nw6).
                    build_group (user_node L) (user_kind L F I store) rule.users unresolved.users
                      nw6
                    >>= λ (usrs, users, nw7).
                        build_group (url_node L) (url_kind L F I store) rule.urls unresolved.urls
                          nw7
                        >>= λ (urls, unresolved_urls, nw8). ok (
                          record {
                            src_addresses = src;
                            dst_addresses = dst;
                            applications = apps;
                            services = svcs;
                            src_zones = srcz;
                            dst_zones = dstz;
                            users = usrs;
                            urls = urls;
                          },
                          record {
                            addresses = addresses2;
                            services = services;
                            applications = applications;
                            users = users;
                            urls = unresolved_urls;
                          },
                          nw8,
                        )
