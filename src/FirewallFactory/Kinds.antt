-- ===== src/FirewallFactory/Kinds.antt =====
-- The lookups and registrations of src/ostore/firewallfactory.cpp for the names of each kind.
use rules_analyzer.Base.{
  Bool, true, false, if◌then◌else◌, List, [], ◌∷◌, ◌++◌, Option, none, some, String, Outcome, ok,
  err, ◌>>=◌,
}
use rules_analyzer.Strutil.{codes}
use rules_analyzer.Bdd.{Buddy}
use rules_analyzer.Format.{Format}
use rules_analyzer.IpConvertor.{Inet}
use rules_analyzer.Group.{Group}
use rules_analyzer.Address.{Side, IpAddress}
use rules_analyzer.AddressParser.{is_ip_address}
use rules_analyzer.Service.{Service}
use rules_analyzer.ServiceParser.{ServiceFault, is_protocol_port}
use rules_analyzer.Application.{Application}
use rules_analyzer.User.{User}
use rules_analyzer.ObjectDictionary.{get}
use rules_analyzer.ObjectStore.{
  AddressObject, ServiceObject, ObjectStore, is_multi_address, is_multi_service, get_address,
  resolve_address_pool, resolve_service_pool, resolve_application_pool, resolve_user_pool,
  resolve_url_pool,
}
use rules_analyzer.Network.{Network, NetworkFault}
use rules_analyzer.Network.Register.{
  register_address, register_service, register_application, register_user, register_url,
}
use rules_analyzer.Network.Groups.{
  address_group_slot, service_group_slot, application_group_slot, user_group_slot, url_group_slot,
  register_multi_address, register_multi_service, register_address_group, register_service_group,
  register_application_group, register_user_group, register_url_group,
}
use rules_analyzer.FirewallFactory.{FactoryFault, no_part, Registered, one, multi, Kind, lifted}

-- The first definition of an object, which has one.
abbrev pub first_of : List String → String
first_of [] = ""
first_of (d ∷ ds) = d

abbrev pub as_one :
    {T : Type 0}
    → Outcome NetworkFault (T × Network)
    → Outcome FactoryFault (Registered T × Network)
as_one o = lifted o >>= λ r. ok (one r.0, r.1)

abbrev pub as_multi :
    {T : Type 0}
    → Outcome NetworkFault (Group T × Network)
    → Outcome FactoryFault (Registered T × Network)
as_multi o = lifted o >>= λ r. ok (multi r.0, r.1)

abbrev pub tested : Outcome ServiceFault Bool → Outcome FactoryFault Bool
tested (ok b) = ok b
tested (err fault) = err no_part

module _ (L : Buddy) (F : Format) (I : Inet) (store : ObjectStore) where
  -- `build_src_address_group` and `build_dst_address_group`.
  abbrev pub address_kind :
      (AddressObject → Option AddressObject) → Side → Kind IpAddress AddressObject
  address_kind fqdn_resolve side = record {
    is_direct = λ nw name. ok (is_ip_address I (codes name) nw.ip_model nw.strict_ip_parser);
    register_direct = λ name. register_address I side name (codes name);
    find_object = get_address fqdn_resolve store;
    find_pool = λ name. get name store.address_pools;
    resolve_pool = resolve_address_pool fqdn_resolve store;
    register_object = λ o nw.
        if is_multi_address o
        then as_multi (register_multi_address L F I side o.name o.addresses nw)
        else as_one (register_address I side o.name (codes (first_of o.addresses)) nw);
    register_pool = λ p. register_address_group L side p.name p.members;
    groups = address_group_slot side;
  }

  -- The last branch of `build_service_group`.
  abbrev pub service_kind : Kind Service ServiceObject
  service_kind = record {
    is_direct = λ nw name. tested (is_protocol_port (codes name));
    register_direct = λ name. register_service name (codes name);
    find_object = λ name. get name store.services;
    find_pool = λ name. get name store.service_pools;
    resolve_pool = resolve_service_pool store;
    register_object = λ o nw.
        if is_multi_service o
        then as_multi (register_multi_service L F o.name o.services nw)
        else as_one (register_service o.name (codes (first_of o.services)) nw);
    register_pool = λ p. register_service_group L p.name p.members;
    groups = service_group_slot;
  }

  -- `resolve_app_services`: a name that is no service and no object is left out.
  abbrev pub services_of : Option ServiceObject → List String
  services_of none = []
  services_of (some o) = o.services

  unfoldable pub resolve_app_services : List String → Outcome FactoryFault (List String)
  unfolding is_protocol_port get
  resolve_app_services [] = ok []
  resolve_app_services (application_service ∷ application_services) =
      let rest = resolve_app_services application_services in
      tested (is_protocol_port (codes application_service)) >>= λ direct. rest >>= λ services. ok (
        (if direct
          then application_service ∷ []
          else services_of (get application_service store.services))
        ++ services)

  -- `build_application_group`. No name of an application or of a user is direct.
  abbrev pub application_kind : Bool → Kind Application ServiceObject
  application_kind default_app_services = record {
    is_direct = λ nw name. ok false;
    register_direct = λ name. register_application L name [] default_app_services;
    find_object = λ name. get name store.applications;
    find_pool = λ name. get name store.application_pools;
    resolve_pool = resolve_application_pool store;
    register_object = λ o nw. resolve_app_services o.services >>= λ services.
        as_one (register_application L o.name services default_app_services nw);
    register_pool = λ p. register_application_group L p.name p.members default_app_services;
    groups = application_group_slot default_app_services;
  }

  -- `build_user_group`.
  abbrev pub user_kind : Kind User String
  user_kind = record {
    is_direct = λ nw name. ok false;
    register_direct = register_user;
    find_object = λ name. get name store.users;
    find_pool = λ name. get name store.user_pools;
    resolve_pool = resolve_user_pool store;
    register_object = λ user nw. as_one (register_user user nw);
    register_pool = λ p. register_user_group L p.name p.members;
    groups = user_group_slot;
  }

  -- `build_url_group`. Every text is a URL for `is_url`.
  abbrev pub url_kind : Kind User String
  url_kind = record {
    is_direct = λ nw name. ok true;
    register_direct = register_url;
    find_object = λ name. get name store.urls;
    find_pool = λ name. get name store.url_pools;
    resolve_pool = resolve_url_pool store;
    register_object = λ url nw. as_one (register_url url nw);
    register_pool = λ p. register_url_group L p.name p.members;
    groups = url_group_slot;
  }
