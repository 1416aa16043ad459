-- ===== src/ObjectStore.antt =====
-- src/ostore/objectstore.cpp: the addresses, services, applications, users and URLs that a policy may
-- name, and their pools.
pub mod Rows
pub mod AddressRows
mod Tests
use rules_analyzer.Base.{
  ℕ, Bool, true, false, if◌then◌else◌, List, [], ◌∷◌, Option, none, some, String, Outcome,
}
use rules_analyzer.Cache.{Cache}
use rules_analyzer.Address.{IpAddressModel, ip4_model, ip6_model, ip64_model}
use rules_analyzer.GenericResolver.{Pool, Walk, ResolverFault, resolve}
use rules_analyzer.ObjectDictionary.{add, get}

pub data AddressType : Type 0 where
  ipmask iprange fqdn : AddressType

pub record AddressObject : Type 0 where
  pub name : String
  pub type : AddressType
  pub addresses : List String

-- A ServiceObject or an ApplicationObject.
pub record ServiceObject : Type 0 where
  pub name : String
  pub services : List String

-- The dictionaries. A UserObject and a UrlObject are their names.
pub record ObjectStore : Type 0 where
  pub ip_model : IpAddressModel
  pub addresses : Cache AddressObject
  pub address_pools : Cache Pool
  pub services : Cache ServiceObject
  pub service_pools : Cache Pool
  pub applications : Cache ServiceObject
  pub application_pools : Cache Pool
  pub users : Cache String
  pub user_pools : Cache Pool
  pub urls : Cache String
  pub url_pools : Cache Pool

abbrev pub more_than_one {ℓ} : {A : Type ℓ} → List A → Bool
more_than_one [] = false
more_than_one (a ∷ []) = false
more_than_one (a ∷ b ∷ cs) = true

-- `is_multi`.
abbrev pub is_multi_address : AddressObject → Bool
is_multi_address o = more_than_one o.addresses

abbrev pub is_multi_service : ServiceObject → Bool
is_multi_service o = more_than_one o.services

abbrev pub add_address : String → List String → Cache AddressObject → Cache AddressObject
add_address name addresses =
    add (λ o. o.name) (some (record { name = name; type = ipmask; addresses = addresses }))

abbrev pub add_pool : String → List String → Cache Pool → Cache Pool
add_pool name members = add (λ p. p.name) (some (record { name = name; members = members }))

abbrev pub add_service : String → Cache ServiceObject → Cache ServiceObject
add_service name = add (λ o. o.name) (some (record { name = name; services = name ∷ [] }))

abbrev pub add_name : String → Cache String → Cache String
add_name name = add (λ n. n) (some name)

-- The first addresses and pools of a model of the network.
abbrev pub first_addresses : IpAddressModel → Cache AddressObject
first_addresses ip64_model = add_address "any6" ("any6" ∷ []) (add_address "any4" ("any4" ∷ []) [])
first_addresses ip4_model = add_address "any" ("any" ∷ []) []
first_addresses ip6_model = add_address "any" ("any" ∷ []) []

abbrev pub first_pools : IpAddressModel → Cache Pool
first_pools ip64_model = add_pool "any" ("any4" ∷ "any6" ∷ []) []
first_pools ip4_model = []
first_pools ip6_model = []

-- `clear`.
unfoldable pub cleared : IpAddressModel → ObjectStore
unfolding add
cleared ip_model = record {
  ip_model = ip_model;
  addresses = first_addresses ip_model;
  address_pools = first_pools ip_model;
  services = add_service "icmp" (add_service "udp" (add_service "tcp" (add_service "any" [])));
  service_pools = [];
  applications = add_service "icmp" (add_service "tcp" (add_service "udp" (add_service "any" [])));
  application_pools = [];
  users = add_name "any" [];
  user_pools = [];
  urls = add_name "any" [];
  url_pools = [];
}

-- `AddressObjects::get`, where the name servers resolve an address object with a host name.
abbrev pub resolved_by :
    (AddressObject → Option AddressObject) → Option AddressObject → Option AddressObject
resolved_by fqdn_resolve none = none
resolved_by fqdn_resolve (some o) = elim (o.type) [
  | ipmask ↦ some o
  | iprange ↦ some o
  | fqdn ↦ fqdn_resolve o
]

unfoldable pub get_address :
    (AddressObject → Option AddressObject) → ObjectStore → String → Option AddressObject
unfolding get
get_address fqdn_resolve store name = resolved_by fqdn_resolve (get name store.addresses)

-- The answer of a resolver.
abbrev pub Resolved : Type 0 → Type 0
Resolved O = Option (Outcome ResolverFault (Walk O))

unfoldable pub resolve_address_pool :
    (AddressObject → Option AddressObject)
    → ObjectStore
    → Pool
    → List String
    → Resolved AddressObject
unfolding get_address resolve
resolve_address_pool fqdn_resolve store =
    resolve (get_address fqdn_resolve store) store.address_pools

unfoldable pub resolve_service_pool : ObjectStore → Pool → List String → Resolved ServiceObject
unfolding get resolve
resolve_service_pool store = resolve (λ n. get n store.services) store.service_pools

unfoldable pub resolve_application_pool : ObjectStore → Pool → List String → Resolved ServiceObject
unfolding get resolve
resolve_application_pool store = resolve (λ n. get n store.applications) store.application_pools

unfoldable pub resolve_user_pool : ObjectStore → Pool → List String → Resolved String
unfolding get resolve
resolve_user_pool store = resolve (λ n. get n store.users) store.user_pools

unfoldable pub resolve_url_pool : ObjectStore → Pool → List String → Resolved String
unfolding get resolve
resolve_url_pool store = resolve (λ n. get n store.urls) store.url_pools
