-- ===== src/Network/Register.antt =====
-- The functions of src/model/network.cpp that register one object: it is made once, and found from
-- then on.
pub mod Slots
pub mod Addresses
mod Tests
use rules_analyzer.Base.{
  ℕ, ◌+◌, Bool, true, false, if◌then◌else◌, List, [], ◌∷◌, Option, none, some, String, Outcome, ok,
  err, ◌>>=◌,
}
use rules_analyzer.Strutil.{Text, codes}
use rules_analyzer.Bdd.{Buddy}
use rules_analyzer.Cache.{Cache, CacheFault, get, set}
use rules_analyzer.IdGenerator.{IdGenerator, IdFault, get_id}
use rules_analyzer.Domain
use rules_analyzer.Zone.{Zone, create_zone}
use rules_analyzer.Address.{Side, source, destination, IpAddress}
use rules_analyzer.IpConvertor.{Inet}
use rules_analyzer.AddressParser.{AddressFault, create_address}
use rules_analyzer.Service.{Service, ServiceGroup, service_node}
use rules_analyzer.ServiceParser.{ServiceFault, create_service}
use rules_analyzer.Group.{group, plain, nil, add_item}
use rules_analyzer.Application.{Application, create}
use rules_analyzer.User.{User, create_user, create_url}
use rules_analyzer.Network.{
  Network, NetworkFault, id_fault, cache_fault, address_fault, service_fault,
}

-- A call that may throw, and changes the network.
abbrev pub Call : Type 0 → Type 0
Call A = Network → Outcome NetworkFault (A × Network)

-- One of the caches of the network.
pub record Slot (T : Type 0) : Type 0 where
  pub read : Network → Cache T
  pub write : Cache T → Network → Network

abbrev pub side_eq : Side → Side → Bool
side_eq source source = true
side_eq destination destination = true
side_eq s t = false

abbrev pub bool_eq : Bool → Bool → Bool
bool_eq true b = b
bool_eq false true = false
bool_eq false false = true

abbrev pub src_zone_slot : Slot Zone
src_zone_slot = record { read = λ nw. nw.src_zones; write = λ c nw. record nw { src_zones = c } }

abbrev pub dst_zone_slot : Slot Zone
dst_zone_slot = record { read = λ nw. nw.dst_zones; write = λ c nw. record nw { dst_zones = c } }

abbrev pub address_slot : Side → Slot IpAddress
address_slot side = record {
  read = λ nw. nw.addresses side;
  write = λ c nw. record nw { addresses = λ s. if side_eq side s then c else nw.addresses s };
}

abbrev pub service_slot : Slot Service
service_slot = record { read = λ nw. nw.services; write = λ c nw. record nw { services = c } }

abbrev pub appsvc_slot : Slot Service
appsvc_slot = record { read = λ nw. nw.appsvcs; write = λ c nw. record nw { appsvcs = c } }

abbrev pub application_slot : Bool → Slot Application
application_slot use_app_svc = record {
  read = λ nw. nw.applications use_app_svc;
  write = λ c nw. record nw {
    applications = λ b. if bool_eq use_app_svc b then c else nw.applications b;
  };
}

abbrev pub user_slot : Slot User
user_slot = record { read = λ nw. nw.users; write = λ c nw. record nw { users = c } }

abbrev pub url_slot : Slot User
url_slot = record { read = λ nw. nw.urls; write = λ c nw. record nw { urls = c } }

-- `new`: an object at the next address.
abbrev pub allocate : Call ℕ
allocate nw = ok (nw.next_address, record nw { next_address = nw.next_address + 1 })

module _ {T : Type 0} (slot : Slot T) where
  open slot use {read, write}

  abbrev pub stored :
      T → Network → Outcome CacheFault (Cache T) → Outcome NetworkFault (T × Network)
  stored item nw (ok items) = ok (item, write items nw)
  stored item nw (err fault) = err (cache_fault fault)

  -- `cache.set(item)`.
  unfoldable pub store : String → T → Call T
  unfolding set
  store name item nw = stored item nw (set name item (read nw))

  abbrev pub found_or_make : Option T → String → Call T → Call T
  found_or_make (some item) name make nw = ok (item, nw)
  found_or_make none name make nw = make nw >>= λ r. store name r.0 r.1

  -- The frame of the functions: the object of the name, or a new one, which is stored.
  unfoldable pub register : String → Call T → Call T
  unfolding get store
  register name make nw = found_or_make (get name (read nw)) name make nw

-- The identifiers of a generator.
abbrev pub kept_ids :
    (IdGenerator → Network → Network)
    → Network
    → Outcome IdFault (ℕ × IdGenerator)
    → Outcome NetworkFault (ℕ × Network)
kept_ids write nw (ok (id, ids)) = ok (id, write ids nw)
kept_ids write nw (err fault) = err (id_fault fault)

abbrev pub ids_of : (Network → IdGenerator) → (IdGenerator → Network → Network) → String → Call ℕ
ids_of read write name nw = kept_ids write nw (get_id name (read nw))

unfoldable pub zone_id : String → Call ℕ
unfolding get_id
zone_id = ids_of (λ nw. nw.zone_ids) (λ ids nw. record nw { zone_ids = ids })

unfoldable pub app_id : String → Call ℕ
unfolding get_id
app_id = ids_of (λ nw. nw.app_ids) (λ ids nw. record nw { app_ids = ids })

unfoldable pub user_id : String → Call ℕ
unfolding get_id
user_id = ids_of (λ nw. nw.user_ids) (λ ids nw. record nw { user_ids = ids })

unfoldable pub url_id : String → Call ℕ
unfolding get_id
url_id = ids_of (λ nw. nw.url_ids) (λ ids nw. record nw { url_ids = ids })

-- An object with an identifier, at the next address.
abbrev pub with_id : {T : Type 0} → Call ℕ → (ℕ → ℕ → Network → T) → Call T
with_id ids build nw = ids nw >>= λ r. allocate r.1 >>= λ p. ok (build p.0 r.0 p.1, p.1)

unfoldable pub register_src_zone : String → Call Zone
unfolding register zone_id
register_src_zone name =
    register src_zone_slot name
      (with_id (zone_id name) (λ a id nw. create_zone Domain.src_zone a name id))

unfoldable pub register_dst_zone : String → Call Zone
unfolding register zone_id
register_dst_zone name =
    register dst_zone_slot name
      (with_id (zone_id name) (λ a id nw. create_zone Domain.dst_zone a name id))

unfoldable pub register_user : String → Call User
unfolding register user_id
register_user name =
    register user_slot name
      (with_id (user_id name) (λ a id nw. create_user a name id nw.model_options))

unfoldable pub register_url : String → Call User
unfolding register url_id
register_url name =
    register url_slot name
      (with_id (url_id name) (λ a id nw. create_url a name id nw.model_options))

abbrev pub made_service :
    Network → Outcome ServiceFault Service → Outcome NetworkFault (Service × Network)
made_service nw (ok service) = ok (service, nw)
made_service nw (err fault) = err (service_fault fault)

-- `Service::create`, at the next address.
abbrev pub make_service : String → Text → Call Service
make_service name definition nw =
    allocate nw >>= λ p. made_service p.1 (create_service p.0 name definition)

unfoldable pub register_service : String → Text → Call Service
unfolding register create_service
register_service name definition = register service_slot name (make_service name definition)

unfoldable pub register_appsvc : String → Text → Call Service
unfolding register create_service
register_appsvc name definition = register appsvc_slot name (make_service name definition)

module _ (I : Inet) where
  abbrev pub made_address :
      Network → Outcome AddressFault IpAddress → Outcome NetworkFault (IpAddress × Network)
  made_address nw (ok address) = ok (address, nw)
  made_address nw (err fault) = err (address_fault fault)

  -- `register_src_address` and `register_dst_address`.
  unfoldable pub register_address : Side → String → Text → Call IpAddress
  unfolding register create_address
  register_address side name text = register (address_slot side) name (λ nw. allocate nw >>= λ p.
      made_address p.1 (create_address I side p.0 name text nw.ip_model nw.strict_ip_parser))

module _ (L : Buddy) where
  -- The loop over the default services of an application.
  unfoldable pub add_appsvcs : List String → ServiceGroup → Call ServiceGroup
  unfolding register_appsvc
  add_appsvcs [] service_group nw = ok (service_group, nw)
  add_appsvcs (service ∷ definitions) service_group nw =
      register_appsvc service (codes service) nw >>= λ r.
      add_appsvcs definitions (add_item (service_node L) service_group r.0) r.1

  abbrev pub make_application : String → List String → Bool → Call Application
  make_application name definitions use_app_svc nw = app_id name nw >>= λ i. allocate i.1 >>= λ p.
      add_appsvcs definitions (group plain p.0 "$appsvc" nil) p.1 >>= λ g.
      allocate g.1 >>= λ a. ok (create a.0 name i.0 g.0 a.1.model_options use_app_svc, a.1)

  unfoldable pub register_application : String → List String → Bool → Call Application
  unfolding register app_id add_appsvcs
  register_application name definitions use_app_svc =
      register (application_slot use_app_svc) name (make_application name definitions use_app_svc)
