-- ===== src/Network.antt =====
-- src/model/network.h and src/model/network.cpp: the network owns the firewalls and the caches of the
-- objects that their rules name. An exception is a fault; what it leaves behind is not modelled.
pub mod Register
pub mod Groups
pub mod Zones
use text.Mathlib.Text.{◌==◌ as str_eq}
use rules_analyzer.Base.{
  ℕ, ◌+◌, Bool, true, false, if◌then◌else◌, List, [], ◌∷◌, Option, none, some, String, Outcome, ok,
  err, ◌>>=◌,
}
use rules_analyzer.Cache.{Cache, CacheFault, get, set}
use rules_analyzer.IdGenerator.{IdGenerator, IdFault, new_generator}
use rules_analyzer.Domain.{max_value}
use rules_analyzer.Domain
use rules_analyzer.Options.{Enum, ModelOption, ModelOptions, application, user, url, empty, add}
use rules_analyzer.Zone.{Zone, any_zone}
use rules_analyzer.Address.{
  Side, source, destination, IpAddress, AddressGroup, IpAddressModel, ip4_model, ip6_model,
  ip64_model, any4, any6,
}
use rules_analyzer.AddressParser.{AddressFault}
use rules_analyzer.Service.{Service, ServiceGroup, any_service}
use rules_analyzer.ServiceParser.{ServiceFault}
use rules_analyzer.Application.{Application, ApplicationGroup, any_application}
use rules_analyzer.User.{User, UserGroup, any_user, any_url}
use rules_analyzer.Firewall.{Firewall}

-- The exceptions, and a group that would hold itself.
pub data NetworkFault : Type 0 where
  id_fault : IdFault → NetworkFault
  cache_fault : CacheFault → NetworkFault
  address_fault : AddressFault → NetworkFault
  service_fault : ServiceFault → NetworkFault
  cyclic_group : String → NetworkFault

-- The fields of the class, with the configuration, and the address of the next object. The arrays of
-- two caches are indexed by `use_app_svc`.
pub record Network : Type 0 where
  pub ip_model : IpAddressModel
  pub strict_ip_parser : Bool
  pub firewalls : Cache Firewall
  pub src_zones : Cache Zone
  pub dst_zones : Cache Zone
  pub addresses : Side → Cache IpAddress
  pub address_groups : Side → Cache AddressGroup
  pub services : Cache Service
  pub service_groups : Cache ServiceGroup
  pub applications : Bool → Cache Application
  pub application_groups : Bool → Cache ApplicationGroup
  pub appsvcs : Cache Service
  pub users : Cache User
  pub user_groups : Cache UserGroup
  pub urls : Cache User
  pub url_groups : Cache UserGroup
  pub zone_ids : IdGenerator
  pub app_ids : IdGenerator
  pub user_ids : IdGenerator
  pub url_ids : IdGenerator
  pub model_options : ModelOptions
  pub next_address : ℕ

-- The addresses that a new network knows: `any`, or one for each family. The names differ, so each
-- `set` succeeds.
abbrev pub first_addresses : IpAddressModel → ℕ → Side → Cache IpAddress
first_addresses ip4_model a side = ("any", any4 side a ip4_model) ∷ []
first_addresses ip6_model a side = ("any", any6 side a ip6_model) ∷ []
first_addresses ip64_model a side =
    ("any6", any6 side (a + 1) ip64_model) ∷ ("any4", any4 side a ip64_model) ∷ []

abbrev side_offset : Side → ℕ
side_offset source = 0
side_offset destination = 2

abbrev option_eq : ModelOption → ModelOption → Bool
option_eq application application = true
option_eq user user = true
option_eq url url = true
option_eq o option = false

abbrev model_enum : Enum ModelOption
model_enum = record { eq = option_eq }

-- The constructor.
unfoldable pub new_network : IpAddressModel → Bool → Network
new_network ip_model strict = record {
  ip_model = ip_model;
  strict_ip_parser = strict;
  firewalls = [];
  src_zones = ("any", any_zone Domain.src_zone 1) ∷ [];
  dst_zones = ("any", any_zone Domain.dst_zone 2) ∷ [];
  addresses = λ side. first_addresses ip_model (3 + side_offset side) side;
  address_groups = λ side. [];
  services = ("any", any_service 7) ∷ [];
  service_groups = [];
  applications = λ use_app_svc.
      if use_app_svc
      then ("any", any_application 8 9 10) ∷ []
      else ("any", any_application 11 12 13) ∷ [];
  application_groups = λ use_app_svc. [];
  appsvcs = ("any", any_service 14) ∷ [];
  users = ("any", any_user 15) ∷ [];
  user_groups = [];
  urls = ("any", any_url 16) ∷ [];
  url_groups = [];
  zone_ids = new_generator (max_value Domain.src_zone);
  app_ids = new_generator (max_value Domain.application);
  user_ids = new_generator (max_value Domain.user);
  url_ids = new_generator (max_value Domain.url);
  model_options = add model_enum (add model_enum (add model_enum empty application) user) url;
  next_address = 17;
}

-- `_firewalls[name] = ...` and `_firewalls.erase(name)`.
abbrev pub put_firewall : String → Firewall → Cache Firewall → Cache Firewall
put_firewall name fw [] = (name, fw) ∷ []
put_firewall name fw ((key, old) ∷ fws) =
    if str_eq key name then (name, fw) ∷ fws else (key, old) ∷ put_firewall name fw fws

abbrev pub erase_firewall : String → Cache Firewall → Cache Firewall
erase_firewall name [] = []
erase_firewall name ((key, fw) ∷ fws) =
    if str_eq key name then fws else (key, fw) ∷ erase_firewall name fws

unfoldable pub add_firewall : Firewall → Network → Network
add_firewall fw nw = record nw { firewalls = put_firewall fw.name fw nw.firewalls }

unfoldable pub del_firewall : String → Network → Network
del_firewall name nw = record nw { firewalls = erase_firewall name nw.firewalls }

unfoldable pub get_firewall : String → Network → Option Firewall
unfolding get
get_firewall name nw = get name nw.firewalls

-- `get_application` and `get_application_group` of a name: the objects that use the default services
-- come first.
abbrev pub first_of {ℓ} : {T : Type ℓ} → Option T → Option T → Option T
first_of none other = other
first_of (some t) other = some t

unfoldable pub get_application : String → Network → Option Application
unfolding get
get_application name nw =
    first_of (get name (nw.applications true)) (get name (nw.applications false))

unfoldable pub get_application_group : String → Network → Option ApplicationGroup
unfolding get
get_application_group name nw =
    first_of (get name (nw.application_groups true)) (get name (nw.application_groups false))
