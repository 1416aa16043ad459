-- ===== src/ObjectStore/Tests.antt =====
-- Rows of services and addresses, and the store after clear.
use rules_analyzer.Base.{◌≡◌, refl, true, [], ◌∷◌, Option, some, none, ok, err, List}
use rules_analyzer.Strutil.{Text, codes}
use rules_analyzer.Strutil.Case.{iequal}
use rules_analyzer.Strutil.Numbers.{str2num}
use rules_analyzer.Address.{ip4_model, ip64_model}
use rules_analyzer.IpConvertor.Unary.{unary}
use rules_analyzer.ServiceParser.{parse_port_range}
use rules_analyzer.ObjectDictionary.{get}
use rules_analyzer.ObjectStore.{fqdn, cleared}
use rules_analyzer.ObjectStore.Rows.{make_service_object, make_pool, no_service}
use rules_analyzer.ObjectStore.AddressRows.{make_address_object}

abbrev no_file : Text → Option (List Text)
no_file name = none

service_row :
    make_service_object 59 (codes "web" ∷ codes "tcp/80;tcp/443" ∷ [])
    ≡ ok (some (record { name = "web"; services = "tcp/80" ∷ "tcp/443" ∷ [] }))
unfolding make_service_object iequal parse_port_range str2num
service_row = refl

bad_service_row : make_service_object 59 (codes "web" ∷ codes "tcp/99999" ∷ []) ≡ ok none
unfolding make_service_object iequal parse_port_range str2num
bad_service_row = refl

-- Delimiters only are no service: the constructor throws, and nothing catches it.
empty_service_row : make_service_object 59 (codes "web" ∷ codes ";" ∷ []) ≡ err (no_service "web")
unfolding make_service_object
empty_service_row = refl

pool_row :
    make_pool 59 (codes "servers" ∷ codes "web;mail" ∷ [])
    ≡ some (record { name = "servers"; members = "web" ∷ "mail" ∷ [] })
unfolding make_pool
pool_row = refl

host_row :
    make_address_object unary ip4_model true 59 no_file
      (codes "host" ∷ [] ∷ codes "www.example.com" ∷ [])
    ≡ ok (some (record { name = "host"; type = fqdn; addresses = "www.example.com" ∷ [] }))
unfolding make_address_object
host_row = refl

any_pool :
    get "any" (cleared ip64_model).address_pools
    ≡ some (record { name = "any"; members = "any4" ∷ "any6" ∷ [] })
unfolding get cleared
any_pool = refl
