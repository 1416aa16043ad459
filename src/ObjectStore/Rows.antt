-- ===== src/ObjectStore/Rows.antt =====
-- The `make_object` of the dictionaries of src/ostore: the object of the row of a file, or none, with a
-- warning, where the row is skipped.
use rules_analyzer.Base.{
  ℕ, Bool, true, false, ◌||◌, if◌then◌else◌, List, [], ◌∷◌, any, Option, none, some, String,
  Outcome, ok, err, ◌>>=◌,
}
use text.Mathlib.Text.{◌==◌ as str_eq}
use rules_analyzer.Strutil.{Text, codes}
use rules_analyzer.Strutil.Spell.{spell}
use rules_analyzer.Split.{split}
use rules_analyzer.PolicyReader.{parts_of}
use rules_analyzer.Cache.{Cache}
use rules_analyzer.GenericResolver.{Pool}
use rules_analyzer.ObjectDictionary.{get}
use rules_analyzer.ServiceParser.{
  ServiceFault, service_error, no_part, ServiceSpec, parse_protocol_port,
}
use rules_analyzer.ObjectStore.{ServiceObject}

-- What `load` does not catch: an object without a service, and a service without a part.
pub data RowFault : Type 0 where
  no_service : String → RowFault
  no_service_part : RowFault

abbrev pub Made : Type 0 → Type 0
Made T = Outcome RowFault (Option T)

abbrev reserved : String → Bool
reserved name = any (str_eq name) ("icmp" ∷ "udp" ∷ "tcp" ∷ "any" ∷ [])

-- A parsed service lets the loop go on; an error of the parser skips the row.
abbrev is_parsed : Outcome ServiceFault ServiceSpec → Outcome RowFault Bool
is_parsed (ok spec) = ok true
is_parsed (err service_error) = ok false
is_parsed (err no_part) = err no_service_part

-- The loop over the services of a row, where some names are not checked.
unfoldable pub all_parsed : (String → Bool) → List String → Outcome RowFault Bool
unfolding parse_protocol_port
all_parsed known [] = ok true
all_parsed known (service ∷ services) =
    let rest = all_parsed known services in
    if str_eq service "any" || known service
    then rest
    else (is_parsed (parse_protocol_port (codes service)) >>= λ b. if b then rest else ok false)

-- The constructor of an object with services.
abbrev built : String → List String → Outcome RowFault (Option ServiceObject)
built name [] = err (no_service name)
built name (service ∷ services) = ok (some (record { name = name; services = service ∷ services }))

abbrev made_of : String → (String → Bool) → List String → Made ServiceObject
made_of name known services =
    all_parsed known services >>= λ b. if b then built name services else ok none

-- The rows of services and of applications. An application may name a service of the dictionary.
abbrev make_with : (String → Bool) → ℕ → List Text → Made ServiceObject
make_with known delim ((c ∷ name) ∷ (d ∷ value) ∷ []) =
    if reserved (spell (c ∷ name))
    then ok none
    else made_of (spell (c ∷ name)) known (parts_of (split (d ∷ value) delim))
make_with known delim values = ok none

unfoldable pub make_service_object : ℕ → List Text → Made ServiceObject
unfolding all_parsed split
make_service_object = make_with (λ service. false)

abbrev is_found {ℓ} : {A : Type ℓ} → Option A → Bool
is_found none = false
is_found (some a) = true

unfoldable pub make_application_object : Cache ServiceObject → ℕ → List Text → Made ServiceObject
unfolding all_parsed split get
make_application_object services = make_with (λ service. is_found (get service services))

-- The rows of pools of every kind.
unfoldable pub make_pool : ℕ → List Text → Option Pool
unfolding split
make_pool delim ((c ∷ name) ∷ (d ∷ value) ∷ []) =
    some (record { name = spell (c ∷ name); members = parts_of (split (d ∷ value) delim) })
make_pool delim values = none

-- The rows of users and of URLs.
unfoldable pub make_name : List Text → Option String
make_name ((c ∷ name) ∷ []) =
    if str_eq (spell (c ∷ name)) "any" then none else some (spell (c ∷ name))
make_name values = none
