-- ===== src/ObjectStore/AddressRows.antt =====
-- The `make_object` of src/ostore/addressobjects.cpp: an address object from the name, the type and the
-- address of a row, or none, with a warning, where the row is skipped.
use rules_analyzer.Base.{
  ℕ, ◌==◌, Bool, true, false, not, ◌&&◌, ◌||◌, if◌then◌else◌, List, [], ◌∷◌, map, length, Option,
  none, some, Outcome, ok, err,
}
use rules_analyzer.Strutil.{Text, codes}
use rules_analyzer.Strutil.Case.{iequal}
use rules_analyzer.Strutil.Spell.{spell}
use rules_analyzer.Split.{split, trim}
use rules_analyzer.Address.{IpAddressType, subnet, range, IpAddressModel}
use rules_analyzer.IpConvertor.{Inet}
use rules_analyzer.Ipv4Parser.{IpFault, parts_of}
use rules_analyzer.AddressParser.{is_ip_address, get_ip_address_type}
use rules_analyzer.ObjectStore.{AddressType, ipmask, iprange, fqdn, AddressObject}

abbrev pub is_netmask : IpAddressType → Bool
is_netmask IpAddressType.address = true
is_netmask subnet = true
is_netmask range = false

abbrev pub is_range : IpAddressType → Bool
is_range IpAddressType.address = false
is_range subnet = false
is_range range = true

unfoldable pub is_ip_mask : Text → Bool
unfolding iequal
is_ip_mask str = iequal str (codes "ipmask") || iequal str (codes "IP netmask")

unfoldable pub is_ip_range : Text → Bool
unfolding iequal
is_ip_range str = iequal str (codes "iprange") || iequal str (codes "IP range")

abbrev object_of : Text → AddressType → List Text → Option AddressObject
object_of name type addresses =
    some (record { name = spell name; type = type; addresses = map spell addresses })

abbrev same_kind : Bool → Bool → Bool
same_kind true b = b
same_kind false b = not b

-- A test of the type of an address; an IPAddressError skips the row, like an address of another type.
abbrev passes : (IpAddressType → Bool) → Outcome IpFault IpAddressType → Bool
passes test (ok type) = test type
passes test (err fault) = false

-- The return at the end of a line of a file that was made on Windows.
abbrev drop_return : Text → Text
drop_return [] = []
drop_return (c ∷ []) = if c == 13 then [] else c ∷ []
drop_return (c ∷ d ∷ cs) = c ∷ drop_return (d ∷ cs)

-- An address of a row is read past a missing part.
pub data AddressRowFault : Type 0 where
  no_address : AddressRowFault

abbrev pub MadeAddress : Type 0
MadeAddress = Outcome AddressRowFault (Option AddressObject)

module _ (I : Inet) (ip_model : IpAddressModel) (strict : Bool) where
  abbrev type_at : Text → Outcome IpFault IpAddressType
  type_at addr = get_ip_address_type I addr ip_model strict

  -- The loop over the addresses of a row.
  unfoldable pub all_pass : (IpAddressType → Bool) → List Text → Bool
  unfolding get_ip_address_type
  all_pass test [] = true
  all_pass test (addr ∷ addresses) =
      let rest = all_pass test addresses in if passes test (type_at addr) then rest else false

  abbrev made_if : Bool → Text → AddressType → List Text → MadeAddress
  made_if false name type addresses = ok none
  made_if true name type addresses = ok (object_of name type addresses)

  -- A row without a type takes the kind of its first address.
  abbrev like_first : Text → List Text → Outcome IpFault IpAddressType → MadeAddress
  like_first name addresses (err fault) = ok none
  like_first name addresses (ok first) =
      made_if (all_pass (λ t. same_kind (is_netmask first) (is_netmask t)) addresses) name
        (if is_netmask first then ipmask else iprange) addresses

  -- One address that is no IP address is a host name.
  unfoldable pub make_untyped : Text → List Text → MadeAddress
  unfolding all_pass is_ip_address
  make_untyped name [] = err no_address
  make_untyped name (addr ∷ []) =
      if not (is_ip_address I addr ip_model strict)
      then ok (object_of name fqdn (addr ∷ []))
      else like_first name (addr ∷ []) (type_at addr)
  make_untyped name (addr ∷ other ∷ addresses) =
      like_first name (addr ∷ other ∷ addresses) (type_at addr)

  abbrev listed : Text → Bool
  listed line = is_ip_address I line ip_model strict && passes is_netmask (type_at line)

  -- The loop over the lines of a file, which skips empty lines and those that are no address.
  unfoldable pub listed_lines : List Text → List Text
  unfolding is_ip_address get_ip_address_type
  listed_lines [] = []
  listed_lines (line ∷ lines) =
      let rest = listed_lines lines in
      let addr = trim line in
      if length addr == 0
      then rest
      else if listed (drop_return addr)
      then drop_return addr ∷ rest
      else rest

  abbrev made_listed : Text → List Text → MadeAddress
  made_listed name [] = ok none
  made_listed name (a ∷ addresses) = ok (object_of name ipmask (a ∷ addresses))

  -- A file that cannot be opened makes no object.
  abbrev make_listed : Text → Option (List Text) → MadeAddress
  make_listed name none = ok none
  make_listed name (some lines) = made_listed name (listed_lines lines)

  module _ (delim : ℕ) (read_file : Text → Option (List Text)) where
    abbrev make_named : Text → Text → Text → MadeAddress
    make_named name type value =
        let parts = parts_of (split value delim) in
        if is_ip_mask type
        then made_if (all_pass is_netmask parts) name ipmask parts
        else if is_ip_range type
        then made_if (all_pass is_range parts) name iprange parts
        else if iequal type (codes "fqdn")
        then ok (object_of name fqdn (value ∷ []))
        else if iequal type (codes "file")
        then make_listed name (read_file value)
        else if iequal type []
        then make_untyped name parts
        else ok none

    -- A row without a name or without an address is skipped. The constructor asserts that an object has
    -- an address; here, as without assertions, it is made.
    unfoldable pub make_address_object : List Text → MadeAddress
    unfolding split is_ip_mask is_ip_range iequal all_pass make_untyped listed_lines
    make_address_object ((c ∷ name) ∷ type ∷ (d ∷ value) ∷ []) =
        make_named (c ∷ name) type (d ∷ value)
    make_address_object values = ok none
