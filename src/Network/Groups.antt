-- ===== src/Network/Groups.antt =====
-- The functions of src/model/network.cpp that register a group. The source puts an empty group in its
-- cache and fills it there; a group is filled here in front of the write, so that a group which asks
-- for itself is told apart as a fault.
mod Tests
use text.Mathlib.Text.{◌==◌ as str_eq}
use rules_analyzer.Base.{
  ℕ, ◌+◌, Bool, if◌then◌else◌, List, [], ◌∷◌, Option, none, some, String, ok, err, ◌>>=◌,
}
use rules_analyzer.Strutil.{codes}
use rules_analyzer.Bdd.{Buddy}
use rules_analyzer.Cache.{Cache, get}
use rules_analyzer.Format.{Format}
use rules_analyzer.Group.{Node, Group, group, plain, nil, add_item, add_group}
use rules_analyzer.Zone.{Zone, zone_node}
use rules_analyzer.Address.{Side, IpAddress, AddressGroup, address_node}
use rules_analyzer.IpConvertor.{Inet}
use rules_analyzer.Service.{Service, ServiceGroup, service_node}
use rules_analyzer.Application.{Application, ApplicationGroup, application_node}
use rules_analyzer.User.{User, UserGroup, user_node, url_node}
use rules_analyzer.Network.{Network, cyclic_group}
use rules_analyzer.Network.Register.{
  Call, Slot, allocate, register, side_eq, bool_eq, address_slot, service_slot, application_slot,
  user_slot, url_slot, register_address, register_service,
}

abbrev pub address_group_slot : Side → Slot AddressGroup
address_group_slot side = record {
  read = λ nw. nw.address_groups side;
  write =
      λ c nw. record nw { address_groups = λ s. if side_eq side s then c else nw.address_groups s };
}

abbrev pub service_group_slot : Slot ServiceGroup
service_group_slot = record {
  read = λ nw. nw.service_groups;
  write = λ c nw. record nw { service_groups = c };
}

abbrev pub application_group_slot : Bool → Slot ApplicationGroup
application_group_slot use_app_svc = record {
  read = λ nw. nw.application_groups use_app_svc;
  write = λ c nw. record nw {
    application_groups = λ b. if bool_eq use_app_svc b then c else nw.application_groups b;
  };
}

abbrev pub user_group_slot : Slot UserGroup
user_group_slot = record {
  read = λ nw. nw.user_groups;
  write = λ c nw. record nw { user_groups = c };
}

abbrev pub url_group_slot : Slot UserGroup
url_group_slot = record { read = λ nw. nw.url_groups; write = λ c nw. record nw { url_groups = c } }

module _ {L : Buddy} {T : Type 0} (node : Node L T) where
  -- The loop over the definitions of an object with several: each is registered under the name with
  -- its index.
  unfoldable pub add_indexed :
      (String → ℕ → String)
      → (String → String → Call T)
      → String
      → ℕ
      → List String
      → Group T
      → Call (Group T)
  add_indexed indexed register_item name idx [] g nw = ok (g, nw)
  add_indexed indexed register_item name idx (definition ∷ definitions) g nw =
      register_item (indexed name idx) definition nw >>= λ r.
      add_indexed indexed register_item name (idx + 1) definitions (add_item node g r.0) r.1

  -- What a name of a member adds to a group: an object, a group, or nothing.
  abbrev pub add_found : String → Bool → Option T → Option (Group T) → Group T → Call (Group T)
  add_found member itself (some t) sub_group g nw = ok (add_item node g t, nw)
  add_found member itself none sub_group g nw =
      if itself
      then err (cyclic_group member)
      else elim sub_group [ none ↦ ok (g, nw) | some h ↦ ok (add_group g h, nw) ]

  -- The loop over the members of a group, which have been registered before.
  unfoldable pub add_members :
      Slot T → Slot (Group T) → String → List String → Group T → Call (Group T)
  unfolding get
  add_members items groups name [] g nw = ok (g, nw)
  add_members items groups name (member ∷ members) g nw =
      add_found member (str_eq member name) (get member (items.read nw))
        (get member (groups.read nw)) g nw
      >>= λ r. add_members items groups name members r.0 r.1

  unfoldable pub register_multi :
      (String → ℕ → String)
      → (String → String → Call T)
      → Slot (Group T)
      → String
      → List String
      → Call (Group T)
  unfolding register add_indexed
  register_multi indexed register_item groups name definitions = register groups name (λ nw.
      allocate nw >>= λ p.
      add_indexed indexed register_item name 0 definitions (group plain p.0 name nil) p.1)

  unfoldable pub register_group : Slot T → Slot (Group T) → String → List String → Call (Group T)
  unfolding register add_members
  register_group items groups name members = register groups name (λ nw.
      allocate nw >>= λ p. add_members items groups name members (group plain p.0 name nil) p.1)

module _ (L : Buddy) (F : Format) where
  -- `register_src_multi_address` and `register_dst_multi_address`.
  unfoldable pub register_multi_address : Inet → Side → String → List String → Call AddressGroup
  unfolding register_multi register_address
  register_multi_address I side =
      register_multi (address_node L) F.indexed
        (λ name definition. register_address I side name (codes definition))
        (address_group_slot side)

  unfoldable pub register_multi_service : String → List String → Call ServiceGroup
  unfolding register_multi register_service
  register_multi_service =
      register_multi (service_node L) F.indexed
        (λ name definition. register_service name (codes definition)) service_group_slot

module _ (L : Buddy) where
  -- `register_src_address_group` and `register_dst_address_group`.
  unfoldable pub register_address_group : Side → String → List String → Call AddressGroup
  unfolding register_group
  register_address_group side =
      register_group (address_node L) (address_slot side) (address_group_slot side)

  unfoldable pub register_service_group : String → List String → Call ServiceGroup
  unfolding register_group
  register_service_group = register_group (service_node L) service_slot service_group_slot

  unfoldable pub register_application_group : String → List String → Bool → Call ApplicationGroup
  unfolding register_group
  register_application_group name members use_app_svc =
      register_group (application_node L) (application_slot use_app_svc)
        (application_group_slot use_app_svc) name members

  unfoldable pub register_user_group : String → List String → Call UserGroup
  unfolding register_group
  register_user_group = register_group (user_node L) user_slot user_group_slot

  unfoldable pub register_url_group : String → List String → Call UserGroup
  unfolding register_group
  register_url_group = register_group (url_node L) url_slot url_group_slot
