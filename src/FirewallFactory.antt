-- ===== src/FirewallFactory.antt =====
-- src/ostore/firewallfactory.cpp: the names of a rule are looked up in the object store, and registered
-- in the network. The names of a rule that are not found go to the status.
pub mod Kinds
pub mod Status
pub mod Builds
pub mod Rules
pub mod Found
mod Tests
use text.Mathlib.Text.{◌==◌ as str_eq}
use rules_analyzer.Base.{
  ℕ, Bool, true, false, if◌then◌else◌, List, [], ◌∷◌, ◌++◌, Option, none, some, String, Outcome, ok,
  err, ◌>>=◌,
}
use rules_analyzer.Bdd.{Buddy}
use rules_analyzer.Cache.{get}
use rules_analyzer.Group.{Node, Group, group, plain, nil, add_item, add_group}
use rules_analyzer.GenericResolver.{Pool, PoolMember, object, pool, Walk, ResolverFault, resolve}
use rules_analyzer.Network.{Network, NetworkFault}
use rules_analyzer.Network.Register.{Call, Slot, allocate}
use rules_analyzer.ObjectStore.{Resolved}

-- The exceptions, a test that needs a part of a text where there is none, a walk of a resolver that
-- does not end, which there is none of, and the null pointer of a group that is not in its cache.
pub data FactoryFault : Type 0 where
  network_fault : NetworkFault → FactoryFault
  resolver_fault : ResolverFault → FactoryFault
  no_part walk_unfinished : FactoryFault
  null_group : String → FactoryFault

-- What is registered for an object: an item, or a group of its several definitions.
pub data Registered (T : Type 0) : Type 0 where
  one : T → Registered T
  multi : Group T → Registered T

-- What the loops over the names of a rule differ in: the names that need no object, the look ups in the
-- store, and the calls of the network.
pub record Kind (T O : Type 0) : Type 0 where
  pub is_direct : Network → String → Outcome FactoryFault Bool
  pub register_direct : String → Call T
  pub find_object : String → Option O
  pub find_pool : String → Option Pool
  pub resolve_pool : Pool → List String → Resolved O
  pub register_object : O → Network → Outcome FactoryFault (Registered T × Network)
  pub register_pool : Pool → Call (Group T)
  pub groups : Slot (Group T)

abbrev pub lifted {ℓ} : {A : Type ℓ} → Outcome NetworkFault A → Outcome FactoryFault A
lifted (ok a) = ok a
lifted (err fault) = err (network_fault fault)

abbrev pub walked : {O : Type 0} → Resolved O → Outcome FactoryFault (Walk O)
walked none = err walk_unfinished
walked (some (ok w)) = ok w
walked (some (err fault)) = err (resolver_fault fault)

module _ {L : Buddy} {T O : Type 0} (node : Node L T) (kind : Kind T O) where
  open kind use {
    is_direct, register_direct, find_object, find_pool, resolve_pool, register_object,
    register_pool, groups,
  }

  -- The group of a rule, the names that are not resolved, and the network.
  abbrev pub Building : Type 0
  Building = Group T × List String × Network

  abbrev pub add_registered : Group T → List String → Registered T × Network → Building
  add_registered g unresolved (one t, nw) = (add_item node g t, unresolved, nw)
  add_registered g unresolved (multi h, nw) = (add_group g h, unresolved, nw)

  abbrev pub register_member : PoolMember O → Network → Outcome FactoryFault Network
  register_member (pool p) nw = lifted (register_pool p nw) >>= λ r. ok r.1
  register_member (object o) nw = register_object o nw >>= λ r. ok r.1

  -- The loop over the members of a pool.
  unfoldable pub register_members : List (PoolMember O) → Network → Outcome FactoryFault Network
  register_members [] nw = ok nw
  register_members (m ∷ ms) nw = register_member m nw >>= λ nw'. register_members ms nw'

  -- `group->add_member(nw.get_..._group(name))`.
  abbrev pub add_pool_group :
      Option (Group T) → String → Group T → List String → Network → Outcome FactoryFault Building
  add_pool_group none name g unresolved nw = err (null_group name)
  add_pool_group (some h) name g unresolved nw = ok (add_group g h, unresolved, nw)

  abbrev pub add_pool :
      Option Pool → String → Group T → List String → Network → Outcome FactoryFault Building
  add_pool none name g unresolved nw = ok (g, unresolved ++ name ∷ [], nw)
  add_pool (some p) name g unresolved nw = walked (resolve_pool p unresolved) >>= λ w.
      register_members w.expanded_list nw >>= λ nw'.
      add_pool_group (get name (groups.read nw')) name g w.unresolved nw'

  abbrev pub add_found :
      Option O → String → Group T → List String → Network → Outcome FactoryFault Building
  add_found (some o) name g unresolved nw =
      register_object o nw >>= λ r. ok (add_registered g unresolved r)
  add_found none name g unresolved nw = add_pool (find_pool name) name g unresolved nw

  -- The body of the loop over the names of a rule.
  unfoldable pub add_name : String → Group T → List String → Network → Outcome FactoryFault Building
  unfolding register_members get
  add_name name g unresolved nw = is_direct nw name >>= λ direct.
      if direct
      then (lifted (register_direct name nw) >>= λ r. ok (add_item node g r.0, unresolved, r.1))
      else add_found (find_object name) name g unresolved nw

  unfoldable pub add_names :
      List String → Group T → List String → Network → Outcome FactoryFault Building
  unfolding add_name
  add_names [] g unresolved nw = ok (g, unresolved, nw)
  add_names (name ∷ names) g unresolved nw =
      add_name name g unresolved nw >>= λ (g', unresolved', nw'). add_names names g' unresolved' nw'

  -- A new group, `$root`, of the names.
  unfoldable pub build_group : List String → List String → Network → Outcome FactoryFault Building
  unfolding add_names
  build_group names unresolved nw =
      lifted (allocate nw) >>= λ p. add_names names (group plain p.0 "$root" nil) unresolved p.1
