-- ===== src/FirewallFactory/Found.antt =====
-- The groups of pools that src/ostore/firewallfactory.cpp asks the network for are there: a pool is
-- registered behind its members, so that no null pointer is added to a group.
pub mod Kinds
pub mod Stores
mod Tests
use rules_analyzer.Base.{
  ◌≡◌, refl, sym, ap, ◌∙◌, Bool, true, false, if◌then◌else◌, List, [], ◌∷◌, ◌++◌, Option, none,
  some, String, Outcome, ok, err, ◌>>=◌, Bool-cases, inl, inr,
}
use rules_analyzer.Bdd.{Buddy}
use rules_analyzer.Cache.{get}
use rules_analyzer.Group.{Node, Group, group, plain, nil, add_item, add_group}
use rules_analyzer.GenericResolver.{ResolverFault, Pool, PoolMember, object, pool, Walk}
use rules_analyzer.Network.{Network, NetworkFault}
use rules_analyzer.Network.Register.{allocate}
use rules_analyzer.FirewallFactory.{
  FactoryFault, network_fault, resolver_fault, no_part, walk_unfinished, null_group, Registered,
  Kind, lifted, walked, register_member, register_members, add_pool_group, add_pool, add_found,
  add_name, add_names, build_group,
}

-- No null pointer was added.
abbrev pub NotNull {ℓ} : {A : Type ℓ} → Outcome FactoryFault A → Type 0
NotNull (ok a) = Unit
NotNull (err (network_fault fault)) = Unit
NotNull (err (resolver_fault fault)) = Unit
NotNull (err no_part) = Unit
NotNull (err walk_unfinished) = Unit
NotNull (err (null_group name)) = ⊥

pub NotNull-bind :
    {A B : Type 0} (o : Outcome FactoryFault A) (f : A → Outcome FactoryFault B)
    → NotNull o
    → ((a : A) → o ≡ ok a → NotNull (f a))
    → NotNull (o >>= f)
NotNull-bind (ok a) f h k = k a refl
NotNull-bind (err (network_fault fault)) f h k = tt
NotNull-bind (err (resolver_fault fault)) f h k = tt
NotNull-bind (err no_part) f h k = tt
NotNull-bind (err walk_unfinished) f h k = tt
NotNull-bind (err (null_group name)) f h k = h

pub NotNull-lifted : {A : Type 0} (o : Outcome NetworkFault A) → NotNull (lifted o)
NotNull-lifted (ok a) = tt
NotNull-lifted (err fault) = tt

-- What the loops need of a kind: the group of a pool is found under its name, the walk ends with the
-- pool, and no other call adds a null pointer.
pub record IsSound {T O : Type 0} (kind : Kind T O) : Type 0 where
  pub finds :
      (p : Pool) (g : Group T) (nw nw' : Network)
      → kind.register_pool p nw ≡ ok (g, nw')
      → get p.name (kind.groups.read nw') ≡ some g
  pub named : (name : String) (p : Pool) → kind.find_pool name ≡ some p → p.name ≡ name
  pub ends :
      (p : Pool) (unresolved : List String) (w : Walk O)
      → kind.resolve_pool p unresolved ≡ some (ok w)
      → (es : List (PoolMember O)) × (w.expanded_list ≡ es ++ pool p ∷ [])
  pub direct : (nw : Network) (name : String) → NotNull (kind.is_direct nw name)
  pub objects : (o : O) (nw : Network) → NotNull (kind.register_object o nw)

module _ {L : Buddy} {T O : Type 0} (node : Node L T) (kind : Kind T O) (sound : IsSound kind) where
  member-NotNull : (m : PoolMember O) (nw : Network) → NotNull (register_member node kind m nw)
  member-NotNull (pool p) nw =
      NotNull-bind (lifted (kind.register_pool p nw)) _ (NotNull-lifted (kind.register_pool p nw))
        (λ r e. tt)
  member-NotNull (object o) nw =
      NotNull-bind (kind.register_object o nw) _ (sound.objects o nw) (λ r e. tt)

  members-NotNull :
      (ms : List (PoolMember O)) (nw : Network) → NotNull (register_members node kind ms nw)
  unfolding register_members
  members-NotNull [] nw = tt
  members-NotNull (m ∷ ms) nw =
      NotNull-bind (register_member node kind m nw) _ (member-NotNull m nw)
        (λ nw' e. members-NotNull ms nw')

  one_found :
      (o : Outcome NetworkFault (Group T × Network)) (p : Pool) (nw nw' : Network)
      → kind.register_pool p nw ≡ o
      → (lifted o >>= λ r. ok r.1) ≡ ok nw'
      → (g : Group T) × (get p.name (kind.groups.read nw') ≡ some g)
  one_found (err fault) p nw nw' e h = absurd (cc)
  one_found (ok (g, nw1)) p nw nw' e h =
      let same : nw1 ≡ nw' = cc in
      (g, ap (λ n. get p.name (kind.groups.read n)) (sym same) ∙ sound.finds p g nw nw1 e)

  ended : (o : Outcome FactoryFault Network) → (o >>= λ nw. ok nw) ≡ o
  ended (ok nw) = refl
  ended (err fault) = refl

  then_found :
      (o : Outcome FactoryFault Network) (ms : List (PoolMember O)) (p : Pool) (nw' : Network)
      → ((nw : Network)
          → register_members node kind ms nw ≡ ok nw'
          → (g : Group T) × (get p.name (kind.groups.read nw') ≡ some g))
      → (o >>= λ nw. register_members node kind ms nw) ≡ ok nw'
      → (g : Group T) × (get p.name (kind.groups.read nw') ≡ some g)
  then_found (ok nw) ms p nw' found h = found nw h
  then_found (err fault) ms p nw' found h = absurd (cc)

  -- The members of a pool, which ends them, are registered: so is the pool.
  last_found :
      (es : List (PoolMember O)) (p : Pool) (nw nw' : Network)
      → register_members node kind (es ++ pool p ∷ []) nw ≡ ok nw'
      → (g : Group T) × (get p.name (kind.groups.read nw') ≡ some g)
  unfolding register_members
  last_found [] p nw nw' h =
      one_found (kind.register_pool p nw) p nw nw' refl
        (sym (ended (register_member node kind (pool p) nw)) ∙ h)
  last_found (m ∷ es) p nw nw' h =
      then_found (register_member node kind m nw) (es ++ pool p ∷ []) p nw'
        (λ nw1. last_found es p nw1 nw') h

  group-NotNull :
      (o : Option (Group T)) (name : String) (g : Group T) (unresolved : List String) (nw : Network)
      (h : Group T)
      → o ≡ some h
      → NotNull (add_pool_group node kind o name g unresolved nw)
  group-NotNull none name g unresolved nw h e = absurd (cc)
  group-NotNull (some x) name g unresolved nw h e = tt

  walked-NotNull : (o : Option (Outcome ResolverFault (Walk O))) → NotNull (walked o)
  walked-NotNull none = tt
  walked-NotNull (some (ok w)) = tt
  walked-NotNull (some (err fault)) = tt

  walked_ok :
      (o : Option (Outcome ResolverFault (Walk O))) (w : Walk O) → walked o ≡ ok w → o ≡ some (ok w)
  walked_ok none w h = absurd (cc)
  walked_ok (some (ok v)) w h = let same : v ≡ w = cc in ap (λ x. some (ok x)) same
  walked_ok (some (err fault)) w h = absurd (cc)

  pool-NotNull :
      (q : Option Pool) (name : String) (g : Group T) (unresolved : List String) (nw : Network)
      → kind.find_pool name ≡ q
      → NotNull (add_pool node kind q name g unresolved nw)
  pool-NotNull none name g unresolved nw e = tt
  pool-NotNull (some p) name g unresolved nw e =
      NotNull-bind (walked (kind.resolve_pool p unresolved)) _
        (walked-NotNull (kind.resolve_pool p unresolved))
        (λ w r.
          let (es, last) =
            sound.ends p unresolved w (walked_ok (kind.resolve_pool p unresolved) w r) in
          NotNull-bind (register_members node kind w.expanded_list nw) _
            (members-NotNull w.expanded_list nw)
            (λ nw' k.
              let (h, there) =
                last_found es p nw nw'
                  (ap (λ ms. register_members node kind ms nw) (sym last) ∙ k) in
              group-NotNull (get name (kind.groups.read nw')) name g w.unresolved nw' h
                (ap (λ n. get n (kind.groups.read nw')) (sym (sound.named name p e)) ∙ there)))

  found-NotNull :
      (o : Option O) (name : String) (g : Group T) (unresolved : List String) (nw : Network)
      → NotNull (add_found node kind o name g unresolved nw)
  found-NotNull (some o) name g unresolved nw =
      NotNull-bind (kind.register_object o nw) _ (sound.objects o nw) (λ r e. tt)
  found-NotNull none name g unresolved nw =
      pool-NotNull (kind.find_pool name) name g unresolved nw refl

  name-NotNull :
      (name : String) (g : Group T) (unresolved : List String) (nw : Network)
      → NotNull (add_name node kind name g unresolved nw)
  unfolding add_name
  name-NotNull name g unresolved nw =
      NotNull-bind (kind.is_direct nw name) _ (sound.direct nw name) (λ direct e.
        elim (Bool-cases direct) [
          | inl here ↦ rw here (
              NotNull-bind (lifted (kind.register_direct name nw)) _
                (NotNull-lifted (kind.register_direct name nw)) (λ r k. tt))
          | inr other ↦ rw other (found-NotNull (kind.find_object name) name g unresolved nw)
        ])

  names-NotNull :
      (names : List String) (g : Group T) (unresolved : List String) (nw : Network)
      → NotNull (add_names node kind names g unresolved nw)
  unfolding add_names
  names-NotNull [] g unresolved nw = tt
  names-NotNull (name ∷ names) g unresolved nw =
      NotNull-bind (add_name node kind name g unresolved nw) _ (name-NotNull name g unresolved nw)
        (λ r e. names-NotNull names r.0 r.1 r.2)

  pub build_group-NotNull :
      (names unresolved : List String) (nw : Network)
      → NotNull (build_group node kind names unresolved nw)
  unfolding build_group
  build_group-NotNull names unresolved nw =
      NotNull-bind (lifted (allocate nw)) _ (NotNull-lifted (allocate nw))
        (λ p e. names-NotNull names (group plain p.0 "$root" nil) unresolved p.1)
