-- ===== src/FirewallFactory/Found/Kinds.antt =====
-- The names of every kind of src/ostore/firewallfactory.cpp, in a store whose pools have their keys as
-- names: the groups of their pools are found.
use rules_analyzer.Base.{
  ◌≡◌, refl, Bool, true, false, List, [], ◌∷◌, Option, some, String, Outcome, ok, err, Bool-cases,
  inl, inr,
}
use rules_analyzer.Strutil.{codes}
use rules_analyzer.Bdd.{Buddy}
use rules_analyzer.Format.{Format}
use rules_analyzer.IpConvertor.{Inet}
use rules_analyzer.Cache.{Cache}
use rules_analyzer.Group.{Group}
use rules_analyzer.Address.{Side, source, destination, address_node}
use rules_analyzer.Service.{service_node}
use rules_analyzer.ServiceParser.{ServiceFault, is_protocol_port}
use rules_analyzer.Application.{application_node}
use rules_analyzer.User.{user_node, url_node}
use rules_analyzer.GenericResolver.{Pool}
use rules_analyzer.GenericResolver.Expansion.{resolve-Expands}
use rules_analyzer.ObjectDictionary.{get}
use rules_analyzer.ObjectStore.{
  AddressObject, ObjectStore, is_multi_address, is_multi_service, get_address, resolve_address_pool,
  resolve_service_pool, resolve_application_pool, resolve_user_pool, resolve_url_pool,
}
use rules_analyzer.Network.{Network, NetworkFault}
use rules_analyzer.Network.Register.Slots.{Lawful, register_answers}
use rules_analyzer.Network.Groups.{
  address_group_slot, service_group_slot, application_group_slot, user_group_slot, url_group_slot,
  register_group, register_address_group, register_service_group, register_application_group,
  register_user_group, register_url_group,
}
use rules_analyzer.FirewallFactory.{build_group}
use rules_analyzer.FirewallFactory.Kinds.{
  address_kind, service_kind, application_kind, user_kind, url_kind, tested, resolve_app_services,
  as_one, as_multi,
}
use rules_analyzer.FirewallFactory.Found.{NotNull, NotNull-bind, IsSound, build_group-NotNull}

abbrev pub HasNames : Cache Pool → Type 0
HasNames pools = (name : String) (p : Pool) → get name pools ≡ some p → p.name ≡ name

-- Each dictionary of pools has its pools under their names, as `add` puts them there.
pub record IsNamed (store : ObjectStore) : Type 0 where
  pub address_pools : HasNames store.address_pools
  pub service_pools : HasNames store.service_pools
  pub application_pools : HasNames store.application_pools
  pub user_pools : HasNames store.user_pools
  pub url_pools : HasNames store.url_pools

tested-NotNull : (o : Outcome ServiceFault Bool) → NotNull (tested o)
tested-NotNull (ok b) = tt
tested-NotNull (err fault) = tt

as_one-NotNull : {T : Type 0} (o : Outcome NetworkFault (T × Network)) → NotNull (as_one o)
as_one-NotNull (ok r) = tt
as_one-NotNull (err fault) = tt

as_multi-NotNull :
    {T : Type 0} (o : Outcome NetworkFault (Group T × Network)) → NotNull (as_multi o)
as_multi-NotNull (ok r) = tt
as_multi-NotNull (err fault) = tt

address_group-Lawful : (side : Side) → Lawful (address_group_slot side)
address_group-Lawful source c nw = refl
address_group-Lawful destination c nw = refl

application_group-Lawful : (b : Bool) → Lawful (application_group_slot b)
application_group-Lawful true c nw = refl
application_group-Lawful false c nw = refl

module _ (L : Buddy) (F : Format) (I : Inet) (store : ObjectStore) (w : IsNamed store) where
  user-IsSound : IsSound (user_kind L F I store)
  unfolding register_user_group register_group resolve_user_pool
  user-IsSound = record {
    finds = λ p g nw nw' h. register_answers user_group_slot (λ c n. refl) p.name _ g nw nw' h;
    named = w.user_pools;
    ends = λ p unresolved v h.
        let (es, us, x, e, k) =
          resolve-Expands (λ n. get n store.users) store.user_pools p unresolved v h in
        (es, e);
    direct = λ nw name. tt;
    objects = λ o nw. as_one-NotNull _;
  }

  url-IsSound : IsSound (url_kind L F I store)
  unfolding register_url_group register_group resolve_url_pool
  url-IsSound = record {
    finds = λ p g nw nw' h. register_answers url_group_slot (λ c n. refl) p.name _ g nw nw' h;
    named = w.url_pools;
    ends = λ p unresolved v h.
        let (es, us, x, e, k) =
          resolve-Expands (λ n. get n store.urls) store.url_pools p unresolved v h in
        (es, e);
    direct = λ nw name. tt;
    objects = λ o nw. as_one-NotNull _;
  }

  service-IsSound : IsSound (service_kind L F I store)
  unfolding register_service_group register_group resolve_service_pool
  service-IsSound = record {
    finds = λ p g nw nw' h. register_answers service_group_slot (λ c n. refl) p.name _ g nw nw' h;
    named = w.service_pools;
    ends = λ p unresolved v h.
        let (es, us, x, e, k) =
          resolve-Expands (λ n. get n store.services) store.service_pools p unresolved v h in
        (es, e);
    direct = λ nw name. tested-NotNull (is_protocol_port (codes name));
    objects = λ o nw. elim (Bool-cases (is_multi_service o)) [
      | inl several ↦ rw several (as_multi-NotNull _)
      | inr single ↦ rw single (as_one-NotNull _)
    ];
  }

  address-IsSound :
      (fqdn_resolve : AddressObject → Option AddressObject) (side : Side)
      → IsSound (address_kind L F I store fqdn_resolve side)
  unfolding register_address_group register_group resolve_address_pool
  address-IsSound fqdn_resolve side = record {
    finds = λ p g nw nw' h.
        register_answers (address_group_slot side) (address_group-Lawful side) p.name _ g nw nw' h;
    named = w.address_pools;
    ends = λ p unresolved v h.
        let (es, us, x, e, k) =
          resolve-Expands (get_address fqdn_resolve store) store.address_pools p unresolved v h in
        (es, e);
    direct = λ nw name. tt;
    objects = λ o nw. elim (Bool-cases (is_multi_address o)) [
      | inl several ↦ rw several (as_multi-NotNull _)
      | inr single ↦ rw single (as_one-NotNull _)
    ];
  }

  services-NotNull : (names : List String) → NotNull (resolve_app_services L F I store names)
  unfolding resolve_app_services
  services-NotNull [] = tt
  services-NotNull (name ∷ names) =
      NotNull-bind (tested (is_protocol_port (codes name))) _
        (tested-NotNull (is_protocol_port (codes name)))
        (λ direct e.
          NotNull-bind (resolve_app_services L F I store names) _ (services-NotNull names)
            (λ services k. tt))

  application-IsSound : (b : Bool) → IsSound (application_kind L F I store b)
  unfolding register_application_group register_group resolve_application_pool
  application-IsSound b = record {
    finds = λ p g nw nw' h.
        register_answers (application_group_slot b) (application_group-Lawful b) p.name _ g nw nw'
          h;
    named = w.application_pools;
    ends = λ p unresolved v h.
        let (es, us, x, e, k) =
          resolve-Expands (λ n. get n store.applications) store.application_pools p unresolved v
            h in
        (es, e);
    direct = λ nw name. tt;
    objects = λ o nw.
        NotNull-bind (resolve_app_services L F I store o.services) _ (services-NotNull o.services)
          (λ services e. as_one-NotNull _);
  }

  -- In a store whose pools have their keys as names, no group of a rule gets a null pointer for a pool:
  -- the groups of addresses, services, applications, users and URLs are built, or an exception is thrown.
  pub build_groups-NotNull :
      (fqdn_resolve : AddressObject → Option AddressObject) (names unresolved : List String)
      (nw : Network)
      → ((side : Side)
          → NotNull (
              build_group
                (address_node L)
                (address_kind L F I store fqdn_resolve side)
                names
                unresolved
                nw))
        × NotNull (build_group (service_node L) (service_kind L F I store) names unresolved nw)
        × ((b : Bool)
            → NotNull (
                build_group
                  (application_node L)
                  (application_kind L F I store b)
                  names
                  unresolved
                  nw))
        × NotNull (build_group (user_node L) (user_kind L F I store) names unresolved nw)
        × NotNull (build_group (url_node L) (url_kind L F I store) names unresolved nw)
  build_groups-NotNull fqdn_resolve names unresolved nw = (
    λ side. build_group-NotNull _ _ (address-IsSound fqdn_resolve side) names unresolved nw,
    build_group-NotNull _ _ service-IsSound names unresolved nw,
    λ b. build_group-NotNull _ _ (application-IsSound b) names unresolved nw,
    build_group-NotNull _ _ user-IsSound names unresolved nw,
    build_group-NotNull _ _ url-IsSound names unresolved nw,
  )
