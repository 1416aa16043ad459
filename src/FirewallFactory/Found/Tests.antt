-- ===== src/FirewallFactory/Found/Tests.antt =====
-- The pool any of a network with both families of addresses.
use rules_analyzer.Base.{true, Bool, [], ◌∷◌, Option, none}
use rules_analyzer.Bdd.TruthTable.{truth_table}
use rules_analyzer.Format.Digits.{digits_format}
use rules_analyzer.IpConvertor.Unary.{unary}
use rules_analyzer.Address.{Side, ip64_model, address_node}
use rules_analyzer.Service.{service_node}
use rules_analyzer.Application.{application_node}
use rules_analyzer.User.{user_node, url_node}
use rules_analyzer.ObjectStore.{AddressObject, ObjectStore, cleared}
use rules_analyzer.Network.{Network, new_network}
use rules_analyzer.FirewallFactory.{build_group}
use rules_analyzer.FirewallFactory.Kinds.{
  address_kind, service_kind, application_kind, user_kind, url_kind,
}
use rules_analyzer.FirewallFactory.Found.{NotNull}
use rules_analyzer.FirewallFactory.Found.Kinds.{build_groups-NotNull}
use rules_analyzer.FirewallFactory.Found.Stores.{cleared-IsNamed}

abbrev unresolved_host : AddressObject → Option AddressObject
unresolved_host o = none

abbrev both : Network
both = new_network ip64_model true

abbrev store : ObjectStore
store = cleared ip64_model

build_groups-NotNull_example :
    ((side : Side)
      → NotNull (
          build_group
            (address_node truth_table)
            (address_kind truth_table digits_format unary store unresolved_host side)
            ("any" ∷ [])
            []
            both))
    × NotNull (
        build_group
          (service_node truth_table)
          (service_kind truth_table digits_format unary store)
          ("any" ∷ [])
          []
          both)
    × ((b : Bool)
        → NotNull (
            build_group
              (application_node truth_table)
              (application_kind truth_table digits_format unary store b)
              ("any" ∷ [])
              []
              both))
    × NotNull (
        build_group
          (user_node truth_table)
          (user_kind truth_table digits_format unary store)
          ("any" ∷ [])
          []
          both)
    × NotNull (
        build_group
          (url_node truth_table)
          (url_kind truth_table digits_format unary store)
          ("any" ∷ [])
          []
          both)
build_groups-NotNull_example =
    build_groups-NotNull truth_table digits_format unary store (cleared-IsNamed ip64_model)
      unresolved_host ("any" ∷ []) [] both
