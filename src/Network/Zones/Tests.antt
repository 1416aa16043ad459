-- ===== src/Network/Zones/Tests.antt =====
-- A new network, with a source and a destination zone of different names.
use mathlib.Core.Bool.{false≢true}
use text.Mathlib.TextEquality.{eq_iff}
use rules_analyzer.Base.{
  ◌≡◌, ◌≢◌, ◌↔◌, refl, sym, true, [], ◌∷◌, some, String, ok, inl, inr, arith, Bool-cases,
}
use text.Mathlib.Text.{◌==◌ as str_eq}
use rules_analyzer.Cache.{get}
use rules_analyzer.Domain
use rules_analyzer.Zone.{Zone, create_zone, any_zone}
use rules_analyzer.Address.{ip4_model}
use rules_analyzer.Network.{Network, new_network}
use rules_analyzer.Network.Register.{register_src_zone, register_dst_zone}
use rules_analyzer.Network.Zones.{IsZoned, register_zones-IsZoned}

abbrev lan : Zone
lan = create_zone Domain.src_zone 17 "lan" 1

abbrev dmz : Zone
dmz = create_zone Domain.dst_zone 18 "dmz" 2

abbrev with_lan : Network
unfolding new_network
with_lan = record (new_network ip4_model true) {
  src_zones = ("lan", lan) ∷ ("any", any_zone Domain.src_zone 1) ∷ [];
  zone_ids = record { ubound = 255; next_id = 2; id_table = ("lan", 1) ∷ [] };
  next_address = 18;
}

abbrev with_dmz : Network
unfolding new_network
with_dmz = record with_lan {
  dst_zones = ("dmz", dmz) ∷ ("any", any_zone Domain.dst_zone 2) ∷ [];
  zone_ids = record { ubound = 255; next_id = 3; id_table = ("dmz", 2) ∷ ("lan", 1) ∷ [] };
  next_address = 19;
}

lan_registered : register_src_zone "lan" (new_network ip4_model true) ≡ ok (lan, with_lan)
unfolding register_src_zone new_network
lan_registered = refl

dmz_registered : register_dst_zone "dmz" with_lan ≡ ok (dmz, with_dmz)
unfolding register_dst_zone new_network
dmz_registered = refl

only_any :
    (dt : Domain.DomainType) (a : Zone) (n : String) (z : Zone)
    → get n (("any", a) ∷ []) ≡ some z
    → n ≡ "any"
unfolding get
only_any dt a n z h = elim (Bool-cases (str_eq "any" n)) [
  | inl here ↦ sym ((eq_iff "any" n).0 here)
  | inr other ↦ absurd (cc (rw other at h))
]

new-IsZoned : IsZoned (new_network ip4_model true)
unfolding new_network get
new-IsZoned = record {
  ids = record {
    starts = omega arith;
    small = omega arith;
    below = λ s id h. absurd (cc);
    apart = λ s t id h k. absurd (cc);
  };
  sources = λ n z h. inl (only_any Domain.src_zone _ n z h);
  destinations = λ n z h. inl (only_any Domain.dst_zone _ n z h);
}

not_any : ◌≢◌ {A = String} "lan" "any"
not_any e = false≢true ((eq_iff "lan" "any").1 e)

dmz_not_any : ◌≢◌ {A = String} "dmz" "any"
dmz_not_any e = false≢true ((eq_iff "dmz" "any").1 e)

register_zones-IsZoned_example :
    IsZoned with_dmz × ((lan.value.range ≡ dmz.value.range) ↔ (◌≡◌ {A = String} "lan" "dmz"))
register_zones-IsZoned_example =
    register_zones-IsZoned "lan" "dmz" lan dmz (new_network ip4_model true) with_lan with_dmz
      new-IsZoned lan_registered dmz_registered not_any dmz_not_any
