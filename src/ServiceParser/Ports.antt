-- ===== src/ServiceParser/Ports.antt =====
-- The ports that parse_protocol_port (src/model/serviceparser.cpp) accepts.
use rules_analyzer.Base.{
  ℕ, ◌^◌, ◌≤◌, ◌<◌, ◌≡◌, refl, false, List, [], ◌∷◌, Option, none, some, arith, ℤ, pos, negsuc,
  Outcome, ok, err, ◌>>=◌, ltb,
}
use rules_analyzer.Strutil.{Text}
use rules_analyzer.Strutil.Numbers.{str2num, check_long, strtol}
use rules_analyzer.Split.{split}
use rules_analyzer.Domain.{max_value}
use rules_analyzer.Service.{ProtocolType, any, udp, tcp, icmp, ports_domain}
use rules_analyzer.ServiceParser.{
  parts_of, to_uint16, ServiceFault, ServiceSpec, slash, hyphen, port_of, parse_port, in_order,
  one_port, two_ports, port_range, parse_port_range, protocol_of, with_range, with_protocol,
  parse_parts, parse_protocol_port,
}

checked_bounds :
    (m : ℕ) (r : Option ℤ × Text) (v : ℤ)
    → check_long (pos 0) (pos m) r ≡ some v
    → (n : ℕ) × (v ≡ pos n) × (n ≤ m)
checked_bounds m (none, end_ptr) v h = cc
checked_bounds m (some (pos n), end_ptr) v h = (n, ground arith, ground arith)
checked_bounds m (some (negsuc n), end_ptr) v h = ground arith

pub str2num_bounds :
    (s : Text) (m : ℕ) (v : ℤ)
    → str2num s (pos 0) (pos m) ≡ some v
    → (n : ℕ) × (v ≡ pos n) × (n ≤ m)
unfolding str2num
str2num_bounds s m v h =
    let least : ltb m 0 ≡ false = ground arith in checked_bounds m (strtol s) v (rw least at h)

port_bounds :
    (a : Text) (max : ℕ) (o : Option ℤ) (p : ℕ)
    → str2num a (pos 0) (pos max) ≡ o
    → max < 2 ^ 16
    → port_of o ≡ some p
    → p ≤ max
port_bounds a max none p e k h = cc
port_bounds a max (some v) p e k h =
    let (n, q, le) = str2num_bounds a max v e in
    let value : to_uint16 v ≡ n = ground arith in let at_p : to_uint16 v ≡ p = cc in omega arith

order_bounds : (lo hi l u m : ℕ) → in_order lo hi ≡ some (l, u) → hi ≤ m → (l ≤ u) × (u ≤ m)
order_bounds lo hi l u m h k = ground arith

one_bounds :
    (a : Text) (max : ℕ) (o : Option ℕ) (l u : ℕ)
    → parse_port a max ≡ o
    → max < 2 ^ 16
    → one_port o ≡ some (l, u)
    → (l ≤ u) × (u ≤ max)
one_bounds a max none l u e k h = cc
one_bounds a max (some p) l u e k h = order_bounds p p l u max h (port_bounds a max _ p refl k e)

two_bounds :
    (b : Text) (max : ℕ) (o o' : Option ℕ) (l u : ℕ)
    → parse_port b max ≡ o'
    → max < 2 ^ 16
    → two_ports o o' ≡ some (l, u)
    → (l ≤ u) × (u ≤ max)
two_bounds b max none o' l u e k h = cc
two_bounds b max (some p) none l u e k h = cc
two_bounds b max (some p) (some q) l u e k h =
    order_bounds p q l u max h (port_bounds b max _ q refl k e)

range_bounds :
    (parts : List Text) (max l u : ℕ)
    → max < 2 ^ 16
    → port_range parts max ≡ ok (some (l, u))
    → (l ≤ u) × (u ≤ max)
range_bounds [] max l u k h = cc
range_bounds (a ∷ []) max l u k h = one_bounds a max _ l u refl k (cc)
range_bounds (a ∷ b ∷ []) max l u k h = two_bounds b max (parse_port a max) _ l u refl k (cc)
range_bounds (a ∷ b ∷ c ∷ parts) max l u k h = cc

-- The protocol is a real one.
abbrev pub IsReal : ProtocolType → Type 0
IsReal any = ⊥
IsReal pt = Unit

protocol_of_real : (name : Text) (pt : ProtocolType) → protocol_of name ≡ some pt → IsReal pt
protocol_of_real name any h = ground arith
protocol_of_real name udp h = tt
protocol_of_real name tcp h = tt
protocol_of_real name icmp h = tt

pub small_max : (pt : ProtocolType) → max_value (ports_domain pt) < 2 ^ 16
small_max any = omega arith
small_max udp = omega arith
small_max tcp = omega arith
small_max icmp = omega arith

-- What a result says: a real protocol, and ports in order within its domain.
abbrev pub IsSpec : ServiceSpec → Type 0
IsSpec (pt, lower, upper) = IsReal pt × (lower ≤ upper) × (upper ≤ max_value (ports_domain pt))

ranged :
    (pt : ProtocolType) (r : Outcome ServiceFault (Option (ℕ × ℕ))) (spec : ServiceSpec)
    → IsReal pt
    → ((l u : ℕ) → r ≡ ok (some (l, u)) → (l ≤ u) × (u ≤ max_value (ports_domain pt)))
    → (r >>= with_range pt) ≡ ok spec
    → IsSpec spec
ranged pt (ok none) spec real bounds h = cc
ranged pt (ok (some (l, u))) (pt', l', u') real bounds h =
    let b = bounds l u refl in
    let p : pt ≡ pt' = cc in
    let q : l ≡ l' = cc in let r : u ≡ u' = cc in rw (← p) (rw (← q) (rw (← r) (real, b.0, b.1)))
ranged pt (err e) spec real bounds h = cc

with_protocol-IsSpec :
    (o : Option ProtocolType) (name : Text) (ports : List Text) (spec : ServiceSpec)
    → protocol_of name ≡ o
    → with_protocol o ports ≡ ok spec
    → IsSpec spec
unfolding parse_port_range
with_protocol-IsSpec none name ports spec e h = cc
with_protocol-IsSpec (some pt) name [] (pt', l, u) e h =
    let real = protocol_of_real name pt e in
    let p : pt ≡ pt' = cc in
    let q : 0 ≡ l = cc in
    let r : max_value (ports_domain pt) ≡ u = cc in
    rw (← p) (rw (← q) (rw (← r) (real, omega arith, omega arith)))
with_protocol-IsSpec (some pt) name (range ∷ ports) spec e h =
    ranged pt (port_range (parts_of (split range hyphen)) (max_value (ports_domain pt))) spec
      (protocol_of_real name pt e)
      (λ l u.
        range_bounds (parts_of (split range hyphen)) (max_value (ports_domain pt)) l u
          (small_max pt))
      h

parts-IsSpec : (parts : List Text) (spec : ServiceSpec) → parse_parts parts ≡ ok spec → IsSpec spec
parts-IsSpec [] spec h = cc
parts-IsSpec (name ∷ []) spec h = with_protocol-IsSpec _ name [] spec refl h
parts-IsSpec (name ∷ range ∷ []) spec h = with_protocol-IsSpec _ name (range ∷ []) spec refl h
parts-IsSpec (name ∷ range ∷ more ∷ parts) spec h = cc

-- A text that is accepted gives a real protocol, and ports in order that are within the values of
-- its domain.
pub parse_protocol_port_bounds :
    (proto_port : Text) (spec : ServiceSpec)
    → parse_protocol_port proto_port ≡ ok spec
    → IsSpec spec
unfolding parse_protocol_port
parse_protocol_port_bounds [] spec h = cc
parse_protocol_port_bounds (c ∷ cs) spec h = parts-IsSpec (parts_of (split (c ∷ cs) slash)) spec h
