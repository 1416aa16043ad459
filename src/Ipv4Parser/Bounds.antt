-- ===== src/Ipv4Parser/Bounds.antt =====
-- The bounds that decode_ipv4_network_address (src/model/ipv4parser.cpp) returns.
use rules_analyzer.Base.{
  ℕ, ◌+◌, ◌%◌, ◌^◌, ◌≤◌, ◌<◌, ◌≡◌, refl, Bool, List, [], ◌∷◌, arith, Outcome, ok, err, Option, none,
  some, Bool-cases, inl, inr, not, ◌==◌, ◌&&◌,
}
use Prim.Native.Nat.{bit_and}
use native.Mathlib.Nat.{mod-lt, one-le-pow}
use rules_analyzer.Strutil.{Text}
use rules_analyzer.Split.{split}
use rules_analyzer.Address.{IpAddressType, subnet, range}
use rules_analyzer.IpConvertor.{Inet}
use rules_analyzer.Ipv4Parser.{
  IpFault, host_bits_set, AddressSpec, complement, subnet_bounds, subnet_of, range_of, address_of,
  pair_of, contains, slash, hyphen, parts_of, decode_subnet, decode_range,
  decode_ipv4_network_address,
}

-- The bounds are in order and fit the word, and a type other than that of a range tells whether they
-- are equal.
abbrev pub IsSpec : ℕ → AddressSpec → Type 0
IsSpec w (IpAddressType.address, l, u) = (l ≡ u) × (u < 2 ^ w)
IsSpec w (subnet, l, u) = (l < u) × (u < 2 ^ w)
IsSpec w (range, l, u) = (l ≤ u) × (u < 2 ^ w)

pub subnet_bounds_lem :
    (w l u : ℕ) (spec : AddressSpec) → u < 2 ^ w → subnet_bounds w l u ≡ ok spec → IsSpec w spec
subnet_bounds_lem w l u (IpAddressType.address, l', u') h e = ground arith
subnet_bounds_lem w l u (subnet, l', u') h e = ground arith
subnet_bounds_lem w l u (range, l', u') h e = ground arith

-- A word is not empty.
pub word_pos : (w : ℕ) → 0 < 2 ^ w
word_pos w = one-le-pow w 2 (omega arith)

pub subnet_of_lem :
    (w : ℕ) (strict : Bool) (o : Option (ℕ × ℕ)) (spec : AddressSpec)
    → subnet_of w strict o ≡ ok spec
    → IsSpec w spec
subnet_of_lem w strict none spec h = absurd (cc)
subnet_of_lem w strict (some (network, mask)) spec h =
    elim (Bool-cases (strict && not (bit_and network mask == network))) [
      | inl refused ↦
          let e : ◌≡◌ {A = Outcome IpFault AddressSpec} (err host_bits_set) (ok spec) =
            rw refused at h in
          absurd (cc)
      | inr passed ↦
          subnet_bounds_lem w network ((network + complement w mask) % 2 ^ w) spec
            (mod-lt _ (word_pos w)) (rw passed at h)
    ]

pub range_of_lem :
    (w : ℕ) (o : Option (ℕ × ℕ)) (spec : AddressSpec)
    → ((l u : ℕ) → o ≡ some (l, u) → u < 2 ^ w)
    → range_of o ≡ ok spec
    → IsSpec w spec
range_of_lem w none spec small h = absurd (cc)
range_of_lem w (some (l, u)) (IpAddressType.address, l', u') small h = ground arith
range_of_lem w (some (l, u)) (subnet, l', u') small h = ground arith
range_of_lem w (some (l, u)) (range, l', u') small h = ground (arith, small l u refl)

pub address_of_lem :
    (w : ℕ) (o : Option ℕ) (spec : AddressSpec)
    → ((l : ℕ) → o ≡ some l → l < 2 ^ w)
    → address_of o ≡ ok spec
    → IsSpec w spec
address_of_lem w none spec small h = absurd (cc)
address_of_lem w (some l) (IpAddressType.address, l', u') small h = ground (arith, small l refl)
address_of_lem w (some l) (subnet, l', u') small h = ground arith
address_of_lem w (some l) (range, l', u') small h = ground arith

-- The second of two addresses that are both read.
pub pair_small :
    (bound : ℕ) (o o' : Option ℕ) (l u : ℕ)
    → ((n : ℕ) → o' ≡ some n → n < bound)
    → pair_of o o' ≡ some (l, u)
    → u < bound
pair_small bound none o' l u small h = absurd (cc)
pair_small bound (some a) none l u small h = absurd (cc)
pair_small bound (some a) (some b) l u small h = let e : b ≡ u = cc in rw (← e) (small b refl)

module _ (I : Inet) where
  abbrev pub IsRead : ℕ → Outcome IpFault AddressSpec → Type 0
  IsRead w r = (spec : AddressSpec) → r ≡ ok spec → IsSpec w spec

  subnet-IsRead : (parts : List Text) (strict : Bool) → IsRead 32 (decode_subnet I parts strict)
  subnet-IsRead [] strict spec h = absurd (cc)
  subnet-IsRead (a ∷ []) strict spec h = absurd (cc)
  subnet-IsRead (a ∷ b ∷ []) strict spec h = subnet_of_lem 32 strict _ spec h
  subnet-IsRead (a ∷ b ∷ c ∷ parts) strict spec h = ground arith

  range-IsRead : (parts : List Text) → IsRead 32 (decode_range I parts)
  range-IsRead [] spec h = absurd (cc)
  range-IsRead (a ∷ []) spec h = absurd (cc)
  range-IsRead (a ∷ b ∷ []) spec h =
      range_of_lem 32 _ spec (λ l u. pair_small (2 ^ 32) (I.pton4 a) (I.pton4 b) l u (I.pton4-lt b))
        h
  range-IsRead (a ∷ b ∷ c ∷ parts) spec h = ground arith

  -- A text that is accepted as an IPv4 address gives bounds that are in order and fit 32 bits: equal
  -- for an address, and different for a subnet.
  pub decode_ipv4_network_address_bounds :
      (addr : Text) (strict : Bool) (spec : AddressSpec)
      → decode_ipv4_network_address I addr strict ≡ ok spec
      → IsSpec 32 spec
  unfolding decode_ipv4_network_address
  decode_ipv4_network_address_bounds addr strict spec h = elim (Bool-cases (contains slash addr)) [
    | inl with_slash ↦ subnet-IsRead (parts_of (split addr slash)) strict spec (rw with_slash at h)
    | inr plain ↦ elim (Bool-cases (contains hyphen addr)) [
      | inl with_hyphen ↦
          range-IsRead (parts_of (split addr hyphen)) spec (rw with_hyphen at (rw plain at h))
      | inr alone ↦
          address_of_lem 32 (I.pton4 addr) spec (I.pton4-lt addr) (rw alone at (rw plain at h))
    ]
  ]
