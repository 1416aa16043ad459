-- ===== src/Network/Register/Addresses.antt =====
-- An address that is registered (src/model/network.cpp) is found again by its name.
use rules_analyzer.Base.{◌≡◌, refl, ap, ◌∙◌, sym, String, Outcome, ok, err}
use rules_analyzer.Strutil.{Text}
use rules_analyzer.Address.{Side, source, destination, IpAddress}
use rules_analyzer.IpConvertor.{Inet}
use rules_analyzer.AddressParser.{AddressFault}
use rules_analyzer.Network.{Network}
use rules_analyzer.Network.Register.{address_slot, made_address, register_address}
use rules_analyzer.Network.Register.Slots.{Lawful, Registered, register-Registered, register_again}

address-Lawful : (side : Side) → Lawful (address_slot side)
address-Lawful source c nw = refl
address-Lawful destination c nw = refl

module _ (I : Inet) (side : Side) where
  made_keeps :
      (nw nw1 nw' : Network) (a : IpAddress) (o : Outcome AddressFault IpAddress)
      → made_address I nw1 o ≡ ok (a, nw')
      → nw1.addresses ≡ nw.addresses
      → nw'.addresses side ≡ nw.addresses side
  made_keeps nw nw1 nw' a (err fault) h e = absurd (cc)
  made_keeps nw nw1 nw' a (ok b) h e =
      let after : nw1 ≡ nw' = cc in
      ap (λ (n : Network). n.addresses side) (sym after) ∙ ap (λ f. f side) e

  -- A text that is registered under a name as an address makes the name answer with the address, and
  -- leaves the other names to theirs. Registering the name again, whatever the text, finds the same
  -- address and changes nothing.
  pub register_address_again :
      (name : String) (text text' : Text) (a : IpAddress) (nw nw' : Network)
      → register_address I side name text nw ≡ ok (a, nw')
      → Registered (address_slot side) name a nw nw'
        × (register_address I side name text' nw' ≡ ok (a, nw'))
  unfolding register_address
  register_address_again name text text' a nw nw' h =
      let done =
        register-Registered (address_slot side) (address-Lawful side) name _ a nw nw'
          (λ m m' t k. made_keeps m _ m' t _ k refl) h in
      (done, register_again (address_slot side) name _ a nw' done.answers)
