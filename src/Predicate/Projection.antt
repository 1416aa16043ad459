-- ===== src/Predicate/Projection.antt =====
-- The two diagrams of a predicate (src/model/predicate.cpp): `make_bdd` and `make_bdd(options)`.
use rules_analyzer.Base.{ℕ, ◌≡◌, sym, ap, ◌∙◌, Bool, true, false, if◌then◌else◌, arith}
use rules_analyzer.Bdd.{Buddy}
use rules_analyzer.Options.{Options}
use rules_analyzer.Service.{is_app_services}
use rules_analyzer.Predicate.{
  Predicate, BddOption, source_zone, destination_zone, application, user, url, make_bdd,
  make_bdd_with, conjunction, and_if, services_bdd,
}

-- All the options.
abbrev pub all_options : Options BddOption
all_options = record { contains = λ option. true }

module _ (L : Buddy) where
  open L use {Bdd, Packet, holds}

  infixl 65 ◌&◌
  abbrev ◌&◌ : Bdd → Bdd → Bdd
  a & b = L.bdd_and a b

  same_parts :
      (sz dz sa da sv ap us ur : Bdd) (p : Packet)
      → holds (sa & da & sz & dz & (sv & ap) & us & ur) p
        ≡ holds (sz & dz & sa & da & sv & ap & us & ur) p
  same_parts sz dz sa da sv ap us ur p = simp L.holds_and (ground arith)

  not_any :
      (q : Predicate) (p : Packet)
      → q.is_any_predicate ≡ false
      → holds (make_bdd L q) p ≡ holds (conjunction L q) p
  unfolding make_bdd
  not_any q p h = ap (λ b. holds (if b then L.bddtrue else conjunction L q) p) h

  -- With all options the diagram holds of the packets of which `make_bdd` holds, when the predicate
  -- is not one of the three Any predicates.
  pub make_bdd_with-all_options :
      (fresh : ℕ) (q : Predicate) (p : Packet)
      → q.is_any_predicate ≡ false
      → holds (make_bdd_with L fresh all_options q) p ≡ holds (make_bdd L q) p
  unfolding make_bdd_with conjunction
  make_bdd_with-all_options fresh q p h = same_parts _ _ _ _ _ _ _ _ p ∙ sym (not_any q p h)

  both : (a b : Bdd) (p : Packet) → holds a p ≡ true → holds b p ≡ true → holds (a & b) p ≡ true
  both a b p h k = ground (arith, L.holds_and a b p)

  one_of :
      (a b : Bdd) (p : Packet) → holds (a & b) p ≡ true → (holds a p ≡ true) × (holds b p ≡ true)
  one_of a b p h = (ground (arith, L.holds_and a b p), ground (arith, L.holds_and a b p))

  and_if_both :
      (selected : Bool) (extra b : Bdd) (p : Packet)
      → holds b p ≡ true
      → holds extra p ≡ true
      → holds (and_if L selected extra b) p ≡ true
  and_if_both true extra b p h k = both b extra p h k
  and_if_both false extra b p h k = h

  traffic_both :
      (selected : Bool) (zones sv apps alone : Bdd) (p : Packet)
      → holds zones p ≡ true
      → holds sv p ≡ true
      → holds apps p ≡ true
      → holds alone p ≡ true
      → holds (if selected then zones & (sv & apps) else zones & alone) p ≡ true
  traffic_both true zones sv apps alone p h i j k = both zones (sv & apps) p h (both sv apps p i j)
  traffic_both false zones sv apps alone p h i j k = both zones alone p h k

  -- The services alone, where they are no defaults of applications.
  alone_holds :
      (defaults : Bool) (own other : Bdd) (p : Packet)
      → defaults ≡ false
      → holds (if defaults then L.bddtrue else own) p ≡ true
      → holds (if defaults then other else own) p ≡ true
  alone_holds true own other p e h = cc
  alone_holds false own other p e h = h

  -- When the services are not the defaults of applications, every packet of the predicate is one
  -- of the diagram with fewer parts, whichever options are selected.
  pub make_bdd_with-make_bdd :
      (fresh : ℕ) (options : Options BddOption) (q : Predicate) (p : Packet)
      → q.is_any_predicate ≡ false
      → is_app_services q.services ≡ false
      → holds (make_bdd L q) p ≡ true
      → holds (make_bdd_with L fresh options q) p ≡ true
  unfolding make_bdd_with conjunction services_bdd
  make_bdd_with-make_bdd fresh options q p h plain m =
      let (m7, ur) = one_of _ _ p (sym (not_any q p h) ∙ m) in
      let (m6, us) = one_of _ _ p m7 in
      let (m5, apps) = one_of _ _ p m6 in
      let (m4, sv) = one_of _ _ p m5 in
      let (m3, da) = one_of _ _ p m4 in
      let (m2, sa) = one_of _ _ p m3 in
      let (sz, dz) = one_of _ _ p m2 in
      and_if_both (options.contains url) _ _ p
        (and_if_both (options.contains user) _ _ p
          (traffic_both (options.contains application) _ _ _ _ p
            (and_if_both (options.contains destination_zone) _ _ p
              (and_if_both (options.contains source_zone) _ _ p (both _ _ p sa da) sz) dz)
            sv apps (alone_holds (is_app_services q.services) _ _ p plain sv))
          us)
        ur
