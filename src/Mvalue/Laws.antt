-- ===== src/Mvalue/Laws.antt =====
-- A model value holds exactly of the packets whose variable lies in the range.
use native.Mathlib.Nat.{mod-eq_of_lt}
use rules_analyzer.Base.{
  ℕ, ◌<◌, ◌≤◌, ◌^◌, ◌≡◌, refl, sym, ap, ◌∙◌, true, ◌&&◌, leb, ◌==◌, arith, Bool-cases, inl, inr,
}
use rules_analyzer.Bdd.{Buddy}
use rules_analyzer.Range.{is_singleton}
use rules_analyzer.Domain.{DomainType, src_zone, nbits, max_value, create_full_range}
use rules_analyzer.Mvalue.{Mvalue, covers_domain, make_bdd, value, var}

-- The range was built for the domain: as wide, and its bounds in order and within the width.
pub record IsWellFormed (v : Mvalue) : Type 0 where
  pub wide : v.range.nbits ≡ nbits v.domain
  pub ordered : v.range.lbound ≤ v.range.ubound
  pub bounded : v.range.ubound < 2 ^ nbits v.domain

nbits_pos : (dt : DomainType) → 0 < nbits dt
nbits_pos src_zone = omega arith
nbits_pos _ = omega arith

full_nbits : (dt : DomainType) → (create_full_range dt).nbits ≡ nbits dt
full_nbits src_zone = refl
full_nbits _ = refl

full_lbound : (dt : DomainType) → (create_full_range dt).lbound ≡ 0
full_lbound src_zone = refl
full_lbound _ = refl

full_ubound : (dt : DomainType) → (create_full_range dt).ubound ≡ max_value dt
full_ubound src_zone = refl
full_ubound _ = refl

max_value_lt : (dt : DomainType) → max_value dt < 2 ^ nbits dt
max_value_lt src_zone = omega arith
max_value_lt _ = omega arith

le_max_value : (dt : DomainType) (x : ℕ) → x < 2 ^ nbits dt → x ≤ max_value dt
le_max_value src_zone x h = omega arith
le_max_value _ x h = omega arith

module _ (L : Buddy) where
  open L use {Packet, holds, bddtrue, bvec_con, bvec_equ, bvec_lte, read, same}

  -- A constant that fits its bits is read back.
  read-con : (n x : ℕ) (p : Packet) → x < 2 ^ n → read (bvec_con n x) p ≡ x
  read-con n x p h = L.read_con n x p ∙ mod-eq_of_lt h

  -- Constants that BuDDy finds equal are equal.
  con_equ :
      (n m x y : ℕ) (p : Packet)
      → 0 < n
      → n ≡ m
      → x < 2 ^ n
      → y < 2 ^ n
      → same (bvec_equ (bvec_con n x) (bvec_con m y)) bddtrue ≡ true
      → x ≡ y
  con_equ n m x y p pos e hx hy s = ground (
    arith,
    (L.same_iff _ _).0 s p,
    L.holds_true p,
    L.holds_equ (bvec_con n x) (bvec_con m y) p (rw (L.bitnum_con n x) pos)
        (L.bitnum_con n x ∙ e ∙ sym (L.bitnum_con m y)),
    read-con n x p hx,
    read-con m y p (rw (← e) hy),
  )

  covers_all :
      (v : Mvalue) (p : Packet)
      → IsWellFormed v
      → covers_domain L v ≡ true
      → (v.range.lbound ≡ 0) × (v.range.ubound ≡ max_value v.domain)
  unfolding covers_domain
  covers_all v p w h =
      let full = create_full_range v.domain in
      let pos : 0 < v.range.nbits = rw w.wide (nbits_pos v.domain) in
      let bits : 2 ^ v.range.nbits ≡ 2 ^ nbits v.domain = ap (λ k. 2 ^ k) w.wide in
      let e = w.wide ∙ sym (full_nbits v.domain) in
      let fits = max_value_lt v.domain in
      (
        con_equ v.range.nbits full.nbits v.range.lbound full.lbound p pos e (omega arith)
              (omega (arith, full_lbound v.domain)) (ground arith)
            ∙ full_lbound v.domain,
        con_equ v.range.nbits full.nbits v.range.ubound full.ubound p pos e (omega arith)
              (omega (arith, full_ubound v.domain)) (ground arith)
            ∙ full_ubound v.domain,
      )

  same_width :
      (v : Mvalue) (x : ℕ)
      → IsWellFormed v
      → L.bitnum (bvec_con v.range.nbits x) ≡ L.bitnum (var L v.domain)
  same_width v x w = rw (L.bitnum_con, L.bitnum_var) w.wide

  con_pos : (v : Mvalue) (x : ℕ) → IsWellFormed v → 0 < L.bitnum (bvec_con v.range.nbits x)
  con_pos v x w = rw (L.bitnum_con, w.wide) (nbits_pos v.domain)

  var_pos : (v : Mvalue) → 0 < L.bitnum (var L v.domain)
  var_pos v = rw L.bitnum_var (nbits_pos v.domain)

  bound_read :
      (v : Mvalue) (x : ℕ) (p : Packet)
      → IsWellFormed v
      → x ≤ v.range.ubound
      → read (bvec_con v.range.nbits x) p ≡ x
  bound_read v x p w h = read-con v.range.nbits x p (rw w.wide (omega arith))

  lte_lbound :
      (v : Mvalue) (p : Packet)
      → IsWellFormed v
      → holds (bvec_lte (bvec_con v.range.nbits v.range.lbound) (var L v.domain)) p
        ≡ leb v.range.lbound (value L v.domain p)
  lte_lbound v p w =
      L.holds_lte _ _ p (con_pos v v.range.lbound w) (same_width v v.range.lbound w)
      ∙ ap (λ x. leb x (value L v.domain p)) (bound_read v v.range.lbound p w w.ordered)

  lte_ubound :
      (v : Mvalue) (p : Packet)
      → IsWellFormed v
      → holds (bvec_lte (var L v.domain) (bvec_con v.range.nbits v.range.ubound)) p
        ≡ leb (value L v.domain p) v.range.ubound
  lte_ubound v p w =
      L.holds_lte _ _ p (var_pos v) (sym (same_width v v.range.ubound w))
      ∙ ap (λ x. leb (value L v.domain p) x) (bound_read v v.range.ubound p w (omega arith))

  equ_lbound :
      (v : Mvalue) (p : Packet)
      → IsWellFormed v
      → holds (bvec_equ (var L v.domain) (bvec_con v.range.nbits v.range.lbound)) p
        ≡ (value L v.domain p == v.range.lbound)
  equ_lbound v p w =
      L.holds_equ _ _ p (var_pos v) (sym (same_width v v.range.lbound w))
      ∙ ap (λ x. value L v.domain p == x) (bound_read v v.range.lbound p w w.ordered)

  -- The diagram of a well-formed model value holds of a packet exactly when the packet's value in
  -- the domain lies between the bounds, whichever of the three forms `make_bdd` builds.
  pub holds-make_bdd :
      (v : Mvalue) (p : Packet)
      → IsWellFormed v
      → holds (make_bdd L v) p
        ≡ (leb v.range.lbound (value L v.domain p) && leb (value L v.domain p) v.range.ubound)
  unfolding make_bdd
  holds-make_bdd v p w = elim (Bool-cases (covers_domain L v)) [
    | inl all ↦ rw all (
        ground (
          arith,
          L.holds_true p,
          (covers_all v p w all).0,
          (covers_all v p w all).1,
          le_max_value v.domain (value L v.domain p) (L.read_var _ _ p),
        ))
    | inr part ↦ rw part (elim (Bool-cases (is_singleton v.range)) [
      | inl one ↦ rw one (equ_lbound v p w ∙ ground arith)
      | inr more ↦ rw (more, L.holds_and, lte_lbound v p w, lte_ubound v p w)
    ])
  ]
