-- ===== src/Bdd.antt =====
-- The interface to BuDDy, the library of binary decision diagrams that src/model/*.cpp call
-- (dep/buddy). Diagrams are compared by their root, which BuDDy keeps canonical: two roots are the
-- same exactly when the diagrams hold of the same assignments. An assignment to the variables that
-- src/model/domains.cpp allocates is called a packet here.
pub mod TruthTable
use rules_analyzer.Base.{ℕ, ◌%◌, ◌^◌, ◌<◌, ◌≡◌, ◌↔◌, Bool, true, false, not, ◌&&◌, ◌||◌, leb, ◌==◌}

pub record Buddy : Type 1 where
  pub Bdd : Type 0
  pub Bvec : Type 0
  pub Packet : Type 0
  -- The assignments of which a diagram holds.
  pub holds : Bdd → Packet → Bool
  pub bddtrue : Bdd
  pub bddfalse : Bdd
  pub bdd_not : Bdd → Bdd
  pub bdd_and : Bdd → Bdd → Bdd
  pub bdd_or : Bdd → Bdd → Bdd
  pub bdd_imp : Bdd → Bdd → Bdd
  pub bdd_diff : Bdd → Bdd → Bdd
  pub same : Bdd → Bdd → Bool
  -- Vectors: a constant of so many bits, and the variable of a domain.
  pub bvec_con : ℕ → ℕ → Bvec
  pub bvec_var : ℕ → ℕ → Bvec
  pub bvec_equ : Bvec → Bvec → Bdd
  pub bvec_lte : Bvec → Bvec → Bdd
  pub bitnum : Bvec → ℕ
  pub read : Bvec → Packet → ℕ
  pub holds_true : (p : Packet) → holds bddtrue p ≡ true
  pub holds_false : (p : Packet) → holds bddfalse p ≡ false
  pub holds_not : (a : Bdd) (p : Packet) → holds (bdd_not a) p ≡ not (holds a p)
  pub holds_and : (a b : Bdd) (p : Packet) → holds (bdd_and a b) p ≡ (holds a p && holds b p)
  pub holds_or : (a b : Bdd) (p : Packet) → holds (bdd_or a b) p ≡ (holds a p || holds b p)
  pub holds_imp : (a b : Bdd) (p : Packet) → holds (bdd_imp a b) p ≡ (not (holds a p) || holds b p)
  pub holds_diff :
      (a b : Bdd) (p : Packet) → holds (bdd_diff a b) p ≡ (holds a p && not (holds b p))
  pub same_iff : (a b : Bdd) → (same a b ≡ true) ↔ ((p : Packet) → holds a p ≡ holds b p)
  pub bitnum_con : (n v : ℕ) → bitnum (bvec_con n v) ≡ n
  pub bitnum_var : (n k : ℕ) → bitnum (bvec_var n k) ≡ n
  pub read_con : (n v : ℕ) (p : Packet) → read (bvec_con n v) p ≡ v % 2 ^ n
  pub read_var : (n k : ℕ) (p : Packet) → read (bvec_var n k) p < 2 ^ n
  -- Vectors of different sizes make BuDDy call its error handler.
  pub holds_equ :
      (x y : Bvec) (p : Packet)
      → 0 < bitnum x
      → bitnum x ≡ bitnum y
      → holds (bvec_equ x y) p ≡ (read x p == read y p)
  pub holds_lte :
      (x y : Bvec) (p : Packet)
      → 0 < bitnum x
      → bitnum x ≡ bitnum y
      → holds (bvec_lte x y) p ≡ leb (read x p) (read y p)

-- The laws as lemmas, for the sets of the tactics.
pub holds-true : (L : Buddy) (p : L.Packet) → L.holds L.bddtrue p ≡ true
holds-true L = L.holds_true

pub holds-false : (L : Buddy) (p : L.Packet) → L.holds L.bddfalse p ≡ false
holds-false L = L.holds_false

pub holds-not : (L : Buddy) (a : L.Bdd) (p : L.Packet) → L.holds (L.bdd_not a) p ≡ not (L.holds a p)
holds-not L = L.holds_not

pub holds-and :
    (L : Buddy) (a b : L.Bdd) (p : L.Packet)
    → L.holds (L.bdd_and a b) p ≡ (L.holds a p && L.holds b p)
holds-and L = L.holds_and

pub holds-or :
    (L : Buddy) (a b : L.Bdd) (p : L.Packet)
    → L.holds (L.bdd_or a b) p ≡ (L.holds a p || L.holds b p)
holds-or L = L.holds_or

pub holds-imp :
    (L : Buddy) (a b : L.Bdd) (p : L.Packet)
    → L.holds (L.bdd_imp a b) p ≡ (not (L.holds a p) || L.holds b p)
holds-imp L = L.holds_imp

pub holds-diff :
    (L : Buddy) (a b : L.Bdd) (p : L.Packet)
    → L.holds (L.bdd_diff a b) p ≡ (L.holds a p && not (L.holds b p))
holds-diff L = L.holds_diff

pub ruleset bdd_laws =
    (holds-true, holds-false, holds-not, holds-and, holds-or, holds-imp, holds-diff)
