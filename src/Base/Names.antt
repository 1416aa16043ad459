-- ===== src/Base/Names.antt =====
-- Sets of names, as lists without repetition.
use mathlib.Core.Path.{◌≡◌, refl, sym, ap, ◌∙◌}
use mathlib.Core.Logic.{inl, inr}
use mathlib.Core.Bool.{Bool, true, false, not, ◌&&◌, ◌||◌}
use mathlib.Core.List.{List, [], ◌∷◌}
use Prim.Native.Nat.{suc, ◌≤◌}
use Prim.Native.String.{String}
use native.Mathlib.Omega.{arith}
use text.Mathlib.Text.{◌==◌ as str_eq}
use text.Mathlib.TextEquality.{eq_iff}
use rules_analyzer.Base.Tests.{if◌then◌else◌, Bool-cases}
use rules_analyzer.Base.Lists.{length, all}

abbrev pub has_name : String → List String → Bool
has_name n [] = false
has_name n (m ∷ ms) = str_eq m n || has_name n ms

-- `std::set::erase`, where a name occurs once at most.
abbrev pub erase_name : String → List String → List String
erase_name n [] = []
erase_name n (m ∷ ms) = if str_eq m n then ms else m ∷ erase_name n ms

abbrev pub distinct_names : List String → Bool
distinct_names [] = true
distinct_names (n ∷ ns) = not (has_name n ns) && distinct_names ns

pub str_eq_refl : (n : String) → str_eq n n ≡ true
str_eq_refl n = (eq_iff n n).1 refl

length-erase_name :
    (n : String) (ns : List String)
    → has_name n ns ≡ true
    → length ns ≡ suc (length (erase_name n ns))
length-erase_name n [] h = absurd (cc)
length-erase_name n (m ∷ ms) h = elim (Bool-cases (str_eq m n)) [
  | inl here ↦ rw here refl
  | inr other ↦ rw other (ap suc (length-erase_name n ms (rw other at h)))
]

has_name-erase_name :
    (n m : String) (ns : List String)
    → str_eq n m ≡ false
    → has_name m (erase_name n ns) ≡ has_name m ns
has_name-erase_name n m [] h = refl
has_name-erase_name n m (x ∷ ns) h = elim (Bool-cases (str_eq x n)) [
  | inl here ↦
      let other : str_eq x m ≡ false = ap (λ y. str_eq y m) ((eq_iff x n).0 here) ∙ h in
      rw here (rw other refl)
  | inr other ↦ rw other (ap (λ b. str_eq x m || b) (has_name-erase_name n m ns h))
]

all-erase_name :
    (n : String) (ms ns : List String)
    → has_name n ms ≡ false
    → all (λ m. has_name m ns) ms ≡ true
    → all (λ m. has_name m (erase_name n ns)) ms ≡ true
all-erase_name n [] ns h k = refl
all-erase_name n (m ∷ ms) ns h k = elim (Bool-cases (str_eq n m)) [
  | inl same ↦
      let back : str_eq m n ≡ true = (eq_iff m n).1 (sym ((eq_iff n m).0 same)) in
      absurd (ground arith)
  | inr other ↦ ground (arith, has_name-erase_name n m ns other, all-erase_name n ms ns)
]

-- Distinct names out of a list are no more than the list has.
pub distinct_names-le :
    (ms ns : List String)
    → distinct_names ms ≡ true
    → all (λ m. has_name m ns) ms ≡ true
    → length ms ≤ length ns
distinct_names-le [] ns h k = omega arith
distinct_names-le (m ∷ ms) ns h k =
    let there : has_name m ns ≡ true = ground arith in
    let new : has_name m ms ≡ false = ground arith in
    let rest =
      distinct_names-le ms (erase_name m ns) (ground arith)
        (all-erase_name m ms ns new (ground arith)) in
    omega (arith, rest, length-erase_name m ns there)
