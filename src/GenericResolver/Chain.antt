-- ===== src/GenericResolver/Chain.antt =====
-- The chain of a GenericResolver (src/ostore/genericresolver.h): the pools that it visits are distinct, so
-- it holds one frame more than there are pools at most.
use rules_analyzer.Base.{
  ℕ, zero, suc, ◌+◌, ◌*◌, ◌≤◌, ◌≡◌, refl, sym, ap, ◌∙◌, true, false, List, [], ◌∷◌, length, all,
  map, Option, some, String, arith, Bool-cases, inl, inr, has_name, erase_name, distinct_names,
  distinct_names-le, str_eq_refl,
}
use text.Mathlib.Text.{◌==◌ as str_eq}
use rules_analyzer.Cache.{Cache, get}
use rules_analyzer.GenericResolver.{Pool, Frame, total_members, turns}

-- The names of the frames above the first one.
abbrev pub above_at : String → List Frame → List String
above_at n [] = []
above_at n (f ∷ fs) = n ∷ above_at f.current_pool.name fs

abbrev pub above : List Frame → List String
above [] = []
above (f ∷ fs) = above_at f.current_pool.name fs

abbrev pub pool_names : Cache Pool → List String
pool_names = map (λ e. e.1.name)

pub length-pool_names : (ps : Cache Pool) → length (pool_names ps) ≡ length ps
length-pool_names [] = refl
length-pool_names (e ∷ ps) = ap suc (length-pool_names ps)

get_named :
    (n : String) (ps : Cache Pool) (p : Pool)
    → get n ps ≡ some p
    → has_name p.name (pool_names ps) ≡ true
unfolding get
get_named n [] p h = absurd (cc)
get_named n ((key, q) ∷ ps) p h = elim (Bool-cases (str_eq key n)) [
  | inl here ↦
      let found : some q ≡ some p = sym (rw here refl) ∙ h in
      let same : q ≡ p = cc in
      let named : str_eq q.name p.name ≡ true =
        ap (λ (r : Pool). str_eq r.name p.name) same ∙ str_eq_refl p.name in
      ground (arith, named)
  | inr other ↦ ground (arith, get_named n ps p (rw other at h))
]

pub get_members :
    (n : String) (ps : Cache Pool) (p : Pool)
    → get n ps ≡ some p
    → length p.members ≤ total_members ps
unfolding get
get_members n [] p h = absurd (cc)
get_members n ((key, q) ∷ ps) p h = elim (Bool-cases (str_eq key n)) [
  | inl here ↦
      let found : some q ≡ some p = sym (rw here refl) ∙ h in
      let same : q ≡ p = cc in
      let size : length q.members ≡ length p.members = ap (λ (r : Pool). length r.members) same in
      omega arith
  | inr other ↦ omega (arith, get_members n ps p (rw other at h))
]

module _ {O : Type 0} (find_object : String → Option O) (pools : Cache Pool) where
  -- The turns that a chain may take, when a number of pools is not in it.
  abbrev pub weight : ℕ → List Frame → ℕ
  weight free [] = 0
  weight free (f ∷ fs) = length f.rest * turns pools free + 1 + weight (suc free) fs

  pub record IsChained (free : ℕ) (chain : List Frame) (visited : List String) : Type 0 where
    pub same : visited ≡ above chain
    pub distinct : distinct_names visited ≡ true
    pub known : all (λ n. has_name n (pool_names pools)) visited ≡ true
    pub count : free + length visited ≡ length pools

  -- A pool that is not visited leaves one less for the chain.
  pub free_left :
      (free : ℕ) (chain : List Frame) (visited : List String) (n : String) (p : Pool)
      → IsChained free chain visited
      → get n pools ≡ some p
      → has_name p.name visited ≡ false
      → 1 ≤ free
  free_left free chain visited n p c h new =
      let more =
        distinct_names-le (p.name ∷ visited) (pool_names pools) (ground (arith, c.distinct))
          (ground (arith, c.known, get_named n pools p h)) in
      omega (arith, more, c.count, length-pool_names pools)

  -- Moving up leaves the frames below as they are.
  pub pop-IsChained :
      (free : ℕ) (p : Pool) (rest : List String) (g : Frame) (chain : List Frame)
      (visited : List String)
      → IsChained free (record { current_pool = p; rest = rest } ∷ g ∷ chain) visited
      → IsChained (suc free) (g ∷ chain) (erase_name p.name visited)
  pop-IsChained free p rest g chain [] c = absurd (cc (c.same))
  pop-IsChained free p rest g chain (n ∷ visited) c =
      let top : n ≡ p.name = cc (c.same) in
      let below : visited ≡ above (g ∷ chain) = cc (c.same) in
      let here : str_eq n p.name ≡ true = ap (λ m. str_eq m p.name) top ∙ str_eq_refl p.name in
      rw here (record {
        same = below;
        distinct = ground (arith, c.distinct);
        known = ground (arith, c.known);
        count = omega (arith, c.count);
      })

  -- Moving down takes a free pool.
  pub push-IsChained :
      (free : ℕ) (n : String) (p q : Pool) (rest : List String) (chain : List Frame)
      (visited : List String)
      → IsChained (suc free) (record { current_pool = q; rest = rest } ∷ chain) visited
      → get n pools ≡ some p
      → has_name p.name visited ≡ false
      → IsChained free
          (record { current_pool = p; rest = p.members }
            ∷ record { current_pool = q; rest = rest }
            ∷ chain)
          (p.name ∷ visited)
  push-IsChained free n p q rest chain visited c h new = record {
    same = ap (λ ns. p.name ∷ ns) c.same;
    distinct = ground (arith, c.distinct);
    known = ground (arith, c.known, get_named n pools p h);
    count = omega (arith, c.count);
  }

  product_le : (x m y : ℕ) → x ≤ m → x * y ≤ m * y
  product_le x m y h = grind arith

  pub rest-IsChained :
      (free : ℕ) (n : String) (p : Pool) (rest : List String) (chain : List Frame)
      (visited : List String)
      → IsChained free (record { current_pool = p; rest = n ∷ rest } ∷ chain) visited
      → IsChained free (record { current_pool = p; rest = rest } ∷ chain) visited
  rest-IsChained free n p rest chain visited c = record {
    same = c.same;
    distinct = c.distinct;
    known = c.known;
    count = c.count;
  }

  turns_positive : (free : ℕ) → 1 ≤ turns pools free
  turns_positive zero = omega arith
  turns_positive (suc free) = omega arith

  pub weight_less :
      (free m fuel below : ℕ)
      → suc m * turns pools free + 1 + below ≤ suc fuel
      → m * turns pools free + 1 + below ≤ fuel
  weight_less free m fuel below h = omega (arith, turns_positive free)

  pub weight_pushed :
      (free l m fuel below : ℕ)
      → l ≤ total_members pools
      → suc m * turns pools (suc free) + 1 + below ≤ suc fuel
      → l * turns pools free + 1 + (m * turns pools (suc free) + 1 + below) ≤ fuel
  weight_pushed free l m fuel below k h =
      omega (arith, product_le l (total_members pools) (turns pools free) k)
