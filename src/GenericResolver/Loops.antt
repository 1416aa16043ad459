-- ===== src/GenericResolver/Loops.antt =====
-- The exception of a GenericResolver (src/ostore/genericresolver.h) is thrown for pools in a loop only.
use text.Mathlib.Text.{◌==◌ as str_eq}
use text.Mathlib.TextEquality.{eq_iff}
use rules_analyzer.Base.{
  ℕ, zero, suc, ◌≡◌, refl, sym, ap, ◌∙◌, ◌⊎◌, inl, inr, true, false, List, [], ◌∷◌, all, length,
  Option, none, some, String, err, arith, Bool-cases, has_name, str_eq_refl,
}
use rules_analyzer.Cache.{Cache, get}
use rules_analyzer.GenericResolver.{
  Pool, Frame, Walk, loop_in, push, visit, turn, go_on, walk, resolve_fuel, start, resolve,
}
use rules_analyzer.GenericResolver.Chain.{
  above_at, IsChained, free_left, pop-IsChained, push-IsChained, rest-IsChained,
}

module _ {O : Type 0} (find_object : String → Option O) (pools : Cache Pool) where
  -- A pool has a member that names another pool, or there are such pools between them.
  pub data Reaches : Pool → Pool → Type 0 where
    names_pool :
        {p q : Pool} (n : String)
        → has_name n p.members ≡ true
        → find_object n ≡ none
        → get n pools ≡ some q
        → Reaches p q
    further : {p q r : Pool} → Reaches p q → Reaches q r → Reaches p r

  abbrev IsPart : Pool → List String → Type 0
  IsPart p rest = all (λ n. has_name n p.members) rest ≡ true

  -- Each pool of a chain has the one above it as a member.
  abbrev LinkedAt : Pool → List Frame → Type 0
  LinkedAt p [] = Unit
  LinkedAt p (g ∷ fs) =
      Reaches g.current_pool p × IsPart g.current_pool g.rest × LinkedAt g.current_pool fs

  abbrev IsLinked : List Frame → Type 0
  IsLinked [] = Unit
  IsLinked (f ∷ fs) = IsPart f.current_pool f.rest × LinkedAt f.current_pool fs

  abbrev pub Loops : String → Type 0
  Loops n = (p : Pool) × (q : Pool) × (get n pools ≡ some q) × (p.name ≡ q.name) × Reaches p q

  -- A visited pool is one of the chain.
  in_chain :
      (m : String) (p : Pool) (chain : List Frame)
      → LinkedAt p chain
      → has_name m (above_at p.name chain) ≡ true
      → (r : Pool) × (r.name ≡ m) × ((r ≡ p) ⊎ Reaches r p)
  in_chain m p [] l h = absurd (cc)
  in_chain m p (g ∷ fs) l h = elim (Bool-cases (str_eq p.name m)) [
    | inl here ↦ (p, (eq_iff p.name m).0 here, inl refl)
    | inr other ↦
        let (r, e, x) = in_chain m g.current_pool fs l.2 (rw other at h) in
        elim x [ inl same ↦ (r, e, inr (rw same l.0)) | inr far ↦ (r, e, inr (further far l.0)) ]
  ]

  closes :
      (n : String) (p q : Pool) (chain : List Frame)
      → LinkedAt p chain
      → Reaches p q
      → get n pools ≡ some q
      → has_name q.name (above_at p.name chain) ≡ true
      → Loops n
  closes n p q chain l x e h =
      let (r, same, y) = in_chain q.name p chain l h in
      elim y [ inl here ↦ (r, q, e, same, rw here x) | inr far ↦ (r, q, e, same, further far x) ]

  part_refl :
      (ms ns : List String)
      → ((m : String) → has_name m ns ≡ true → has_name m ms ≡ true)
      → all (λ n. has_name n ms) ns ≡ true
  part_refl ms [] h = refl
  part_refl ms (n ∷ ns) h =
      let here : has_name n (n ∷ ns) ≡ true = rw (str_eq_refl n) refl in
      ground (arith, h n here, part_refl ms ns (λ m k. h m (ground arith)))

  abbrev AllLoop : ℕ → String → Type 0
  AllLoop fuel m =
      (free : ℕ) (chain : List Frame) (w : Walk O)
      → IsChained find_object pools free chain w.visited
      → IsLinked chain
      → walk find_object pools fuel chain w ≡ some (err (loop_in m))
      → Loops m

  module _ (fuel : ℕ) (m : String) (again : AllLoop fuel m) where
    pushed_loop :
        (free : ℕ) (n : String) (p q : Pool) (rest : List String) (chain : List Frame) (w : Walk O)
        → get n pools ≡ some q
        → Reaches p q
        → IsChained find_object pools free
            (record { current_pool = p; rest = rest } ∷ chain)
            w.visited
        → IsLinked (record { current_pool = p; rest = rest } ∷ chain)
        → has_name q.name w.visited ≡ false
        → walk find_object pools fuel
            (record { current_pool = q; rest = q.members }
              ∷ record { current_pool = p; rest = rest }
              ∷ chain)
            (push find_object pools q
              (record w { chain = record { current_pool = p; rest = rest } ∷ chain }))
          ≡ some (err (loop_in m))
        → Loops m
    pushed_loop zero n p q rest chain w e x c l new h =
        absurd (omega (arith, free_left find_object pools zero _ w.visited n q c e new))
    pushed_loop (suc free) n p q rest chain w e x c l new h =
        again free _ _ (push-IsChained find_object pools free n q p rest chain w.visited c e new)
          (part_refl q.members q.members (λ k i. i), (x, l.0, l.1)) h

    visit_loop :
        (free : ℕ) (n : String) (p : Pool) (rest : List String) (chain : List Frame) (w : Walk O)
        (o : Option O) (q : Option Pool)
        → find_object n ≡ o
        → get n pools ≡ q
        → has_name n p.members ≡ true
        → IsChained find_object pools free
            (record { current_pool = p; rest = rest } ∷ chain)
            w.visited
        → IsLinked (record { current_pool = p; rest = rest } ∷ chain)
        → go_on find_object pools
            (λ next v. walk find_object pools fuel next v)
            (visit find_object pools o q n
              (record w { chain = record { current_pool = p; rest = rest } ∷ chain }))
          ≡ some (err (loop_in m))
        → Loops m
    visit_loop free n p rest chain w (some o) q e e' i c l h = again free _ _ c l h
    visit_loop free n p rest chain w none none e e' i c l h = again free _ _ c l h
    visit_loop free n p rest chain w none (some q) e e' i c l h =
        let x : Reaches p q = names_pool n i e e' in
        elim (Bool-cases (has_name q.name w.visited)) [
          | inl looped ↦
              let thrown : some (err (loop_in n)) ≡ some (err (loop_in m)) = rw looped at h in
              let named : n ≡ m = cc in
              rw (sym named)
                (closes n p q chain l.1 x e' (ap (λ v. has_name q.name v) (sym c.same) ∙ looped))
          | inr new ↦ pushed_loop free n p q rest chain w e' x c l new (rw new at h)
        ]

    turn_loop :
        (free : ℕ) (p : Pool) (rest : List String) (chain : List Frame) (w : Walk O)
        → IsChained find_object pools free
            (record { current_pool = p; rest = rest } ∷ chain)
            w.visited
        → IsLinked (record { current_pool = p; rest = rest } ∷ chain)
        → go_on find_object pools
            (λ next v. walk find_object pools fuel next v)
            (turn find_object pools p rest chain w)
          ≡ some (err (loop_in m))
        → Loops m
    unfolding walk
    turn_loop free p (n ∷ rest) chain w c l h =
        visit_loop free n p rest chain w (find_object n) (get n pools) refl refl
          (ground (arith, l.0)) (rest-IsChained find_object pools free n p rest chain w.visited c)
          (ground (arith, l.0), l.1) h
    turn_loop free p [] [] w c l h = absurd (cc)
    turn_loop free p [] (g ∷ chain) w c l h =
        again (suc free) (g ∷ chain) _
          (pop-IsChained find_object pools free p [] g chain w.visited c) (l.1.1, l.1.2) h

  walk_loop : (fuel : ℕ) (m : String) → AllLoop fuel m
  unfolding walk
  walk_loop fuel m free [] w c l h = absurd (cc)
  walk_loop zero m free (f ∷ chain) w c l h = absurd (cc)
  walk_loop (suc fuel) m free (f ∷ chain) w c l h =
      turn_loop fuel m (walk_loop fuel m) free f.current_pool f.rest chain w c l h

  -- When resolve throws, the dictionary has a pool under the name in the exception, and a pool of the
  -- same name has it among its members, or among those of the pools that its members name.
  pub resolve_loop :
      (p : Pool) (unresolved : List String) (n : String)
      → resolve find_object pools p unresolved ≡ some (err (loop_in n))
      → Loops n
  unfolding resolve
  resolve_loop p unresolved n h =
      walk_loop (resolve_fuel pools p) n (length pools)
        (record { current_pool = p; rest = p.members } ∷ []) (start find_object pools p unresolved)
        (record { same = refl; distinct = refl; known = refl; count = omega arith })
        (part_refl p.members p.members (λ k i. i), tt) h
