-- ===== src/GenericResolver/Fuel.antt =====
-- The fuel of the walk of a GenericResolver (src/ostore/genericresolver.h) is enough.
use rules_analyzer.Base.{
  ℕ, zero, suc, ◌≤◌, ◌≡◌, refl, false, List, [], ◌∷◌, length, Option, none, some, String, Outcome,
  ok, err, arith, Bool-cases, inl, inr, has_name,
}
use rules_analyzer.Cache.{Cache, get}
use rules_analyzer.GenericResolver.{
  Pool, Frame, Walk, ResolverFault, loop_in, push, visit, turn, go_on, walk, resolve_fuel, start,
  resolve,
}
use rules_analyzer.GenericResolver.Chain.{
  get_members, weight, weight_less, weight_pushed, IsChained, free_left, pop-IsChained,
  push-IsChained, rest-IsChained,
}

module _ {O : Type 0} (find_object : String → Option O) (pools : Cache Pool) where
  -- The rest of the walk ends.
  abbrev Ends : ℕ → Type 0
  Ends fuel =
      (free : ℕ) (chain : List Frame) (w : Walk O)
      → IsChained find_object pools free chain w.visited
      → weight find_object pools free chain ≤ fuel
      → (o : Outcome ResolverFault (Walk O)) × (walk find_object pools fuel chain w ≡ some o)

  pushed :
      (fuel free : ℕ) (n : String) (p q : Pool) (rest : List String) (chain : List Frame)
      (w : Walk O)
      → Ends fuel
      → get n pools ≡ some q
      → IsChained find_object pools free
          (record { current_pool = p; rest = n ∷ rest } ∷ chain)
          w.visited
      → weight find_object pools free (record { current_pool = p; rest = n ∷ rest } ∷ chain)
        ≤ suc fuel
      → has_name q.name w.visited ≡ false
      → (r : Outcome ResolverFault (Walk O)) × (walk find_object pools fuel
            (record { current_pool = q; rest = q.members }
              ∷ record { current_pool = p; rest = rest }
              ∷ chain)
            (push find_object pools q
              (record w { chain = record { current_pool = p; rest = rest } ∷ chain }))
          ≡ some r)
  pushed fuel zero n p q rest chain w again e c h new =
      absurd (omega (arith, free_left find_object pools zero _ w.visited n q c e new))
  pushed fuel (suc free) n p q rest chain w again e c h new =
      again free _ _
        (push-IsChained find_object pools free n q p rest chain w.visited
          (rest-IsChained find_object pools (suc free) n p rest chain w.visited c) e new)
        (weight_pushed find_object pools free (length q.members) (length rest) fuel
          (weight find_object pools (suc (suc free)) chain) (get_members n pools q e) h)

  visit-Ends :
      (fuel free : ℕ) (n : String) (p : Pool) (rest : List String) (chain : List Frame) (w : Walk O)
      (o : Option O) (q : Option Pool)
      → Ends fuel
      → get n pools ≡ q
      → IsChained find_object pools free
          (record { current_pool = p; rest = n ∷ rest } ∷ chain)
          w.visited
      → weight find_object pools free (record { current_pool = p; rest = n ∷ rest } ∷ chain)
        ≤ suc fuel
      → (r : Outcome ResolverFault (Walk O)) × (go_on find_object pools
            (λ next v. walk find_object pools fuel next v)
            (visit find_object pools o q n
              (record w { chain = record { current_pool = p; rest = rest } ∷ chain }))
          ≡ some r)
  visit-Ends fuel free n p rest chain w (some o) q again e c h =
      again free (record { current_pool = p; rest = rest } ∷ chain) _
        (rest-IsChained find_object pools free n p rest chain w.visited c)
        (weight_less find_object pools free (length rest) fuel
          (weight find_object pools (suc free) chain) h)
  visit-Ends fuel free n p rest chain w none none again e c h =
      again free (record { current_pool = p; rest = rest } ∷ chain) _
        (rest-IsChained find_object pools free n p rest chain w.visited c)
        (weight_less find_object pools free (length rest) fuel
          (weight find_object pools (suc free) chain) h)
  visit-Ends fuel free n p rest chain w none (some q) again e c h =
      elim (Bool-cases (has_name q.name w.visited)) [
        | inl looped ↦ (err (loop_in n), rw looped refl)
        | inr new ↦ rw new (pushed fuel free n p q rest chain w again e c h new)
      ]

  turn-Ends :
      (fuel free : ℕ) (p : Pool) (rest : List String) (chain : List Frame) (w : Walk O)
      → Ends fuel
      → IsChained find_object pools free
          (record { current_pool = p; rest = rest } ∷ chain)
          w.visited
      → weight find_object pools free (record { current_pool = p; rest = rest } ∷ chain) ≤ suc fuel
      → (r : Outcome ResolverFault (Walk O)) × (go_on find_object pools
            (λ next v. walk find_object pools fuel next v)
            (turn find_object pools p rest chain w)
          ≡ some r)
  unfolding walk
  turn-Ends fuel free p (n ∷ rest) chain w again c h =
      visit-Ends fuel free n p rest chain w (find_object n) (get n pools) again refl c h
  turn-Ends fuel free p [] [] w again c h = (_, refl)
  turn-Ends fuel free p [] (g ∷ chain) w again c h =
      again (suc free) (g ∷ chain) _ (pop-IsChained find_object pools free p [] g chain w.visited c)
        (omega arith)

  walk-Ends : (fuel : ℕ) → Ends fuel
  unfolding walk
  walk-Ends fuel free [] w c h = (ok w, refl)
  walk-Ends zero free (f ∷ chain) w c h = absurd (omega arith)
  walk-Ends (suc fuel) free (f ∷ chain) w c h =
      turn-Ends fuel free f.current_pool f.rest chain w (walk-Ends fuel) c h

  -- Of any pool, with any dictionaries, resolve ends within its fuel: with the members, or with the
  -- exception.
  pub resolve_ends :
      (p : Pool) (unresolved : List String)
      → (o : Outcome ResolverFault (Walk O)) × (resolve find_object pools p unresolved ≡ some o)
  unfolding resolve
  resolve_ends p unresolved =
      walk-Ends (resolve_fuel pools p) (length pools) (start find_object pools p unresolved).chain
        (start find_object pools p unresolved)
        (record { same = refl; distinct = refl; known = refl; count = omega arith }) (omega arith)
