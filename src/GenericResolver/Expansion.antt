-- ===== src/GenericResolver/Expansion.antt =====
-- What resolve of a GenericResolver (src/ostore/genericresolver.h) answers is what the pool stands for.
use mathlib.Core.List.{append-nil}
use rules_analyzer.Base.{
  ℕ, zero, suc, ◌≡◌, refl, sym, ap, ◌∙◌, List, [], ◌∷◌, ◌++◌, Option, none, some, String, ok,
  Bool-cases, inl, inr, has_name,
}
use rules_analyzer.Cache.{Cache, get}
use rules_analyzer.GenericResolver.{
  Pool, PoolMember, pool, Frame, Walk, visit, turn, go_on, walk, resolve_fuel, start, resolve,
}
use rules_analyzer.GenericResolver.Members.{
  Expands, Adds, after_object, after_unknown, after_pool, after_pop,
}

module _ {O : Type 0} (find_object : String → Option O) (pools : Cache Pool) where
  abbrev AllAdds : ℕ → Type 0
  AllAdds fuel =
      (chain : List Frame) (w w' : Walk O)
      → walk find_object pools fuel chain w ≡ some (ok w')
      → Adds find_object pools chain w.expanded_list w'.expanded_list w.unresolved w'.unresolved

  visit-Adds :
      (fuel : ℕ) (n : String) (p : Pool) (rest : List String) (chain : List Frame) (w w' : Walk O)
      (o : Option O) (q : Option Pool)
      → AllAdds fuel
      → find_object n ≡ o
      → get n pools ≡ q
      → go_on find_object pools
          (λ next v. walk find_object pools fuel next v)
          (visit find_object pools o q n
            (record w { chain = record { current_pool = p; rest = rest } ∷ chain }))
        ≡ some (ok w')
      → Adds find_object pools
          (record { current_pool = p; rest = n ∷ rest } ∷ chain)
          w.expanded_list
          w'.expanded_list
          w.unresolved
          w'.unresolved
  visit-Adds fuel n p rest chain w w' (some o) q again e e' h =
      after_object find_object pools p n rest chain _ _ _ _ o e (again _ _ w' h)
  visit-Adds fuel n p rest chain w w' none none again e e' h =
      after_unknown find_object pools p n rest chain _ _ _ _ e e' (again _ _ w' h)
  visit-Adds fuel n p rest chain w w' none (some q) again e e' h =
      elim (Bool-cases (has_name q.name w.visited)) [
        | inl looped ↦ absurd (cc (rw looped at h))
        | inr new ↦
            after_pool find_object pools p n rest chain _ _ _ _ q e e' (again _ _ w' (rw new at h))
      ]

  turn-Adds :
      (fuel : ℕ) (p : Pool) (rest : List String) (chain : List Frame) (w w' : Walk O)
      → AllAdds fuel
      → go_on find_object pools
          (λ next v. walk find_object pools fuel next v)
          (turn find_object pools p rest chain w)
        ≡ some (ok w')
      → Adds find_object pools
          (record { current_pool = p; rest = rest } ∷ chain)
          w.expanded_list
          w'.expanded_list
          w.unresolved
          w'.unresolved
  turn-Adds fuel p [] chain w w' again h =
      after_pop find_object pools p chain _ _ _ _ (again chain _ w' h)
  turn-Adds fuel p (n ∷ rest) chain w w' again h =
      visit-Adds fuel n p rest chain w w' (find_object n) (get n pools) again refl refl h

  walk-Adds : (fuel : ℕ) → AllAdds fuel
  unfolding walk
  walk-Adds fuel [] w w' h =
      let same : w ≡ w' = cc in
      record {
        es = [];
        us = [];
        expands = (refl, refl);
        added = ap (λ (v : Walk O). v.expanded_list) (sym same) ∙ sym (append-nil w.expanded_list);
        noted = ap (λ (v : Walk O). v.unresolved) (sym same) ∙ sym (append-nil w.unresolved);
      }
  walk-Adds zero (f ∷ chain) w w' h = absurd (cc)
  walk-Adds (suc fuel) (f ∷ chain) w w' h =
      turn-Adds fuel f.current_pool f.rest chain w w' (walk-Adds fuel) h

  -- When resolve throws nothing, its list is what the members of the pool are expanded to, with the pool
  -- itself at the end, and it has added the names that are not found, in their order, to the unresolved
  -- ones.
  pub resolve-Expands :
      (p : Pool) (unresolved : List String) (w : Walk O)
      → resolve find_object pools p unresolved ≡ some (ok w)
      → (es : List (PoolMember O)) × (us : List String) × Expands find_object pools p.members es us
        × (w.expanded_list ≡ es ++ pool p ∷ [])
        × (w.unresolved ≡ unresolved ++ us)
  unfolding resolve
  resolve-Expands p unresolved w h =
      let a =
        walk-Adds (resolve_fuel pools p) (record { current_pool = p; rest = p.members } ∷ [])
          (start find_object pools p unresolved) w h in
      let (es1, es2, us1, us2, x, below, e, k) = a.expands in
      (
        es1,
        us1,
        x,
        a.added ∙ e ∙ ap (λ r. es1 ++ pool p ∷ r) below.0,
        a.noted ∙ ap (λ r. unresolved ++ r) (k ∙ ap (λ r. us1 ++ r) below.1 ∙ append-nil us1),
      )
