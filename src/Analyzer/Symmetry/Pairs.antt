-- ===== src/Analyzer/Symmetry/Pairs.antt =====
-- `check_symmetry` with its cache against the plain list of the symmetrical pairs.
use mathlib.Core.List.{append-nil, append_assoc}
use rules_analyzer.Base.{
  ℕ, ◌+◌, ◌==◌, ◌≡◌, refl, sym, ap, ◌∙◌, Bool, false, if◌then◌else◌, List, [], ◌∷◌, ◌++◌, map,
  filter, some, Bool-cases, Option-cases, inl, inr, ==_iff, ok,
}
use rules_analyzer.Bdd.{Buddy}
use rules_analyzer.Rule.{Rule}
use rules_analyzer.RuleList.{RuleList}
use rules_analyzer.Analyzer.{Bddcache, lookup, insert}
use rules_analyzer.Analyzer.Search.{lookup-insert}
use rules_analyzer.Analyzer.Symmetry.{
  RulePair, Search, symmetrical_bdd, cached_symmetrical, are_symmetrical, check_others, check_pairs,
  check_symmetry,
}

module _ (L : Buddy) (places fresh : ℕ) (other_way : ℕ → L.Bdd) where
  -- Every rule can be turned round, and its diagram goes by its id.
  abbrev pub AllNamed : RuleList → Type 0
  AllNamed [] = Unit
  AllNamed (r ∷ rs) = (symmetrical_bdd L places fresh r ≡ ok (other_way r.id)) × AllNamed rs

  -- The rules behind a rule that are the rule the other way, and all such pairs of a list.
  abbrev pub partners : Rule → RuleList → List RulePair
  partners r rs =
      map (λ s. (r, s)) (filter (λ s. are_symmetrical L places fresh r s (other_way s.id)) rs)

  abbrev pub symmetrical_pairs : RuleList → List RulePair
  symmetrical_pairs [] = []
  symmetrical_pairs (r ∷ rs) = partners r rs ++ symmetrical_pairs rs

  abbrev IsTrue : Bddcache L → Type 0
  IsTrue cache = (i : ℕ) (b : L.Bdd) → lookup L i cache ≡ some b → b ≡ other_way i

  nothing-IsTrue : IsTrue []
  unfolding lookup
  nothing-IsTrue i b e = cc

  insert-IsTrue :
      (k : ℕ) (cache : Bddcache L) → IsTrue cache → IsTrue (insert L k (other_way k) cache)
  insert-IsTrue k cache t i b e =
      let h : (if k == i then some (other_way k) else lookup L i cache) ≡ some b =
        sym (lookup-insert L k i (other_way k) cache) ∙ e in
      elim (Bool-cases (k == i)) [
        | inl same ↦
            let target : k ≡ i = (==_iff k i).0 same in
            let value : some (other_way k) ≡ some b = rw same at h in rw (← target) cc
        | inr other ↦ t i b (rw other at h)
      ]

  cached_lem :
      (r : Rule) (cache : Bddcache L)
      → symmetrical_bdd L places fresh r ≡ ok (other_way r.id)
      → IsTrue cache
      → (after : Bddcache L) × (cached_symmetrical L places fresh r cache
          ≡ ok (other_way r.id, after))
        × IsTrue after
  unfolding cached_symmetrical
  cached_lem r cache e t = elim (Option-cases (lookup L r.id cache)) [
    | inl absent ↦
        (insert L r.id (other_way r.id) cache, rw (absent, e) refl, insert-IsTrue r.id cache t)
    | inr (b, here) ↦ (cache, rw (here, t r.id b here) refl, t)
  ]

  abbrev next_search : Rule → Rule → Search L → Bddcache L → Search L
  next_search r o s cache = record {
    rounds = s.rounds + 1;
    cache = cache;
    pairs =
        if are_symmetrical L places fresh r o (other_way o.id)
        then s.pairs ++ (r, o) ∷ []
        else s.pairs;
  }

  next_partner :
      (r o : Rule) (rs : RuleList) (s : Search L) (cache : Bddcache L)
      → (next_search r o s cache).pairs ++ partners r rs ≡ s.pairs ++ partners r (o ∷ rs)
  next_partner r o rs s cache =
      elim (Bool-cases (are_symmetrical L places fresh r o (other_way o.id))) [
        | inl same ↦ rw same (append_assoc s.pairs ((r, o) ∷ []) (partners r rs))
        | inr other ↦ rw other refl
      ]

  check_others_lem :
      (interrupts : ℕ → Bool) (r : Rule) (rs : RuleList) (s : Search L)
      → ((k : ℕ) → interrupts k ≡ false)
      → AllNamed rs
      → IsTrue s.cache
      → (after : Search L) × (check_others L places fresh interrupts r rs s ≡ ok after)
        × IsTrue after.cache
        × (after.pairs ≡ s.pairs ++ partners r rs)
  unfolding check_others
  check_others_lem interrupts r [] s never n t = (s, refl, t, sym (append-nil s.pairs))
  check_others_lem interrupts r (o ∷ rs) s never n t =
      let (cache, q, kept) = cached_lem o s.cache n.0 t in
      let (after, k, u, e) =
        check_others_lem interrupts r rs (next_search r o s cache) never n.1 kept in
      (after, rw (q, never s.rounds) k, u, e ∙ next_partner r o rs s cache)

  -- One list after the other.
  check_pairs_lem :
      (interrupts : ℕ → Bool) (acl : RuleList) (s : Search L)
      → ((k : ℕ) → interrupts k ≡ false)
      → AllNamed acl
      → IsTrue s.cache
      → (after : Search L) × (check_pairs L places fresh interrupts acl s ≡ ok after)
        × (after.pairs ≡ s.pairs ++ symmetrical_pairs acl)
  unfolding check_pairs
  check_pairs_lem interrupts [] s never n t = (s, refl, sym (append-nil s.pairs))
  check_pairs_lem interrupts (r ∷ acl) s never n t =
      let (mid, k, u, e) = check_others_lem interrupts r acl s never n.1 t in
      let (after, q, f) = check_pairs_lem interrupts acl mid never n.1 u in
      (
        after,
        rw k q,
        f
            ∙ ap (λ ps. ps ++ symmetrical_pairs acl) e
            ∙ append_assoc s.pairs (partners r acl) (symmetrical_pairs acl),
      )

  pub check_symmetry-symmetrical_pairs :
      (interrupts : ℕ → Bool) (acl : RuleList)
      → ((k : ℕ) → interrupts k ≡ false)
      → AllNamed acl
      → check_symmetry L places fresh interrupts acl ≡ ok (symmetrical_pairs acl)
  unfolding check_symmetry
  check_symmetry-symmetrical_pairs interrupts acl never n =
      let (after, q, e) =
        check_pairs_lem interrupts acl (record { rounds = 0; cache = []; pairs = [] }) never n
          nothing-IsTrue in
      rw (q, e) refl
