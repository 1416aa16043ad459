-- ===== src/Group/Flat.antt =====
-- A group against the flat list of the items below it: what `parse`, `items`, `contains`, `size`,
-- `empty` and `make_bdd` of src/model/group.h compute, in terms of that list.
use mathlib.Core.List.{foldl}
use native.Mathlib.Decide.{ℕ_discrete}
use rules_analyzer.Base.{
  ℕ, ◌≤◌, ◌==◌, ◌≡◌, refl, sym, ap, ◌∙◌, Bool, false, ◌||◌, List, [], ◌∷◌, ◌++◌, any, length,
  any-append, length-append, arith, Bool-cases, inl, inr,
}
use rules_analyzer.Bdd.{Buddy}
use rules_analyzer.Group.{
  Node, Group, group, Members, nil, item, sub, plain, any_group, app_default, parse, parse_members,
  size, size_members, direct_item, contains_item, sub_contains_item, resolve, items, empty,
  make_bdd, or_members,
}

module _ {T : Type 0} where
  -- The items below a group, depth first, repeats included.
  mutual
    pub flat : Group T → List T
    flat (group cls a n ms) = flat_members ms

    pub flat_members : Members T → List T
    flat_members nil = []
    flat_members (item t ms) = t ∷ flat_members ms
    flat_members (sub g ms) = flat g ++ flat_members ms

  foldl-append {ℓ} :
      {S : Type ℓ} (f : S → T → S) (s : S) (xs ys : List T)
      → foldl f s (xs ++ ys) ≡ foldl f (foldl f s xs) ys
  foldl-append f s [] ys = refl
  foldl-append f s (x ∷ xs) ys = foldl-append f (f s x) xs ys

  mutual
    unfolding parse flat

    parse-flat {ℓ} :
        {S : Type ℓ} (f : S → T → S) (s : S) (g : Group T) → parse f s g ≡ foldl f s (flat g)
    parse-flat f s (group cls a n ms) = parse_members_flat f s ms

    parse_members_flat {ℓ} :
        {S : Type ℓ} (f : S → T → S) (s : S) (ms : Members T)
        → parse_members f s ms ≡ foldl f s (flat_members ms)
    parse_members_flat f s nil = refl
    parse_members_flat f s (item t ms) = parse_members_flat f (f s t) ms
    parse_members_flat f s (sub g ms) =
        rw (parse-flat f s g) (parse_members_flat f (foldl f s (flat g)) ms)
        ∙ sym (foldl-append f s (flat g) (flat_members ms))

  mutual
    unfolding size flat

    size-flat : (g : Group T) → size g ≡ length (flat g)
    size-flat (group cls a n ms) = size_members_flat ms

    size_members_flat : (ms : Members T) → size_members ms ≡ length (flat_members ms)
    size_members_flat nil = refl
    size_members_flat (item t ms) = omega (arith, size_members_flat ms)
    size_members_flat (sub g ms) =
        omega (arith, size-flat g, size_members_flat ms, length-append (flat g) (flat_members ms))

module _ {L : Buddy} {T : Type 0} (node : Node L T) where
  open L use {Packet, holds, bdd_or}
  open node use {address}

  abbrev pub Holds_at : ℕ → List T → Bool
  Holds_at a = any (λ s. address s == a)

  mutual
    unfolding contains_item flat

    contains_flat : (g : Group T) (a : ℕ) → contains_item node g a ≡ Holds_at a (flat g)
    contains_flat (group cls b n ms) a = contains_members_flat ms a

    contains_members_flat :
        (ms : Members T) (a : ℕ)
        → (direct_item node ms a || sub_contains_item node ms a) ≡ Holds_at a (flat_members ms)
    contains_members_flat nil a = refl
    contains_members_flat (item t ms) a = ground (arith, contains_members_flat ms a)
    contains_members_flat (sub g ms) a = ground (
      arith,
      contains_flat g a,
      contains_members_flat ms a,
      any-append (λ s. address s == a) (flat g) (flat_members ms),
    )

  -- No two items of the list have one address.
  abbrev pub Distinct : List T → Type 0
  Distinct [] = Unit
  Distinct (t ∷ ts) = (Holds_at (address t) ts ≡ false) × Distinct ts

  ==_comm : (a b : ℕ) → (a == b) ≡ (b == a)
  ==_comm a b = ground arith

  Distinct-snoc :
      (ts : List T) (t : T)
      → Distinct ts
      → Holds_at (address t) ts ≡ false
      → Distinct (ts ++ t ∷ [])
  Distinct-snoc [] t d h = (refl, tt)
  Distinct-snoc (s ∷ ts) t d h = (
    ground (
      arith,
      any-append (λ r. address r == address s) ts (t ∷ []),
      ==_comm (address s) (address t),
    ),
    Distinct-snoc ts t d.1 (ground arith),
  )

  resolve-Distinct : (found : List T) (t : T) → Distinct found → Distinct (resolve node found t)
  resolve-Distinct found t d = elim (Bool-cases (Holds_at (address t) found)) [
    | inl old ↦ rw old d
    | inr new ↦ rw new (Distinct-snoc found t d new)
  ]

  resolve_at :
      (found : List T) (t : T) (a : ℕ)
      → Holds_at a (resolve node found t) ≡ (Holds_at a found || address t == a)
  resolve_at found t a = elim (Bool-cases (Holds_at (address t) found)) [
    | inl old ↦ elim (ℕ_discrete (address t) a) [
      | yes e ↦ ground (arith, ap (λ b. Holds_at b found) e)
      | no n ↦ ground arith
    ]
    | inr new ↦ ground (arith, any-append (λ s. address s == a) found (t ∷ []))
  ]

  fold_at :
      (found ts : List T) (a : ℕ)
      → Holds_at a (foldl (resolve node) found ts) ≡ (Holds_at a found || Holds_at a ts)
  fold_at found [] a = ground arith
  fold_at found (t ∷ ts) a =
      ground (arith, fold_at (resolve node found t) ts a, resolve_at found t a)

  fold-Distinct : (found ts : List T) → Distinct found → Distinct (foldl (resolve node) found ts)
  fold-Distinct found [] d = d
  fold-Distinct found (t ∷ ts) d =
      fold-Distinct (resolve node found t) ts (resolve-Distinct found t d)

  -- `items` lists the addresses below the group, each once, whatever the nesting.
  pub items_exact :
      (g : Group T)
      → Distinct (items node g) × ((a : ℕ) → Holds_at a (items node g) ≡ contains_item node g a)
  unfolding items
  items_exact g = (
    rw (parse-flat (resolve node) [] g) (fold-Distinct [] (flat g) tt),
    λ a.
        ap (Holds_at a) (parse-flat (resolve node) [] g)
        ∙ fold_at [] (flat g) a
        ∙ sym (contains_flat g a),
  )

  length-resolve : (found : List T) (t : T) → length found ≤ length (resolve node found t)
  length-resolve found t = ground (arith, length-append found (t ∷ []))

  fold_length : (found ts : List T) → length found ≤ length (foldl (resolve node) found ts)
  fold_length found [] = omega arith
  fold_length found (t ∷ ts) =
      omega (arith, fold_length (resolve node found t) ts, length-resolve found t)

  none_found : (ts : List T) → (length (foldl (resolve node) [] ts) == 0) ≡ (length ts == 0)
  none_found [] = refl
  none_found (t ∷ ts) = ground (arith, fold_length (t ∷ []) ts)

  -- `empty` is true exactly when no item stands below the group, at any depth.
  pub empty-size : (g : Group T) → empty node g ≡ (size g == 0)
  unfolding empty items
  empty-size g =
      ap (λ ts. length ts == 0) (parse-flat (resolve node) [] g)
      ∙ none_found (flat g)
      ∙ ap (λ n. n == 0) (sym (size-flat g))

  -- No Any group stands in the tree.
  unfoldable mutual
    pub IsPlain : Group T → Type 0
    IsPlain (group plain a n ms) = ArePlain ms
    IsPlain (group any_group a n ms) = ⊥
    IsPlain (group app_default a n ms) = ArePlain ms

    pub ArePlain : Members T → Type 0
    ArePlain nil = Unit
    ArePlain (item t ms) = ArePlain ms
    ArePlain (sub g ms) = IsPlain g × ArePlain ms

  abbrev pub Holds_some : Packet → List T → Bool
  Holds_some p = any (λ t. holds (node.make_bdd t) p)

  mutual
    unfolding make_bdd flat IsPlain

    holds_flat :
        (g : Group T) (p : Packet) → IsPlain g → holds (make_bdd node g) p ≡ Holds_some p (flat g)
    holds_flat (group plain a n ms) p h =
        holds_members L.bddfalse ms p h ∙ ground (arith, L.holds_false p)
    holds_flat (group any_group a n ms) p h = absurd h
    holds_flat (group app_default a n ms) p h =
        holds_members L.bddfalse ms p h ∙ ground (arith, L.holds_false p)

    holds_members :
        (c : L.Bdd) (ms : Members T) (p : Packet)
        → ArePlain ms
        → holds (or_members node c ms) p ≡ (holds c p || Holds_some p (flat_members ms))
    holds_members c nil p h = ground arith
    holds_members c (item t ms) p h =
        ground (
          arith,
          holds_members (bdd_or c (node.make_bdd t)) ms p h,
          L.holds_or c (node.make_bdd t) p,
        )
    holds_members c (sub g ms) p h = ground (
      arith,
      holds_members (bdd_or c (make_bdd node g)) ms p h.1,
      L.holds_or c (make_bdd node g) p,
      holds_flat g p h.0,
      any-append (λ t. holds (node.make_bdd t) p) (flat g) (flat_members ms),
    )

  -- Without an Any group below it, a group holds of a packet exactly when some item below does.
  pub holds-make_bdd_flat :
      (g : Group T) (p : Packet) → IsPlain g → holds (make_bdd node g) p ≡ Holds_some p (flat g)
  holds-make_bdd_flat = holds_flat
