-- ===== src/NamedList/Names.antt =====
-- The set of names of a NamedMnodeList (src/model/mnode.h) is that of the names of its nodes.
use mathlib.Core.Path.{subst}
use mathlib.Core.List.{map-append}
use rules_analyzer.Base.{
  ◌≡◌, refl, sym, ap, ◌∙◌, Bool, true, false, not, ◌&&◌, if◌then◌else◌, List, [], ◌∷◌, ◌++◌, map,
  any-append, arith, Bool-cases, inl, inr, eq_of_iff,
}
use rules_analyzer.NamedList.{
  Named, NamedMnodeList, has, push_back, erase_node, erase_name, remove_present, remove,
}

module _ {T : Type 0} (N : Named T) where
  open N use {Name, name, eq, eq_iff}

  abbrev pub names_of : List T → List Name
  names_of = map name

  abbrev pub IsUnique : List Name → Type 0
  IsUnique [] = Unit
  IsUnique (n ∷ ns) = (has N n ns ≡ false) × IsUnique ns

  -- The set has the names of the nodes, which are distinct.
  pub record IsWellFormed (l : NamedMnodeList N) : Type 0 where
    pub same : (n : Name) → has N n l.named_node_names ≡ has N n (names_of l.named_node_list)
    pub unique : IsUnique (names_of l.named_node_list)

  -- Names that are equal are equal to the same names.
  eq_same : (a b n : Name) → eq a b ≡ true → eq a n ≡ eq b n
  eq_same a b n h = ap (λ x. eq x n) ((eq_iff a b).0 h)

  pub eq_sym : (a b : Name) → eq a b ≡ eq b a
  eq_sym a b =
      eq_of_iff (eq a b) (eq b a) (λ h. (eq_iff b a).1 (sym ((eq_iff a b).0 h)))
        (λ h. (eq_iff a b).1 (sym ((eq_iff b a).0 h)))

  has-erase_name :
      (m n : Name) (ns : List Name) → has N m (erase_name N n ns) ≡ (has N m ns && not (eq m n))
  has-erase_name m n [] = refl
  has-erase_name m n (x ∷ ns) = elim (Bool-cases (eq x m)) [
    | inl here ↦
        let alike : eq x n ≡ eq m n = eq_same x m n here in
        elim (Bool-cases (eq x n)) [
          | inl gone ↦ rw gone (has-erase_name m n ns ∙ ground (arith, alike))
          | inr kept ↦ rw (kept, here) (ground (arith, alike))
        ]
    | inr other ↦ elim (Bool-cases (eq x n)) [
      | inl gone ↦ rw (gone, other) (has-erase_name m n ns)
      | inr kept ↦ rw (kept, other) (has-erase_name m n ns)
    ]
  ]

  IsUnique-snoc :
      (ns : List Name) (n : Name) → IsUnique ns → has N n ns ≡ false → IsUnique (ns ++ n ∷ [])
  IsUnique-snoc [] n u h = (refl, tt)
  IsUnique-snoc (x ∷ ns) n u h = (
    any-append (λ m. eq m x) ns (n ∷ []) ∙ ground (arith, eq_sym n x, u.0),
    IsUnique-snoc ns n u.1 (ground arith),
  )

  names-snoc : (ts : List T) (t : T) → names_of (ts ++ t ∷ []) ≡ names_of ts ++ name t ∷ []
  names-snoc ts t = map-append _ _ _

  push_new :
      (t : T) (l : NamedMnodeList N) (old : Bool)
      → has N (name t) l.named_node_names ≡ old
      → IsWellFormed l
      → IsWellFormed (
          if old then l else record {
            named_node_names = name t ∷ l.named_node_names;
            named_node_list = l.named_node_list ++ t ∷ [];
          })
  push_new t l true h w = w
  push_new t l false h w = record {
    same = λ n.
        ground (arith, w.same n)
        ∙ sym (any-append (λ m. eq m n) (names_of l.named_node_list) (name t ∷ []))
        ∙ ap (has N n) (sym (names-snoc l.named_node_list t));
    unique =
        subst IsUnique (sym (names-snoc l.named_node_list t)) (
          IsUnique-snoc (names_of l.named_node_list) (name t) w.unique (sym (w.same (name t)) ∙ h));
  }

  -- Adding a node keeps the names distinct and the set that of the names.
  pub push_back-IsWellFormed :
      (t : T) (l : NamedMnodeList N) → IsWellFormed l → IsWellFormed (push_back N t l)
  unfolding push_back
  push_back-IsWellFormed t l w = push_new t l (has N (name t) l.named_node_names) refl w

  absent_name : (n : Name) (ns : List Name) → has N n ns ≡ false → erase_name N n ns ≡ ns
  absent_name n [] h = refl
  absent_name n (x ∷ ns) h =
      let other : eq x n ≡ false = ground arith in rw (other, absent_name n ns (ground arith)) refl

  -- The first node of the name is the only one.
  names-erase_node :
      (n : Name) (ts : List T)
      → IsUnique (names_of ts)
      → names_of (erase_node N n ts) ≡ erase_name N n (names_of ts)
  names-erase_node n [] u = refl
  names-erase_node n (t ∷ ts) u = elim (Bool-cases (eq (name t) n)) [
    | inl here ↦
        let target : name t ≡ n = (eq_iff (name t) n).0 here in
        rw here (
          sym (absent_name n (names_of ts) (subst (λ x. has N x (names_of ts) ≡ false) target u.0)))
    | inr other ↦ rw (other, names-erase_node n ts u.1) refl
  ]

  IsUnique-erase_name : (n : Name) (ns : List Name) → IsUnique ns → IsUnique (erase_name N n ns)
  IsUnique-erase_name n [] u = tt
  IsUnique-erase_name n (x ∷ ns) u = elim (Bool-cases (eq x n)) [
    | inl gone ↦ rw gone (IsUnique-erase_name n ns u.1)
    | inr kept ↦ rw kept (has-erase_name x n ns ∙ ground (arith, u.0), IsUnique-erase_name n ns u.1)
  ]

  remove_old :
      (n : Name) (l : NamedMnodeList N) (old : Bool)
      → has N n l.named_node_names ≡ old
      → IsWellFormed l
      → IsWellFormed (remove_present N old n l).1
        × (names_of (remove_present N old n l).1.named_node_list
            ≡ erase_name N n (names_of l.named_node_list))
  remove_old n l true h w =
      let e = names-erase_node n l.named_node_list w.unique in
      (
        record {
          same = λ m.
              has-erase_name m n l.named_node_names
              ∙ ap (λ b. b && not (eq m n)) (w.same m)
              ∙ sym (has-erase_name m n (names_of l.named_node_list))
              ∙ ap (has N m) (sym e);
          unique = subst IsUnique (sym e) (IsUnique-erase_name n _ w.unique);
        },
        e,
      )
  remove_old n l false h w =
      (w, sym (absent_name n (names_of l.named_node_list) (sym (w.same n) ∙ h)))

  -- Removing a name keeps the names distinct and the set that of the names, and takes just that
  -- name from the names of the nodes.
  pub remove-IsWellFormed :
      (n : Name) (l : NamedMnodeList N)
      → IsWellFormed l
      → IsWellFormed (remove N n l).1
        × (names_of (remove N n l).1.named_node_list ≡ erase_name N n (names_of l.named_node_list))
  unfolding remove
  remove-IsWellFormed n l w = remove_old n l (has N n l.named_node_names) refl w
