-- ===== src/GenericResolver/Members.antt =====
-- What the pools of a GenericResolver (src/ostore/genericresolver.h) stand for, apart from the walk: the
-- members of a pool in their order, where a pool comes behind its own members.
use mathlib.Core.List.{append_assoc}
use rules_analyzer.Base.{◌≡◌, refl, sym, ap, ◌∙◌, List, [], ◌∷◌, ◌++◌, Option, none, some, String}
use rules_analyzer.Cache.{Cache, get}
use rules_analyzer.GenericResolver.{Pool, PoolMember, object, pool, Frame}

module _ {O : Type 0} (find_object : String → Option O) (pools : Cache Pool) where
  -- Names of members, with what they are expanded to, and the names that are not found.
  pub data Expands : List String → List (PoolMember O) → List String → Type 0 where
    none_left : Expands [] [] []
    object_first :
        {n : String} {ns : List String} {es : List (PoolMember O)} {us : List String} (o : O)
        → find_object n ≡ some o
        → Expands ns es us
        → Expands (n ∷ ns) (object o ∷ es) us
    pool_first :
        {n : String} {ns : List String} {es es' : List (PoolMember O)} {us us' : List String}
        (p : Pool)
        → find_object n ≡ none
        → get n pools ≡ some p
        → Expands p.members es us
        → Expands ns es' us'
        → Expands (n ∷ ns) (es ++ pool p ∷ es') (us ++ us')
    unknown_first :
        {n : String} {ns : List String} {es : List (PoolMember O)} {us : List String}
        → find_object n ≡ none
        → get n pools ≡ none
        → Expands ns es us
        → Expands (n ∷ ns) es (n ∷ us)

  -- What is left to expand for a chain: the rest of the top, its pool, and the frames below.
  abbrev pub ChainExpands : List Frame → List (PoolMember O) → List String → Type 0
  ChainExpands [] es us = (es ≡ []) × (us ≡ [])
  ChainExpands (f ∷ fs) es us =
      (es1 : List (PoolMember O)) × (es2 : List (PoolMember O)) × (us1 : List String) × (us2 : List
        String)
      × Expands f.rest es1 us1
      × ChainExpands fs es2 us2
      × (es ≡ es1 ++ pool f.current_pool ∷ es2)
      × (us ≡ us1 ++ us2)

  -- The rest of a walk adds what its chain is expanded to.
  pub record Adds (chain : List Frame) (l l' : List (PoolMember O)) (u u' : List String)
      : Type 0 where
    pub es : List (PoolMember O)
    pub us : List String
    pub expands : ChainExpands chain es us
    pub added : l' ≡ l ++ es
    pub noted : u' ≡ u ++ us

  module _ (p : Pool) (n : String) (rest : List String) (chain : List Frame)
      (l l' : List (PoolMember O)) (u u' : List String) where
    pub after_object :
        (o : O)
        → find_object n ≡ some o
        → Adds (record { current_pool = p; rest = rest } ∷ chain) (l ++ object o ∷ []) l' u u'
        → Adds (record { current_pool = p; rest = n ∷ rest } ∷ chain) l l' u u'
    after_object o h a =
        let (es1, es2, us1, us2, x, below, e, k) = a.expands in
        record {
          es = object o ∷ a.es;
          us = a.us;
          expands = (
            object o ∷ es1,
            es2,
            us1,
            us2,
            object_first o h x,
            below,
            ap (λ r. object o ∷ r) e,
            k,
          );
          added = a.added ∙ append_assoc l (object o ∷ []) a.es;
          noted = a.noted;
        }

    pub after_unknown :
        find_object n ≡ none
        → get n pools ≡ none
        → Adds (record { current_pool = p; rest = rest } ∷ chain) l l' (u ++ n ∷ []) u'
        → Adds (record { current_pool = p; rest = n ∷ rest } ∷ chain) l l' u u'
    after_unknown h h' a =
        let (es1, es2, us1, us2, x, below, e, k) = a.expands in
        record {
          es = a.es;
          us = n ∷ a.us;
          expands = (es1, es2, n ∷ us1, us2, unknown_first h h' x, below, e, ap (λ r. n ∷ r) k);
          added = a.added;
          noted = a.noted ∙ append_assoc u (n ∷ []) a.us;
        }

    pub after_pool :
        (q : Pool)
        → find_object n ≡ none
        → get n pools ≡ some q
        → Adds
            (record { current_pool = q; rest = q.members }
              ∷ record { current_pool = p; rest = rest }
              ∷ chain)
            l
            l'
            u
            u'
        → Adds (record { current_pool = p; rest = n ∷ rest } ∷ chain) l l' u u'
    after_pool q h h' a =
        let (es1, es2, us1, us2, x, (es3, es4, us3, us4, y, below, e', k'), e, k) = a.expands in
        record {
          es = a.es;
          us = a.us;
          expands = (
            es1 ++ pool q ∷ es3,
            es4,
            us1 ++ us3,
            us4,
            pool_first q h h' x y,
            below,
            e
                ∙ ap (λ r. es1 ++ pool q ∷ r) e'
                ∙ sym (append_assoc es1 (pool q ∷ es3) (pool p ∷ es4)),
            k ∙ ap (λ r. us1 ++ r) k' ∙ sym (append_assoc us1 us3 us4),
          );
          added = a.added;
          noted = a.noted;
        }

  pub after_pop :
      (p : Pool) (chain : List Frame) (l l' : List (PoolMember O)) (u u' : List String)
      → Adds chain (l ++ pool p ∷ []) l' u u'
      → Adds (record { current_pool = p; rest = [] } ∷ chain) l l' u u'
  after_pop p chain l l' u u' a = record {
    es = pool p ∷ a.es;
    us = a.us;
    expands = ([], a.es, [], a.us, none_left, a.expands, refl, refl);
    added = a.added ∙ append_assoc l (pool p ∷ []) a.es;
    noted = a.noted;
  }
