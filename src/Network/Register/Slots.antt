-- ===== src/Network/Register/Slots.antt =====
-- What the frame of the functions that register an object (src/model/network.cpp) does to its cache.
use text.Mathlib.Text.{◌==◌ as str_eq}
use text.Mathlib.TextEquality.{eq_iff}
use rules_analyzer.Base.{
  ◌≡◌, refl, ap, ◌∙◌, sym, Option, none, some, String, Outcome, ok, err, ◌>>=◌, Bool-cases, inl,
  inr,
}
use rules_analyzer.Cache.{Cache, CacheFault, get, set}
use rules_analyzer.Cache.Laws.{get-set}
use rules_analyzer.Network.{Network, NetworkFault}
use rules_analyzer.Network.Register.{Call, Slot, stored, store, found_or_make, register}

module _ {T : Type 0} (slot : Slot T) where
  open slot use {read, write}

  -- A cache that is written is read again.
  abbrev pub Lawful : Type 0
  Lawful = (c : Cache T) (nw : Network) → read (write c nw) ≡ c

  -- An object that is made does not touch the cache.
  abbrev pub Keeps : Call T → Type 0
  Keeps make = (nw nw' : Network) (t : T) → make nw ≡ ok (t, nw') → read nw' ≡ read nw

  -- The object answers to the name, and every other object to its own as before.
  pub record Registered (name : String) (t : T) (before after : Network) : Type 0 where
    pub answers : get name (read after) ≡ some t
    pub kept : (n : String) (u : T) → get n (read before) ≡ some u → get n (read after) ≡ some u

  module _ (lawful : Lawful) where
    stored_cache :
        (t u : T) (nw nw' : Network) (o : Outcome CacheFault (Cache T))
        → stored slot t nw o ≡ ok (u, nw')
        → (c : Cache T) × (o ≡ ok c) × (read nw' ≡ c) × (t ≡ u)
    stored_cache t u nw nw' (ok c) h =
        let after : write c nw ≡ nw' = cc in (c, refl, ap read (sym after) ∙ lawful c nw, cc)
    stored_cache t u nw nw' (err fault) h = absurd (cc)

    store-Registered :
        (name : String) (t u : T) (nw nw' : Network)
        → get name (read nw) ≡ none
        → store slot name t nw ≡ ok (u, nw')
        → Registered name u nw nw'
    unfolding store
    store-Registered name t u nw nw' new h =
        let (c, e, r, same) = stored_cache t u nw nw' (set name t (read nw)) h in
        let now = λ (n : String). ap (get n) r ∙ get-set name n t (read nw) c e in
        record {
          answers = now name ∙ rw ((eq_iff name name).1 refl) (ap some same);
          kept = λ n v k. elim (Bool-cases (str_eq name n)) [
            | inl here ↦
                let gone : get n (read nw) ≡ none = rw ((eq_iff name n).0 here) at new in
                absurd (cc (gone, k))
            | inr other ↦ now n ∙ rw other k
          ];
        }

    made-Registered :
        (name : String) (r : Outcome NetworkFault (T × Network)) (u : T) (nw nw' : Network)
        → get name (read nw) ≡ none
        → ((t : T) (nw1 : Network) → r ≡ ok (t, nw1) → read nw1 ≡ read nw)
        → (r >>= λ p. store slot name p.0 p.1) ≡ ok (u, nw')
        → Registered name u nw nw'
    made-Registered name (err fault) u nw nw' new keeps h = absurd (cc)
    made-Registered name (ok (t, nw1)) u nw nw' new keeps h =
        let same = keeps t nw1 refl in
        let done = store-Registered name t u nw1 nw' (ap (get name) same ∙ new) h in
        record { answers = done.answers; kept = λ n v k. done.kept n v (ap (get n) same ∙ k) }

    found-Registered :
        (name : String) (make : Call T) (o : Option T) (u : T) (nw nw' : Network)
        → get name (read nw) ≡ o
        → Keeps make
        → found_or_make slot o name make nw ≡ ok (u, nw')
        → Registered name u nw nw'
    found-Registered name make none u nw nw' e keeps h =
        made-Registered name (make nw) u nw nw' e (λ t nw1. keeps nw nw1 t) h
    found-Registered name make (some t) u nw nw' e keeps h =
        let same : t ≡ u = cc in
        let after : nw ≡ nw' = cc in
        record {
          answers = ap (λ n. get name (read n)) (sym after) ∙ e ∙ ap some same;
          kept = λ n v k. ap (λ m. get n (read m)) (sym after) ∙ k;
        }

    pub register-Registered :
        (name : String) (make : Call T) (u : T) (nw nw' : Network)
        → Keeps make
        → register slot name make nw ≡ ok (u, nw')
        → Registered name u nw nw'
    unfolding register
    register-Registered name make u nw nw' keeps h =
        found-Registered name make _ u nw nw' refl keeps h

  -- Whatever a call makes, its name answers with it afterwards.
  module _ (lawful : Lawful) where
    store_answers :
        (name : String) (t u : T) (nw nw' : Network)
        → store slot name t nw ≡ ok (u, nw')
        → get name (read nw') ≡ some u
    unfolding store
    store_answers name t u nw nw' h =
        let (c, e, r, same) = stored_cache lawful t u nw nw' (set name t (read nw)) h in
        ap (get name) r
        ∙ get-set name name t (read nw) c e
        ∙ rw ((eq_iff name name).1 refl) (ap some same)

    made_answers :
        (name : String) (r : Outcome NetworkFault (T × Network)) (u : T) (nw' : Network)
        → (r >>= λ p. store slot name p.0 p.1) ≡ ok (u, nw')
        → get name (read nw') ≡ some u
    made_answers name (err fault) u nw' h = absurd (cc)
    made_answers name (ok (t, nw1)) u nw' h = store_answers name t u nw1 nw' h

    found_answers :
        (name : String) (make : Call T) (o : Option T) (u : T) (nw nw' : Network)
        → get name (read nw) ≡ o
        → found_or_make slot o name make nw ≡ ok (u, nw')
        → get name (read nw') ≡ some u
    found_answers name make none u nw nw' e h = made_answers name (make nw) u nw' h
    found_answers name make (some t) u nw nw' e h =
        let same : t ≡ u = cc in
        let after : nw ≡ nw' = cc in ap (λ n. get name (read n)) (sym after) ∙ e ∙ ap some same

    pub register_answers :
        (name : String) (make : Call T) (u : T) (nw nw' : Network)
        → register slot name make nw ≡ ok (u, nw')
        → get name (read nw') ≡ some u
    unfolding register
    register_answers name make u nw nw' h = found_answers name make _ u nw nw' refl h

  -- An object that answers to the name is found again, and nothing changes.
  pub register_again :
      (name : String) (make : Call T) (t : T) (nw : Network)
      → get name (read nw) ≡ some t
      → register slot name make nw ≡ ok (t, nw)
  unfolding register
  register_again name make t nw h = ap (λ o. found_or_make slot o name make nw) h
