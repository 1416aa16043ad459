-- ===== src/Ipv4Parser/Parts.antt =====
-- An address in text is a part that the delimiters of the forms of src/model/ipv4parser.cpp and
-- src/model/ipv6parser.cpp do not cut.
use rules_analyzer.Base.{
  ℕ, ◌==◌, ◌≡◌, refl, ◌∙◌, true, false, not, [], ◌∷◌, ◌++◌, all, any-append, ==_iff, arith,
  Bool-cases, inl, inr,
}
use rules_analyzer.Strutil.{Text}
use rules_analyzer.Split.{is_blank}
use rules_analyzer.Split.Joined.{is_part}
use rules_analyzer.IpConvertor.{is_address_char, is_address_text}
use rules_analyzer.Ipv4Parser.{contains}

-- A delimiter of the forms of an address is no character of an address.
abbrev pub IsDelim : ℕ → Type 0
IsDelim d = is_address_char d ≡ false

chars_others :
    (d : ℕ) (t : Text)
    → IsDelim d
    → all is_address_char t ≡ true
    → (all (λ c. not (c == d)) t ≡ true) × (contains d t ≡ false)
chars_others d [] h k = (refl, refl)
chars_others d (c ∷ t) h k = elim (Bool-cases (c == d)) [
  | inl same ↦
      let e : c ≡ d = (==_iff c d).0 same in
      let clash : is_address_char d ≡ true = rw (← e) (ground arith) in absurd (cc)
  | inr other ↦ let (p, q) = chars_others d t h (ground arith) in (rw other p, rw other q)
]

pub address_part :
    (d : ℕ) (t : Text)
    → IsDelim d
    → is_address_text t ≡ true
    → (is_part d t ≡ true) × (contains d t ≡ false)
address_part d [] h k = absurd (cc)
address_part d (c ∷ t) h k =
    let (p, q) = chars_others d (c ∷ t) h k in
    let ink : is_blank c ≡ false = ground arith in (rw (p, ink) refl, q)

pub contains-middle : (d : ℕ) (s t : Text) → contains d (s ++ d ∷ t) ≡ true
contains-middle d s t = any-append (λ c. c == d) s (d ∷ t) ∙ ground arith
