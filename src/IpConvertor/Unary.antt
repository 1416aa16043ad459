-- ===== src/IpConvertor/Unary.antt =====
-- An instance of the conversions for the tests: an address is written as so many ones behind a zero,
-- and the segments of an address one behind the other.
use mathlib.Core.Path.{subst}
use rules_analyzer.Base.{
  ℕ, zero, suc, ◌^◌, ◌<◌, ◌==◌, ◌≡◌, refl, ap, ◌∙◌, Bool, true, false, if◌then◌else◌, ltb, List, [],
  ◌∷◌, all, Option, none, some, lt→ltb, ltb→lt, Bool-cases, inl, inr,
}
use rules_analyzer.Strutil.{Text}
use rules_analyzer.IpConvertor.{Inet, Segments, Small, is_address_char, is_address_text}

abbrev pub ones : ℕ → Text → Text
ones zero rest = rest
ones (suc n) rest = 49 ∷ ones n rest

abbrev pub word : ℕ → Text → Text
word n rest = 48 ∷ ones n rest

-- The number of ones in front, and what is behind them.
abbrev pub count_ones : Text → ℕ
count_ones [] = 0
count_ones (c ∷ cs) = let n = count_ones cs in if c == 49 then suc n else 0

abbrev pub behind_ones : Text → Text
behind_ones [] = []
behind_ones (c ∷ cs) = if c == 49 then behind_ones cs else c ∷ cs

abbrev pub starts_one : Text → Bool
starts_one [] = false
starts_one (c ∷ cs) = c == 49

-- The words of a text, so many at most.
abbrev pub add_word : ℕ → Option (List ℕ) → Option (List ℕ)
add_word n none = none
add_word n (some ns) = if ltb n (2 ^ 32) then some (n ∷ ns) else none

abbrev pub read_words : ℕ → Text → Option (List ℕ)
read_words zero [] = some []
read_words zero (c ∷ cs) = none
read_words (suc k) [] = none
read_words (suc k) (c ∷ cs) =
    if c == 48 then add_word (count_ones cs) (read_words k (behind_ones cs)) else none

abbrev pub one_word : Option (List ℕ) → Option ℕ
one_word (some (n ∷ [])) = some n
one_word r = none

abbrev pub four_words : Option (List ℕ) → Option Segments
four_words (some (a ∷ b ∷ c ∷ d ∷ [])) = some (a, b, c, d)
four_words r = none

count-ones : (n : ℕ) (rest : Text) → starts_one rest ≡ false → count_ones (ones n rest) ≡ n
count-ones zero [] h = refl
count-ones zero (c ∷ cs) h = rw h refl
count-ones (suc n) rest h = ap suc (count-ones n rest h)

behind-ones : (n : ℕ) (rest : Text) → starts_one rest ≡ false → behind_ones (ones n rest) ≡ rest
behind-ones zero [] h = refl
behind-ones zero (c ∷ cs) h = rw h refl
behind-ones (suc n) rest h = behind-ones n rest h

read-word :
    (k n : ℕ) (rest : Text)
    → n < 2 ^ 32
    → starts_one rest ≡ false
    → read_words (suc k) (word n rest) ≡ add_word n (read_words k rest)
read-word k n rest h s = rw (count-ones n rest s, behind-ones n rest s) refl

abbrev pub AllSmall : List ℕ → Type 0
AllSmall [] = Unit
AllSmall (n ∷ ns) = (n < 2 ^ 32) × AllSmall ns

add_word_small :
    (n : ℕ) (o : Option (List ℕ)) (ns : List ℕ)
    → ((ms : List ℕ) → o ≡ some ms → AllSmall ms)
    → add_word n o ≡ some ns
    → AllSmall ns
add_word_small n none ns ih h = absurd (cc)
add_word_small n (some ms) ns ih h = elim (Bool-cases (ltb n (2 ^ 32))) [
  | inl small ↦
      let e : some (n ∷ ms) ≡ some ns = rw small at h in
      let same : n ∷ ms ≡ ns = cc in rw (← same) (ltb→lt _ _ small, ih ms refl)
  | inr large ↦ let e : none ≡ some ns = rw large at h in absurd (cc)
]

read_words_small : (k : ℕ) (t : Text) (ns : List ℕ) → read_words k t ≡ some ns → AllSmall ns
read_words_small zero [] [] h = tt
read_words_small zero [] (n ∷ ns) h = absurd (cc)
read_words_small zero (c ∷ cs) ns h = absurd (cc)
read_words_small (suc k) [] ns h = absurd (cc)
read_words_small (suc k) (c ∷ cs) ns h = elim (Bool-cases (c == 48)) [
  | inl zero_mark ↦
      add_word_small (count_ones cs) (read_words k (behind_ones cs)) ns
        (read_words_small k (behind_ones cs)) (rw zero_mark at h)
  | inr other ↦ let e : none ≡ some ns = rw other at h in absurd (cc)
]

one_small :
    (o : Option (List ℕ)) (n : ℕ)
    → ((ms : List ℕ) → o ≡ some ms → AllSmall ms)
    → one_word o ≡ some n
    → n < 2 ^ 32
one_small (some (m ∷ [])) n small h =
    let same : m ≡ n = cc in let bound = small (m ∷ []) refl in rw (← same) bound.0
one_small none n small h = absurd (cc)
one_small (some []) n small h = absurd (cc)
one_small (some (m ∷ k ∷ ms)) n small h = absurd (cc)

four-Small :
    (o : Option (List ℕ)) (s : Segments)
    → ((ms : List ℕ) → o ≡ some ms → AllSmall ms)
    → four_words o ≡ some s
    → Small s
four-Small (some (a ∷ b ∷ c ∷ d ∷ [])) s small h =
    let same : (a, b, c, d) ≡ s = cc in
    let (p, (q, (r, (t, end)))) = small (a ∷ b ∷ c ∷ d ∷ []) refl in subst Small same (p, q, r, t)
four-Small none s small h = absurd (cc)
four-Small (some []) s small h = absurd (cc)
four-Small (some (a ∷ [])) s small h = absurd (cc)
four-Small (some (a ∷ b ∷ [])) s small h = absurd (cc)
four-Small (some (a ∷ b ∷ c ∷ [])) s small h = absurd (cc)
four-Small (some (a ∷ b ∷ c ∷ d ∷ e ∷ f)) s small h = absurd (cc)

ones_chars :
    (n : ℕ) (rest : Text)
    → all is_address_char rest ≡ true
    → all is_address_char (ones n rest) ≡ true
ones_chars zero rest h = h
ones_chars (suc n) rest h = ones_chars n rest h

abbrev pub pton4 : Text → Option ℕ
pton4 t = one_word (read_words 1 t)

abbrev pub ntop4 : ℕ → Text
ntop4 n = word n []

abbrev pub pton6 : Text → Option Segments
pton6 t = four_words (read_words 4 t)

abbrev pub ntop6 : Segments → Text
ntop6 (a, b, c, d) = word a (word b (word c (word d [])))

pub pton4-lt : (t : Text) (n : ℕ) → pton4 t ≡ some n → n < 2 ^ 32
pton4-lt t n h = one_small _ n (read_words_small 1 t) h

pub pton4-ntop4 : (n : ℕ) → n < 2 ^ 32 → pton4 (ntop4 n) ≡ some n
pton4-ntop4 n h = ap one_word (read-word 0 n [] h refl) ∙ rw (lt→ltb _ _ h) refl

pub pton6-Small : (t : Text) (s : Segments) → pton6 t ≡ some s → Small s
pton6-Small t s h = four-Small _ s (read_words_small 4 t) h

pub pton6-ntop6 : (s : Segments) → Small s → pton6 (ntop6 s) ≡ some s
pton6-ntop6 (a, b, c, d) (p, q, r, s) =
    ap four_words (
      read-word 3 a (word b (word c (word d []))) p refl
      ∙ ap (add_word a) (
          read-word 2 b (word c (word d [])) q refl
          ∙ ap (add_word b)
              (read-word 1 c (word d []) r refl ∙ ap (add_word c) (read-word 0 d [] s refl))))
    ∙ rw (lt→ltb _ _ s) (rw (lt→ltb _ _ r) (rw (lt→ltb _ _ q) (rw (lt→ltb _ _ p) refl)))

pub chars4 : (n : ℕ) → is_address_text (ntop4 n) ≡ true
chars4 n = ones_chars n [] refl

pub chars6 : (s : Segments) → is_address_text (ntop6 s) ≡ true
chars6 (a, b, c, d) =
    ones_chars a (word b (word c (word d [])))
      (ones_chars b (word c (word d [])) (ones_chars c (word d []) (ones_chars d [] refl)))

abbrev pub unary : Inet
unary = record {
  pton4 = pton4;
  ntop4 = ntop4;
  pton4-lt = pton4-lt;
  pton4-ntop4 = pton4-ntop4;
  is_address_text-ntop4 = chars4;
  pton6 = pton6;
  ntop6 = ntop6;
  pton6-Small = pton6-Small;
  pton6-ntop6 = pton6-ntop6;
  is_address_text-ntop6 = chars6;
}
