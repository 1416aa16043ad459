-- ===== src/IpConvertor.antt =====
-- src/model/ipconvertor.cpp: addresses in text, by the functions inet_pton and inet_ntop of the
-- operating system.
pub mod RoundTrip
pub mod Unary
use rules_analyzer.Base.{
  ℕ, ◌+◌, ◌*◌, ◌/◌, ◌%◌, ◌^◌, ◌<◌, ◌==◌, ◌≡◌, Bool, true, false, ◌&&◌, ◌||◌, leb, [], ◌∷◌, all,
  Option, none, some,
}
use rules_analyzer.Strutil.{Text}
use rules_analyzer.Strutil.Numbers.{is_digit}

-- A character of an address: a digit, a letter of a hexadecimal number, a dot or a colon.
abbrev pub is_address_char : ℕ → Bool
is_address_char c =
    is_digit c || leb 97 c && leb c 102 || leb 65 c && leb c 70 || c == 46 || c == 58

abbrev pub is_address_text : Text → Bool
is_address_text [] = false
is_address_text (c ∷ cs) = all is_address_char (c ∷ cs)

-- Four segments of 32 bits, the first one highest.
abbrev pub Segments : Type 0
Segments = ℕ × ℕ × ℕ × ℕ

abbrev pub Small : Segments → Type 0
Small (a, b, c, d) = (a < 2 ^ 32) × (b < 2 ^ 32) × (c < 2 ^ 32) × (d < 2 ^ 32)

-- inet_pton and inet_ntop, with the conversions to and from network order (ntohl, htonl). A text
-- that inet_ntop writes is read again; it fails only where the buffer is too short, which it is not.
pub record Inet : Type 0 where
  pub pton4 : Text → Option ℕ
  pub ntop4 : ℕ → Text
  pub pton4-lt : (t : Text) (n : ℕ) → pton4 t ≡ some n → n < 2 ^ 32
  pub pton4-ntop4 : (n : ℕ) → n < 2 ^ 32 → pton4 (ntop4 n) ≡ some n
  pub is_address_text-ntop4 : (n : ℕ) → is_address_text (ntop4 n) ≡ true
  pub pton6 : Text → Option Segments
  pub ntop6 : Segments → Text
  pub pton6-Small : (t : Text) (s : Segments) → pton6 t ≡ some s → Small s
  pub pton6-ntop6 : (s : Segments) → Small s → pton6 (ntop6 s) ≡ some s
  pub is_address_text-ntop6 : (s : Segments) → is_address_text (ntop6 s) ≡ true

module _ (I : Inet) where
  open I use {pton4, ntop4, pton6, ntop6}

  abbrev pub decode_ipv4_address : Text → Option ℕ
  decode_ipv4_address address_text = pton4 address_text

  abbrev pub encode_ipv4_address : ℕ → Text
  encode_ipv4_address address = ntop4 address

  -- One round of the loop: the low 32 bits of the shifted address are 0, so `|` adds.
  abbrev pub shift_in : ℕ → ℕ → ℕ
  shift_in address segment = address * 2 ^ 32 % 2 ^ 128 + segment

  abbrev pub join_segments : Segments → ℕ
  join_segments (a, b, c, d) = shift_in (shift_in (shift_in (shift_in 0 a) b) c) d

  abbrev join_read : Option Segments → Option ℕ
  join_read none = none
  join_read (some s) = some (join_segments s)

  unfoldable pub decode_ipv6_address : Text → Option ℕ
  decode_ipv6_address address_text = join_read (pton6 address_text)

  -- The loop from the last segment on, `address >>= 32` after each.
  abbrev pub split_segments : ℕ → Segments
  split_segments address =
      let third = address / 2 ^ 32 in
      let second = third / 2 ^ 32 in
      let first = second / 2 ^ 32 in
      (first % 2 ^ 32, second % 2 ^ 32, third % 2 ^ 32, address % 2 ^ 32)

  unfoldable pub encode_ipv6_address : ℕ → Text
  encode_ipv6_address address = ntop6 (split_segments address)
