-- ===== src/IpConvertor/RoundTrip.antt =====
-- An IPv6 address (src/model/ipconvertor.cpp) that is written is read again.
use rules_analyzer.Base.{ℕ, ◌^◌, ◌<◌, ◌≡◌, refl, ap, ◌∙◌, Option, none, some, arith}
use rules_analyzer.Strutil.{Text}
use rules_analyzer.IpConvertor.{
  Inet, Segments, Small, join_segments, join_read, split_segments, decode_ipv6_address,
  encode_ipv6_address,
}

join-split : (I : Inet) (n : ℕ) → n < 2 ^ 128 → join_segments I (split_segments I n) ≡ n
join-split I n h = omega arith

split-Small : (I : Inet) (n : ℕ) → Small (split_segments I n)
split-Small I n = (omega arith, omega arith, omega arith, omega arith)

join-lt : (I : Inet) (s : Segments) → Small s → join_segments I s < 2 ^ 128
join-lt I (a, b, c, d) h = omega arith

module _ (I : Inet) where
  -- An address of 128 bits that is written is read as it was.
  pub decode_ipv6_address-encode_ipv6_address :
      (n : ℕ) → n < 2 ^ 128 → decode_ipv6_address I (encode_ipv6_address I n) ≡ some n
  unfolding decode_ipv6_address encode_ipv6_address
  decode_ipv6_address-encode_ipv6_address n h =
      ap (join_read I) (I.pton6-ntop6 (split_segments I n) (split-Small I n))
      ∙ ap some (join-split I n h)

  read_lt :
      (t : Text) (o : Option Segments) (n : ℕ)
      → I.pton6 t ≡ o
      → join_read I o ≡ some n
      → n < 2 ^ 128
  read_lt t none n e h = absurd (cc)
  read_lt t (some s) n e h =
      let whole : join_segments I s ≡ n = cc in omega (arith, join-lt I s (I.pton6-Small t s e))

  pub decode_ipv6_address-lt : (t : Text) (n : ℕ) → decode_ipv6_address I t ≡ some n → n < 2 ^ 128
  unfolding decode_ipv6_address
  decode_ipv6_address-lt t n h = read_lt t _ n refl h
