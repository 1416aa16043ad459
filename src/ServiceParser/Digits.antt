-- ===== src/ServiceParser/Digits.antt =====
-- A service that is written in decimal digits is read by parse_protocol_port
-- (src/model/serviceparser.cpp) as it was written.
use rules_analyzer.Base.{
  ℕ, ◌%◌, ◌^◌, ◌≤◌, ◌<◌, ◌==◌, ◌≡◌, refl, ap, ◌∙◌, true, not, [], ◌∷◌, ◌++◌, all-append, any-append,
  some, arith, ok, ◌>>=◌, le→leb,
}
use rules_analyzer.Strutil.{Text}
use rules_analyzer.Strutil.Case.{iequal}
use rules_analyzer.Strutil.Numbers.{digits_value}
use rules_analyzer.Strutil.Numbers.Decimal.{is_number, str2num-number}
use rules_analyzer.Split.{is_blank}
use rules_analyzer.Split.Joined.{is_part, split-two}
use rules_analyzer.Split.Numbers.{number_part}
use rules_analyzer.Domain.{max_value}
use rules_analyzer.Service.{ProtocolType, udp, tcp, icmp, ports_domain}
use rules_analyzer.Service
use rules_analyzer.ServiceParser.{
  slash, hyphen, parts_of, protocol_text, port_of, parse_port, port_range, parse_port_range,
  protocol_of, with_range, with_protocol, parse_parts, parse_protocol_port,
}
use rules_analyzer.ServiceParser.Ports.{IsReal, small_max}

-- Two numbers with a hyphen between them hold no slash.
range_part :
    (a b : Text) → is_number a ≡ true → is_number b ≡ true → is_part slash (a ++ hyphen ∷ b) ≡ true
range_part a b h k =
    let left = number_part slash a (omega arith) h in
    let right = number_part slash b (omega arith) k in
    ground (
      arith,
      all-append (λ c. not (c == slash)) a (hyphen ∷ b),
      any-append (λ c. not (is_blank c)) a (hyphen ∷ b),
    )

port-number :
    (a : Text) (m : ℕ)
    → is_number a ≡ true
    → digits_value 0 a ≤ m
    → m < 2 ^ 16
    → parse_port a m ≡ some (digits_value 0 a)
port-number a m h k l =
    ap port_of (str2num-number a m h k (omega arith)) ∙ ap some (small (digits_value 0 a) m k l)
  where
    small : (n m : ℕ) → n ≤ m → m < 2 ^ 16 → n % 2 ^ 16 ≡ n
    small n m h k = omega arith

range-numbers :
    (a b : Text) (m : ℕ)
    → is_number a ≡ true
    → is_number b ≡ true
    → digits_value 0 a ≤ digits_value 0 b
    → digits_value 0 b ≤ m
    → m < 2 ^ 16
    → parse_port_range (a ++ hyphen ∷ b) m ≡ ok (some (digits_value 0 a, digits_value 0 b))
unfolding parse_port_range
range-numbers a b m h k o l s =
    let cut =
      split-two hyphen a b (number_part hyphen a (omega arith) h)
        (number_part hyphen b (omega arith) k) in
    ap (λ parts. port_range (parts_of parts) m) cut
    ∙ rw (port-number a m h (omega arith) s, port-number b m k l s) (rw (le→leb _ _ o) refl)

named :
    (c : ℕ) (cs ports : Text) (pt : ProtocolType)
    → is_part slash (c ∷ cs) ≡ true
    → is_part slash ports ≡ true
    → protocol_of (c ∷ cs) ≡ some pt
    → parse_protocol_port (c ∷ cs ++ slash ∷ ports)
      ≡ (parse_port_range ports (max_value (ports_domain pt)) >>= with_range pt)
unfolding parse_protocol_port
named c cs ports pt h k e =
    ap (λ parts. parse_parts (parts_of parts)) (split-two slash (c ∷ cs) ports h k)
    ∙ ap (λ o. with_protocol o (ports ∷ [])) e

spelled :
    (c : ℕ) (cs : Text) (pt : ProtocolType) (a b : Text)
    → is_part slash (c ∷ cs) ≡ true
    → protocol_of (c ∷ cs) ≡ some pt
    → is_number a ≡ true
    → is_number b ≡ true
    → digits_value 0 a ≤ digits_value 0 b
    → digits_value 0 b ≤ max_value (ports_domain pt)
    → parse_protocol_port (c ∷ cs ++ slash ∷ (a ++ hyphen ∷ b))
      ≡ ok (pt, digits_value 0 a, digits_value 0 b)
spelled c cs pt a b p e h k o l =
    named c cs (a ++ hyphen ∷ b) pt p (range_part a b h k) e
    ∙ ap (λ r. r >>= with_range pt) (range-numbers a b _ h k o l (small_max pt))

-- The name of a protocol, a slash and two numbers with a hyphen between them are read as that
-- protocol with the values of the numbers, when these are in order and below 2 ^ 16.
pub parse_protocol_port-digits :
    (pt : ProtocolType) (a b : Text)
    → IsReal pt
    → is_number a ≡ true
    → is_number b ≡ true
    → digits_value 0 a ≤ digits_value 0 b
    → digits_value 0 b < 2 ^ 16
    → parse_protocol_port (protocol_text pt ++ slash ∷ (a ++ hyphen ∷ b))
      ≡ ok (pt, digits_value 0 a, digits_value 0 b)
unfolding iequal
parse_protocol_port-digits Service.any a b real h k o l = absurd real
parse_protocol_port-digits udp a b real h k o l =
    spelled 117 (100 ∷ 112 ∷ []) udp a b refl refl h k o (omega arith)
parse_protocol_port-digits tcp a b real h k o l =
    spelled 116 (99 ∷ 112 ∷ []) tcp a b refl refl h k o (omega arith)
parse_protocol_port-digits icmp a b real h k o l =
    spelled 105 (99 ∷ 109 ∷ 112 ∷ []) icmp a b refl refl h k o (omega arith)
