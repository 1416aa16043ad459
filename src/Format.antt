-- ===== src/Format.antt =====
-- What the code uses of fmt::format (dep/fmtlib): the decimal digits of an unsigned number,
-- and a name with an index in brackets.
pub mod Digits
pub mod Names
use rules_analyzer.Base.{ℕ, ◌≤◌, ◌<◌, ◌≡◌, true, length, String}
use rules_analyzer.Strutil.{Text}
use rules_analyzer.Strutil.Numbers.{digits_value}
use rules_analyzer.Strutil.Numbers.Decimal.{is_number}

pub record Format : Type 0 where
  pub decimal : ℕ → Text
  pub indexed : String → ℕ → String
  pub is_number-decimal : (n : ℕ) → is_number (decimal n) ≡ true
  pub value-decimal : (n : ℕ) → digits_value 0 (decimal n) ≡ n
  pub length-decimal : (n : ℕ) → n < 100 → length (decimal n) ≤ 2
