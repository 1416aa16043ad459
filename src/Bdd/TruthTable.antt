-- ===== src/Bdd/TruthTable.antt =====
-- An instance of the interface to BuDDy: diagrams over four sample packets, as truth tables. It
-- shows that the laws can be met, and serves the tests.
use native.Mathlib.Nat.{mod-lt, mod-eq_of_lt}
use native.Mathlib.Nat
use rules_analyzer.Base.{
  ℕ, zero, suc, ◌%◌, ◌^◌, ◌<◌, ◌≡◌, refl, ◌↔◌, Bool, true, false, not, ◌&&◌, ◌||◌, leb, ◌==◌,
  if◌then◌else◌, arith,
}
use rules_analyzer.Bdd.{Buddy}

-- Two TCP packets, one of UDP and one of ICMP.
pub data Sample : Type 0 where
  ssh http dns ping : Sample

pub record Table {ℓ} (A : Type ℓ) : Type ℓ where
  pub on_ssh : A
  pub on_http : A
  pub on_dns : A
  pub on_ping : A

abbrev at {ℓ} : {A : Type ℓ} → Table A → Sample → A
at t ssh = t.on_ssh
at t http = t.on_http
at t dns = t.on_dns
at t ping = t.on_ping

abbrev tabulate {ℓ} : {A : Type ℓ} → (Sample → A) → Table A
tabulate f = record { on_ssh = f ssh; on_http = f http; on_dns = f dns; on_ping = f ping }

abbrev bool_eq : Bool → Bool → Bool
bool_eq true b = b
bool_eq false b = not b

abbrev same_table : Table Bool → Table Bool → Bool
same_table s t =
    bool_eq s.on_ssh t.on_ssh
    && bool_eq s.on_http t.on_http
    && bool_eq s.on_dns t.on_dns
    && bool_eq s.on_ping t.on_ping

-- Protocols are told by domain 6, ports by domains 7 and 8; all else is 1.
abbrev sample_value : Sample → ℕ → ℕ
sample_value ssh k = if k == 7 then 22 else 1
sample_value http k = if k == 7 then 80 else 1
sample_value dns k = if k == 6 then 0 else if k == 8 then 53 else 1
sample_value ping k = if k == 6 then 2 else if k == 9 then 8 else 1

pub record Word : Type 0 where
  pub bits : ℕ
  pub values : Table ℕ

pub at-tabulate {ℓ} : {A : Type ℓ} (f : Sample → A) (p : Sample) → at (tabulate f) p ≡ f p
at-tabulate f ssh = refl
at-tabulate f _ = refl

pow_pos : (n : ℕ) → 0 < 2 ^ n
pow_pos zero = omega arith
pow_pos (suc n) = omega (arith, Nat.pow-suc 2 n, pow_pos n)

pub sample_bound : (n k : ℕ) (p : Sample) → at (tabulate (λ q. sample_value q k % 2 ^ n)) p < 2 ^ n
sample_bound n k p = rw (at-tabulate (λ q. sample_value q k % 2 ^ n) p) (mod-lt _ (pow_pos n))

pub same_table_iff : (s t : Table Bool) → (same_table s t ≡ true) ↔ ((p : Sample) → at s p ≡ at t p)
same_table_iff s t = (sound, (λ h. ground (arith, h ssh, h http, h dns, h ping)))
  where
    sound : same_table s t ≡ true → (p : Sample) → at s p ≡ at t p
    sound e ssh = ground arith
    sound e http = ground arith
    sound e dns = ground arith
    sound e ping = ground arith

abbrev pub truth_table : Buddy
truth_table = record {
  Bdd = Table Bool;
  Bvec = Word;
  Packet = Sample;
  holds = at;
  bddtrue = tabulate (λ p. true);
  bddfalse = tabulate (λ p. false);
  bdd_not = λ a. tabulate (λ p. not (at a p));
  bdd_and = λ a b. tabulate (λ p. at a p && at b p);
  bdd_or = λ a b. tabulate (λ p. at a p || at b p);
  bdd_imp = λ a b. tabulate (λ p. not (at a p) || at b p);
  bdd_diff = λ a b. tabulate (λ p. at a p && not (at b p));
  same = same_table;
  bvec_con = λ n v. record { bits = n; values = tabulate (λ p. v % 2 ^ n) };
  bvec_var = λ n k. record { bits = n; values = tabulate (λ p. sample_value p k % 2 ^ n) };
  bvec_equ = λ x y. tabulate (λ p. at x.values p == at y.values p);
  bvec_lte = λ x y. tabulate (λ p. leb (at x.values p) (at y.values p));
  bitnum = λ x. x.bits;
  read = λ x p. at x.values p;
  holds_true = at-tabulate (λ p. true);
  holds_false = at-tabulate (λ p. false);
  holds_not = λ a. at-tabulate (λ p. not (at a p));
  holds_and = λ a b. at-tabulate (λ p. at a p && at b p);
  holds_or = λ a b. at-tabulate (λ p. at a p || at b p);
  holds_imp = λ a b. at-tabulate (λ p. not (at a p) || at b p);
  holds_diff = λ a b. at-tabulate (λ p. at a p && not (at b p));
  same_iff = same_table_iff;
  bitnum_con = λ n v. refl;
  bitnum_var = λ n k. refl;
  read_con = λ n v. at-tabulate (λ p. v % 2 ^ n);
  read_var = sample_bound;
  holds_equ = λ x y p h e. at-tabulate (λ p. at x.values p == at y.values p) p;
  holds_lte = λ x y p h e. at-tabulate (λ p. leb (at x.values p) (at y.values p)) p;
}
