-- ===== src/Prelude/Float/Fixed.antt =====
-- The laws can be met: numbers with four decimals, as integers in units of 1/10000.
use Prim.Native.Nat.{ℕ, zero, suc, ◌+◌, ◌*◌, ◌/◌, ◌≤◌, ◌<◌}
use mathlib.Core.Path.{◌≡◌, refl, ap}
use mathlib.Core.Bool.{true}
use native.Mathlib.Omega.{arith}
use native.Mathlib.Nat.{
  mul-le-mul, le-div_iff_mul-le, div-mul-le_self, div-zero, zero-div, le_trans,
  div-eq_of_eq-mul_left,
}
use pay_shield.Prelude.Checks.{leb, leb→le}
use pay_shield.Prelude.Int.{ℤ, pos, negsuc, pos_part, neg_part, sub_ℕ, ◌+ℤ◌, leb_ℤ, ltb_ℤ}
use pay_shield.Prelude.Float.{Float, IsOrdered}

abbrev neg : ℤ → ℤ
neg a = sub_ℕ (neg_part a) (pos_part a)

abbrev mul : ℤ → ℤ → ℤ
mul a b =
    sub_ℕ ((pos_part a * pos_part b + neg_part a * neg_part b) / 10_000)
      ((pos_part a * neg_part b + neg_part a * pos_part b) / 10_000)

-- a negative divisor is not met
abbrev div : ℤ → ℤ → ℤ
div a b = sub_ℕ (pos_part a * 10_000 / pos_part b) (neg_part a * 10_000 / pos_part b)

abbrev cents : ℤ → ℤ
cents a = sub_ℕ ((pos_part a + 50) / 100 * 100) ((neg_part a + 50) / 100 * 100)

instance abbrev pub fixed : Float ℤ
fixed = record {
  lit = pos;
  neg = neg;
  add = ◌+ℤ◌;
  mul = mul;
  div = div;
  le = leb_ℤ;
  lt = ltb_ℤ;
  round4 = λ a. a;
  round2 = cents;
}

mul_mono :
    (a b c d : ℤ)
    → leb_ℤ (pos 0) a ≡ true
    → leb_ℤ a b ≡ true
    → leb_ℤ (pos 0) c ≡ true
    → leb_ℤ c d ≡ true
    → leb_ℤ (mul a c) (mul b d) ≡ true
mul_mono (pos a) (pos b) (pos c) (pos d) p q r s =
    let h : a * c ≤ b * d = mul-le-mul (leb→le a b (ground arith)) (leb→le c d (ground arith)) in
    ground arith
mul_mono (negsuc a) b c d p q r s = ground arith
mul_mono (pos a) (negsuc b) c d p q r s = ground arith
mul_mono (pos a) (pos b) (negsuc c) d p q r s = ground arith
mul_mono (pos a) (pos b) (pos c) (negsuc d) p q r s = ground arith

scaled_mono : (a b n : ℕ) → a ≤ b → a * 10_000 / n ≤ b * 10_000 / n
scaled_mono a b zero h = omega (arith, div-zero (a * 10_000))
scaled_mono a b (suc n) h =
    (le-div_iff_mul-le (omega arith)).1
      (le_trans (div-mul-le_self (a * 10_000) (suc n)) (omega arith))

div_mono : (a b : ℤ) (n : ℕ) → leb_ℤ a b ≡ true → leb_ℤ (div a (pos n)) (div b (pos n)) ≡ true
div_mono (pos a) (pos b) n p = ground (arith, scaled_mono a b n, zero-div n)
div_mono (negsuc a) (pos b) n p = ground (arith, zero-div n)
div_mono (pos a) (negsuc b) n p = ground arith
div_mono (negsuc a) (negsuc b) n p = ground (arith, scaled_mono (suc b) (suc a) n, zero-div n)

sub_ℕ-equal : (m n : ℕ) → m ≡ n → sub_ℕ m n ≡ pos 0
sub_ℕ-equal m n h = let e : leb n m ≡ true = ground arith in rw e (ap pos (omega arith))

sub_self : (a : ℤ) → a +ℤ neg a ≡ pos 0
sub_self (pos zero) = refl
sub_self (pos (suc a)) = sub_ℕ-equal _ _ (ground arith)
sub_self (negsuc a) = sub_ℕ-equal _ _ (ground arith)

zero_div : (n : ℕ) → div (pos 0) (pos n) ≡ pos 0
zero_div n = rw (zero-div n) refl

half : (n : ℕ) → 0 < n → leb_ℤ (div (pos (n * 5_000)) (pos (n * 10_000))) (pos 5_000) ≡ true
half n h =
    let e : n * 5_000 * 10_000 / (n * 10_000) ≡ 5_000 =
      div-eq_of_eq-mul_left (omega arith) (omega arith) in
    ground (arith, zero-div (n * 10_000))

pub ℤ-IsOrdered : IsOrdered ℤ
ℤ-IsOrdered = record {
  le_refl = λ a. ground arith;
  le_trans = λ a b c p q. ground arith;
  le_total = λ a b. ground arith;
  lt-eq-not-le = λ a b. ground arith;
  lit_mono = λ m n h. ground arith;
  lit_strict = λ m n h. ground arith;
  neg_mono = λ a b h. ground arith;
  neg_zero = ground arith;
  add_mono = λ a b c d p q. ground arith;
  add_zero = λ a. ground arith;
  mul_mono = λ a b c d p q r s. mul_mono a b c d p q r s;
  mul_one = λ a. ground arith;
  mul_zero = λ a. ground arith;
  div_mono = λ a b n h p. div_mono a b n p;
  div_zero = λ n h. ground arith;
  sub_self = λ a. sub_self a;
  zero_div = λ n h. zero_div n;
  div_half = λ n h. half n h;
  round4_mono = λ a b h. h;
  round4_lit = λ n. ground arith;
}
