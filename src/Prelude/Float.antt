-- ===== src/Prelude/Float.antt =====
-- Python's floats, as the program uses them: a type with the operations that it calls, and the laws
-- of IEEE 754 that its results rest on. A value of the type is a finite float, so NaN, the
-- infinities and overflow are outside the model. Every literal of the program is a multiple of
-- 1/10000: `lit n` is the float nearest to n/10000. Rounding keeps the order, so the rounded sum,
-- product and quotient do, and so does `round(x, 4)`. A half,
-- a difference of equals and a quotient of zero are exact.
pub mod Fixed
pub mod Order
use Prim.Native.Nat.{ℕ, ◌*◌, ◌≤◌, ◌<◌}
use mathlib.Core.Path.{◌≡◌}
use mathlib.Core.Logic.{◌⊎◌}
use mathlib.Core.Bool.{Bool, true, not}
use pay_shield.Prelude.Checks.{if◌then◌else◌}

pub record Float (F : Type 0) : Type 0 where
  pub lit : ℕ → F
  pub neg : F → F
  pub add : F → F → F
  pub mul : F → F → F
  pub div : F → F → F
  pub le : F → F → Bool
  pub lt : F → F → Bool
  pub round4 : F → F
  pub round2 : F → F

module _ {F : Type 0} ⦃f : Float F⦄ where
  abbrev pub lit : ℕ → F
  lit = f.lit

  -- `float(n)`
  abbrev pub of_ℕ : ℕ → F
  of_ℕ n = f.lit (n * 10_000)

  abbrev pub add : F → F → F
  add = f.add

  abbrev pub sub : F → F → F
  sub a b = f.add a (f.neg b)

  abbrev pub mul : F → F → F
  mul = f.mul

  abbrev pub div : F → F → F
  div = f.div

  abbrev pub fle : F → F → Bool
  fle = f.le

  abbrev pub flt : F → F → Bool
  flt = f.lt

  -- `min(a, b)` and `max(a, b)`: the first argument unless the second is strictly better
  abbrev pub fmin : F → F → F
  fmin a b = if f.lt b a then b else a

  abbrev pub fmax : F → F → F
  fmax a b = if f.lt a b then b else a

  abbrev pub fabs : F → F
  fabs a = if f.lt a (f.lit 0) then f.neg a else a

  infix 4 ◌≼◌
  abbrev pub ◌≼◌ : F → F → Type 0
  a ≼ b = f.le a b ≡ true

pub record IsOrdered (F : Type 0) ⦃f : Float F⦄ : Type 0 where
  pub le_refl : (a : F) → a ≼ a
  pub le_trans : (a b c : F) → a ≼ b → b ≼ c → a ≼ c
  pub le_total : (a b : F) → (a ≼ b) ⊎ (b ≼ a)
  pub lt-eq-not-le : (a b : F) → f.lt a b ≡ not (f.le b a)
  pub lit_mono : (m n : ℕ) → m ≤ n → f.lit m ≼ f.lit n
  pub lit_strict : (m n : ℕ) → m < n → f.lt (f.lit m) (f.lit n) ≡ true
  pub neg_mono : (a b : F) → a ≼ b → f.neg b ≼ f.neg a
  pub neg_zero : (f.neg (f.lit 0) ≼ f.lit 0) × (f.lit 0 ≼ f.neg (f.lit 0))
  pub add_mono : (a b c d : F) → a ≼ b → c ≼ d → f.add a c ≼ f.add b d
  pub add_zero : (a : F) → (f.add a (f.lit 0) ≼ a) × (a ≼ f.add a (f.lit 0))
  pub mul_mono : (a b c d : F) → f.lit 0 ≼ a → a ≼ b → f.lit 0 ≼ c → c ≼ d → f.mul a c ≼ f.mul b d
  pub mul_one : (a : F) → (f.mul a (f.lit 10_000) ≼ a) × (a ≼ f.mul a (f.lit 10_000))
  pub mul_zero : (a : F) → (f.mul a (f.lit 0) ≼ f.lit 0) × (f.lit 0 ≼ f.mul a (f.lit 0))
  pub div_mono : (a b : F) (n : ℕ) → 0 < n → a ≼ b → f.div a (f.lit n) ≼ f.div b (f.lit n)
  pub div_zero : (n : ℕ) → 0 < n → f.lit 0 ≼ f.div (f.lit 0) (f.lit n)
  pub sub_self : (a : F) → f.add a (f.neg a) ≡ f.lit 0
  pub zero_div : (n : ℕ) → 0 < n → f.div (f.lit 0) (f.lit n) ≡ f.lit 0
  pub div_half : (n : ℕ) → 0 < n → f.div (f.lit (n * 5_000)) (f.lit (n * 10_000)) ≼ f.lit 5_000
  pub round4_mono : (a b : F) → a ≼ b → f.round4 a ≼ f.round4 b
  pub round4_lit : (n : ℕ) → (f.round4 (f.lit n) ≼ f.lit n) × (f.lit n ≼ f.round4 (f.lit n))
