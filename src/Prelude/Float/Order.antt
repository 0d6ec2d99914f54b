-- ===== src/Prelude/Float/Order.antt =====
-- The order of floats: strict and weak comparisons, and the bounds that min and max give.
use mathlib.Core.Path.{◌≡◌, refl, sym, ap, ◌∙◌}
use mathlib.Core.Logic.{inl, inr}
use mathlib.Core.Bool.{Bool, true, false, not, false≢true}
use pay_shield.Prelude.Checks.{Bool-cases}
use pay_shield.Prelude.Float.{Float, IsOrdered, ◌≼◌, fle, flt, fmin, fmax}

not-true : (b : Bool) → not b ≡ true → b ≡ false
not-true true h = sym h
not-true false h = refl

not-false : (b : Bool) → not b ≡ false → b ≡ true
not-false true h = refl
not-false false h = sym h

module _ (F : Type 0) ⦃f : Float F⦄ (o : IsOrdered F) where
  pub not_lt→le : (a b : F) → flt a b ≡ false → b ≼ a
  not_lt→le a b h = not-false (f.le b a) (sym (o.lt-eq-not-le a b) ∙ h)

  pub le→not_lt : (a b : F) → b ≼ a → flt a b ≡ false
  le→not_lt a b h = o.lt-eq-not-le a b ∙ ap not h

  pub lt→le : (a b : F) → flt a b ≡ true → a ≼ b
  lt→le a b h = elim (o.le_total a b) [
    | inl k ↦ k
    | inr k ↦ absurd (false≢true (sym (le→not_lt a b k) ∙ h))
  ]

  pub lt_le_trans : (a b c : F) → flt a b ≡ true → b ≼ c → flt a c ≡ true
  lt_le_trans a b c h k = elim (Bool-cases (flt a c)) [
    | inl p ↦ p
    | inr p ↦ absurd (false≢true (sym (le→not_lt a b (o.le_trans b c a k (not_lt→le a c p))) ∙ h))
  ]

  pub le-fmin : (a b c : F) → c ≼ a → c ≼ b → c ≼ fmin a b
  le-fmin a b c h k = elim (Bool-cases (flt b a)) [ inl p ↦ rw p k | inr p ↦ rw p h ]

  pub fmin-le_left : (a b : F) → fmin a b ≼ a
  fmin-le_left a b = elim (Bool-cases (flt b a)) [
    | inl p ↦ rw p (lt→le b a p)
    | inr p ↦ rw p (o.le_refl a)
  ]

  pub fmax-le : (a b c : F) → a ≼ c → b ≼ c → fmax a b ≼ c
  fmax-le a b c h k = elim (Bool-cases (flt a b)) [ inl p ↦ rw p k | inr p ↦ rw p h ]

  pub le-fmax_left : (a b : F) → a ≼ fmax a b
  le-fmax_left a b = elim (Bool-cases (flt a b)) [
    | inl p ↦ rw p (lt→le a b p)
    | inr p ↦ rw p (o.le_refl a)
  ]

  pub le-fmax_right : (a b : F) → b ≼ fmax a b
  le-fmax_right a b = elim (Bool-cases (flt a b)) [
    | inl p ↦ rw p (o.le_refl b)
    | inr p ↦ rw p (not_lt→le a b p)
  ]

  pub lt→not_le : (a b : F) → flt a b ≡ true → fle b a ≡ false
  lt→not_le a b h = not-true (f.le b a) (sym (o.lt-eq-not-le a b) ∙ h)
