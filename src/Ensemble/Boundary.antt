-- ===== src/Ensemble/Boundary.antt =====
-- engine/ensemble.py, `calibrate`: scores above the support of the fitted model pass through, and
-- when this keeps the order of scores.
use pay_shield.Prelude.{
  ◌≡◌, refl, true, false, some, inl, inr, Bool-cases, ◌↔◌, false≢true, ◌∙◌, sym,
}
use pay_shield.Prelude.Float.{Float, IsOrdered, ◌≼◌, flt}
use pay_shield.Prelude.Float.Order.{not_lt→le, le→not_lt, lt→le, lt_le_trans}
use pay_shield.Ensemble.{Fitted, calibrate}

module _ (F : Type 0) ⦃f : Float F⦄ (o : IsOrdered F) where
  outside : (c : Fitted F) (x : F) → flt c.support_max x ≡ true → calibrate (some c) x ≡ x
  unfolding calibrate
  outside c x h = rw h refl

  inside : (c : Fitted F) (x : F) → flt c.support_max x ≡ false → calibrate (some c) x ≡ c.predict x
  unfolding calibrate
  inside c x h = rw h refl

  -- For a fitted model whose `predict` keeps the order of scores, calibration keeps the order of
  -- scores exactly when no score above the support is less than the prediction at its end.
  pub calibrate_mono :
      (c : Fitted F)
      → ((x y : F) → x ≼ y → c.predict x ≼ c.predict y)
      → ((x y : F) → x ≼ y → calibrate (some c) x ≼ calibrate (some c) y)
        ↔ ((y : F) → flt c.support_max y ≡ true → c.predict c.support_max ≼ y)
  calibrate_mono c m = (forth, back)
    where
      forth :
          ((x y : F) → x ≼ y → calibrate (some c) x ≼ calibrate (some c) y)
          → (y : F) → flt c.support_max y ≡ true
          → c.predict c.support_max ≼ y
      forth k y h =
          rw
            (
              sym (outside c y h),
              sym (inside c c.support_max (le→not_lt F o _ _ (o.le_refl c.support_max))),
            )
            (k c.support_max y (lt→le F o c.support_max y h))

      back :
          ((y : F) → flt c.support_max y ≡ true → c.predict c.support_max ≼ y)
          → (x y : F) → x ≼ y
          → calibrate (some c) x ≼ calibrate (some c) y
      back k x y h = elim (Bool-cases (flt c.support_max x)) [
        | inl p ↦ elim (Bool-cases (flt c.support_max y)) [
          | inl q ↦ rw (outside c x p, outside c y q) h
          | inr q ↦ absurd (false≢true (sym q ∙ lt_le_trans F o c.support_max x y p h))
        ]
        | inr p ↦ elim (Bool-cases (flt c.support_max y)) [
          | inl q ↦
              rw (inside c x p, outside c y q)
                (o.le_trans _ _ _ (m _ _ (not_lt→le F o c.support_max x p)) (k y q))
          | inr q ↦ rw (inside c x p, inside c y q) (m x y h)
        ]
      ]
