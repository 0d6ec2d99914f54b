-- ===== src/ReturnRisk/Bounds.antt =====
-- return_risk/scorer.py: the ranges of scores and confidences.
use mathlib.Core.Option.{some-injective}
use pay_shield.Prelude.{
  bind_some, if_some, if◌then◌else◌, ◌≡◌, refl, subst, String, Bool, Option, none, some, List,
  arith, any, Bool-cases, inl, inr,
}
use pay_shield.Prelude.Float.{Float, IsOrdered, ◌≼◌, lit, add, fmin}
use pay_shield.Prelude.Float.Order.{fmax-le, le-fmax_left, fmin-le_left}
use pay_shield.ReturnRisk.Rules.{Raw, Features, Trigger, evaluate}
use pay_shield.ReturnRisk.Scorer.{
  Breakdown, Scorer, Assessment, weighted_sum, promotion_score, clamp, compute_score, engine_score,
  calculate_confidence, is_override, floored, assess, score,
}
use pay_shield.ReturnRisk.Values.{xgb_features, is_readable}

module _ (F : Type 0) ⦃f : Float F⦄ (o : IsOrdered F) where
  -- a value in [0, 1]
  abbrev IsUnit : F → Type 0
  IsUnit x = (lit 0 ≼ x) × (x ≼ lit 10_000)

  clamp-IsUnit : (x : F) → IsUnit (clamp x)
  clamp-IsUnit x = (
    le-fmax_left F o (lit 0) (fmin (lit 10_000) x),
    fmax-le F o (lit 0) _ (lit 10_000) (o.lit_mono 0 10_000 (omega arith))
        (fmin-le_left F o (lit 10_000) x),
  )

  floored-IsUnit : (ts : List Trigger) (x : F) → IsUnit x → IsUnit (floored ts x)
  unfolding floored
  floored-IsUnit ts x (h, k) = elim (Bool-cases (any is_override ts)) [
    | inl e ↦ rw e (
      o.le_trans _ _ _ h (le-fmax_left F o x (lit 8_500)),
      fmax-le F o x _ _ k (o.lit_mono 8_500 10_000 (omega arith)),
    )
    | inr e ↦ rw e (h, k)
  ]

  round-IsUnit : (x : F) → IsUnit x → IsUnit (f.round4 x)
  round-IsUnit x (h, k) = (
    o.le_trans _ _ _ (o.round4_lit 0).1 (o.round4_mono _ _ h),
    o.le_trans _ _ _ (o.round4_mono _ _ k) (o.round4_lit 10_000).0,
  )

  engine_score-IsUnit :
      (m : Option (List F → F)) (fs : Features F) (x : F)
      → ((p : List F → F) → m ≡ some p → IsUnit (p (xgb_features fs)))
      → IsUnit x
      → IsUnit (engine_score m fs x).0
  engine_score-IsUnit none fs x h u = u
  engine_score-IsUnit (some p) fs x h u = h p refl

  -- The points that fired rules add lie in [-0.05, 0.25].
  promotion_score-bounds :
      (ts : List Trigger)
      → let x : F = promotion_score ts in (f.neg (lit 500) ≼ x) × (x ≼ lit 2_500)
  unfolding promotion_score
  promotion_score-bounds ts =
      let below = o.le_trans _ _ _ (o.neg_mono _ _ (o.lit_mono 0 500 (omega arith))) o.neg_zero.0 in
      (
        le-fmax_left F o (f.neg (lit 500)) _,
        fmax-le F o (f.neg (lit 500)) _ (lit 2_500)
            (o.le_trans _ _ _ below (o.lit_mono 0 2_500 (omega arith)))
            (fmin-le_left F o (lit 2_500) _),
      )

  compute_score-IsUnit :
      (s : Scorer F) (fs : Features F) (ts : List Trigger) (r : F × List (Breakdown F))
      → compute_score s fs ts ≡ some r
      → IsUnit r.0
  unfolding compute_score
  compute_score-IsUnit s fs ts r h =
      let ((total, b), (_, e)) = bind_some (weighted_sum fs s.weights (lit 0)) _ r h in
      subst (λ q. IsUnit q.0) (some-injective _ _ e) (clamp-IsUnit (add total (promotion_score ts)))

  -- Every assessment has a score and a confidence in [0, 1], if the model, where there is one, gives
  -- a probability.
  pub score-bounds :
      (eval : String → List (String × Raw F) → Option Bool) (s : Scorer F) (fs : Features F)
      (a : Assessment F)
      → ((p : List F → F)
          → s.model ≡ some p
          → (lit 0 ≼ p (xgb_features fs)) × (p (xgb_features fs) ≼ lit 10_000))
      → score eval s fs ≡ some a
      → ((lit 0 ≼ a.return_risk_score) × (a.return_risk_score ≼ lit 10_000))
        × ((lit 0 ≼ a.confidence) × (a.confidence ≼ lit 10_000))
  unfolding score calculate_confidence
  score-bounds eval s fs a h e =
      let ts = evaluate eval s.rules fs in
      let (r, (c, g)) =
        bind_some (compute_score s fs ts)
          (λ q. if is_readable s.model fs then some (assess s fs ts q) else none) a e in
      let final = floored ts (engine_score s.model fs r.0).0 in
      let unit =
        floored-IsUnit ts _
          (engine_score-IsUnit s.model fs r.0 h (compute_score-IsUnit s fs ts r c)) in
      subst (λ z. IsUnit z.return_risk_score × IsUnit z.confidence)
        (if_some (is_readable s.model fs) g)
        (round-IsUnit final unit, round-IsUnit (calculate_confidence fs final) (clamp-IsUnit _))
