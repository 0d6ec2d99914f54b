-- ===== src/Ensemble/Floor.antt =====
-- engine/ensemble.py, `_fuse_score`: the second layer's probability is a floor.
use pay_shield.Prelude.{◌≡◌, refl, ◌∙◌, true, Option, none, some, arith}
use pay_shield.Prelude.Float.{Float, IsOrdered, ◌≼◌, lit, add, mul, flt}
use pay_shield.Prelude.Float.Order.{le-fmin, le-fmax_right, lt_le_trans}
use pay_shield.Layer1.Rules.{Decision, allow, review, block, escalate}
use pay_shield.Layer1.Gate.{Layer1Result}
use pay_shield.Ensemble.{Engine, Fitted, calibrate, fuse_score, raised, gating_score, fuse}
use pay_shield.Ensemble.Decide.{decided, fuse-decided}

module _ {F : Type 0} ⦃f : Float F⦄ where
  -- a score is above the support of the calibrator, or there is none
  abbrev pub IsPassed : Option (Fitted F) → F → Type 0
  IsPassed none p = Unit
  IsPassed (some c) p = flt c.support_max p ≡ true

  decided-block :
      (e : Engine F) (x : F) (d : Decision) → e.fraud_threshold ≼ x → decided e x d ≡ block
  decided-block e x allow h = rw h refl
  decided-block e x review h = rw h refl
  decided-block e x block h = refl
  decided-block e x escalate h = rw h refl

module _ (F : Type 0) ⦃f : Float F⦄ (o : IsOrdered F) where
  le-calibrate : (c : Option (Fitted F)) (p x : F) → IsPassed c p → p ≼ x → p ≼ calibrate c x
  unfolding calibrate
  le-calibrate none p x s h = h
  le-calibrate (some c) p x s h = rw (lt_le_trans F o c.support_max p x s h) h

  le-raised : (d : Decision) (p x : F) → p ≼ lit 10_000 → p ≼ x → p ≼ raised d x
  unfolding raised
  le-raised allow p x k h = h
  le-raised review p x k h = h
  le-raised block p x k h = h
  le-raised escalate p x k h =
      le-fmin F o _ _ p k (
        o.le_trans _ _ _ (o.add_zero p).1 (o.add_mono _ _ _ _ h (o.lit_mono 0 1_500 (omega arith))))

  -- If the second layer gives a probability of at least the fraud threshold and at most 1, and the
  -- calibrator is not fitted or was fitted on scores below that probability only, then the final
  -- decision is BLOCK, whatever the first layer says.
  pub fuse-floor :
      (e : Engine F) (l1 : Layer1Result F) (p : F)
      → e.fraud_threshold ≼ p
      → p ≼ lit 10_000
      → IsPassed e.calibrator p
      → (fuse e l1 (some (record { fraud_probability = some p }))).0.decision ≡ block
  fuse-floor e l1 p h k s =
      let l2 = some (record { fraud_probability = some p }) in
      let floor : p ≼ fuse_score e l1.confidence (some p) =
        unfold fuse_score in
        le-fmax_right F o (add (mul e.layer1_weight l1.confidence) (mul e.layer2_weight p)) p in
      let gate = le-calibrate e.calibrator p _ s (le-raised l1.decision p _ k floor) in
      fuse-decided e l1 l2
      ∙ decided-block e (gating_score e l1 l2) l1.decision (o.le_trans _ _ _ h gate)
