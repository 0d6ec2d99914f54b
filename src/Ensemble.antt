-- ===== src/Ensemble.antt =====
-- engine/ensemble.py: the calibrator and the engine that fuses the two layers' scores into the final
-- decision. The fitted isotonic model of sklearn is a parameter: its largest fitted score and its
-- `predict`. Latencies and timestamps are left out.
pub mod Decide
pub mod Boundary
pub mod Floor
mod Tests
use pay_shield.Prelude.{
  String, Bool, true, false, ◌&&◌, not, Option, none, some, List, [], ◌∷◌, ◌++◌, if◌then◌else◌,
}
use pay_shield.Prelude.Float.{Float, lit, add, mul, fle, flt, fmin, fmax}
use pay_shield.Layer1.Rules.{Decision, allow, review, block, escalate, RuleName}
use pay_shield.Layer1.Gate.{Layer1Result}

pub data LayerName : Type 0 where
  l1_statistical l2_gnn ensemble : LayerName

pub record Layer2Result (F : Type 0) : Type 0 where
  pub fraud_probability : Option F

-- `ConfidenceCalibrator` once fitted
pub record Fitted (F : Type 0) : Type 0 where
  pub support_max : F
  pub predict : F → F

-- an entry of `disagreements`; its description is `ALLOW_vs_` and the decision
pub record Disagreement (F : Type 0) : Type 0 where
  pub against : Decision
  pub layer1_decision : Decision
  pub layer2_probability : Option F

pub record Engine (F : Type 0) : Type 0 where
  pub layer1_weight : F
  pub layer2_weight : F
  pub fraud_threshold : F
  pub review_threshold : F
  pub calibrator : Option (Fitted F)
  pub disagreements : List (Disagreement F)

pub record EnsembleResult (F : Type 0) : Type 0 where
  pub decision : Decision
  pub confidence : F
  pub source : LayerName
  pub triggered_rules : List RuleName
  pub layer1_result : Layer1Result F
  pub layer2_result : Option (Layer2Result F)

module _ {F : Type 0} ⦃f : Float F⦄ where
  unfoldable pub calibrate : Option (Fitted F) → F → F
  calibrate none x = x
  calibrate (some c) x = if flt c.support_max x then x else c.predict x

  unfoldable pub fuse_score : Engine F → F → Option F → F
  fuse_score e c1 none = c1
  fuse_score e c1 (some p) = fmax (add (mul e.layer1_weight c1) (mul e.layer2_weight p)) p

  unfoldable pub decision_from_score : Engine F → F → Decision → Decision × LayerName
  decision_from_score e x escalate = (if fle e.fraud_threshold x then block else review, ensemble)
  decision_from_score e x _ =
      if fle e.fraud_threshold x
      then (block, l2_gnn)
      else (if fle e.review_threshold x then (review, ensemble) else (allow, ensemble))

  -- the probability of the second layer, if it ran and gave one
  abbrev pub l2_prob : Option (Layer2Result F) → Option F
  l2_prob none = none
  l2_prob (some r) = r.fraud_probability

  -- the raw score, with the bonus of an escalation
  unfoldable pub raised : Decision → F → F
  raised escalate x = fmin (lit 10_000) (add x (lit 1_500))
  raised _ x = x

  -- the score that gates the decision
  abbrev pub gating_score : Engine F → Layer1Result F → Option (Layer2Result F) → F
  gating_score e l1 l2 =
      calibrate e.calibrator (raised l1.decision (fuse_score e l1.confidence (l2_prob l2)))

  -- the entry that `fuse` logs, if any
  abbrev pub logged :
      Layer1Result F → Option (Layer2Result F) → Decision → Decision → List (Disagreement F)
  logged l1 l2 allow block =
      record { against = block; layer1_decision = allow; layer2_probability = l2_prob l2 } ∷ []
  logged l1 l2 allow review =
      record { against = review; layer1_decision = allow; layer2_probability = l2_prob l2 } ∷ []
  logged l1 l2 _ _ = []

  -- `fuse` past the check for BLOCK
  unfoldable pub fuse_scores :
      Engine F → Layer1Result F → Option (Layer2Result F) → EnsembleResult F × Engine F
  fuse_scores e l1 l2 =
      let x = gating_score e l1 l2 in
      let (decision, source) = decision_from_score e x l1.decision in
      (
        record {
          decision = decision;
          confidence = f.round4 x;
          source = source;
          triggered_rules = l1.triggered_rules;
          layer1_result = l1;
          layer2_result = l2;
        },
        record e { disagreements = e.disagreements ++ logged l1 l2 l1.decision decision },
      )

  unfoldable pub fuse :
      Engine F → Layer1Result F → Option (Layer2Result F) → EnsembleResult F × Engine F
  fuse e l1 l2 = elim l1.decision [
    | block ↦ (
      record {
        decision = block;
        confidence = lit 10_000;
        source = l1_statistical;
        triggered_rules = l1.triggered_rules;
        layer1_result = l1;
        layer2_result = none;
      },
      e,
    )
    | _ ↦ fuse_scores e l1 l2
  ]
