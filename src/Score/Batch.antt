-- ===== src/Score/Batch.antt =====
-- api/routes/score.py: `batch_score`. The tasks that `asyncio.gather` starts are run in the order of
-- the list, which is one of the orders that the event loop may take.
use pay_shield.Prelude.{
  Bool, false, Option, none, some, List, [], ◌∷◌, if◌then◌else◌, get_or, ltb, length,
}
use pay_shield.Prelude.Float.{Float, lit}
use pay_shield.Layer1.Rules.{allow}
use pay_shield.Layer1.Gate.{Layer1Result}
use pay_shield.Ensemble.{l1_statistical}
use pay_shield.Score.History.{ScoreRequest}
use pay_shield.Score.Layers.{Fused, run_ensemble}
use pay_shield.Score.Route.{first_layer}
use pay_shield.Score.World.{FraudScoreResponse, Env, World, empty, failure, validated}

-- there is something that can raise, and it does
abbrev pub raises : {A : Type 0} → Option A → Bool → Bool
raises none b = false
raises (some a) b = b

module _ {F : Type 0} ⦃f : Float F⦄ where
  -- the response when anything in the task raised
  abbrev pub failed_response : ScoreRequest F → FraudScoreResponse F
  failed_response t = record {
    txn_id = t.txn_id;
    decision = allow;
    fraud_probability = lit 0;
    layer_triggered = l1_statistical;
    evidence = failure;
  }

  abbrev pub batch_response : ScoreRequest F → Fused F → FraudScoreResponse F
  batch_response t x = record {
    txn_id = t.txn_id;
    decision = x.decision;
    fraud_probability = x.confidence;
    layer_triggered = x.source;
    evidence = empty;
  }

  -- the fusion without a second layer, and the response
  unfoldable pub fuse_single :
      Env F → ScoreRequest F → Layer1Result F → World F → FraudScoreResponse F × World F
  unfolding validated
  fuse_single v t l1 w =
      let (x, e) = run_ensemble false w.engine l1 (record { fraud_probability = none }) in
      if raises w.engine v.ensemble_raises
      then (failed_response t, w)
      else (get_or (validated (batch_response t x)) (failed_response t), record w { engine = e })

  -- `score_single`
  unfoldable pub score_single : Env F → World F → ScoreRequest F → FraudScoreResponse F × World F
  unfolding first_layer fuse_single
  score_single v w t =
      let (fs, (l1, w1)) = first_layer v w t in
      if raises v.config v.layer1_raises then (failed_response t, w1) else fuse_single v t l1 w1

  -- the tasks, each with the failures that it meets
  unfoldable pub score_all :
      (ScoreRequest F → Env F)
      → World F
      → List (ScoreRequest F)
      → List (FraudScoreResponse F) × World F
  score_all env w [] = ([], w)
  score_all env w (t ∷ ts) =
      let (r, w1) = score_single (env t) w t in let (rs, w2) = score_all env w1 ts in (r ∷ rs, w2)

  -- `batch_score`; `none` is a `BatchSizeExceededError`
  unfoldable pub batch_score :
      (ScoreRequest F → Env F)
      → World F
      → List (ScoreRequest F)
      → Option (List (FraudScoreResponse F)) × World F
  unfolding score_all
  batch_score env w ts =
      let (rs, w') = score_all env w ts in if ltb 100 (length ts) then (none, w) else (some rs, w')
