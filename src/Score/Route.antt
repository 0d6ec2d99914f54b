-- ===== src/Score/Route.antt =====
-- api/routes/score.py: `score_transaction`. `tasks` is not in the repository, so no investigation is
-- enqueued.
use pay_shield.Prelude.{Option, none, some, if◌then◌else◌}
use pay_shield.Prelude.Float.{Float, lit}
use pay_shield.Layer1.Rules.{block, is_block}
use pay_shield.Layer1.Gate.{Layer1Result}
use pay_shield.Ensemble.{l1_statistical, Layer2Result}
use pay_shield.Score.History.{ScoreRequest, RouteFeatures, record_and_build_features}
use pay_shield.Score.Layers.{
  L2Status, L2Call, run_l2_inference, Fused, transaction, run_layer1, run_ensemble,
}
use pay_shield.Score.World.{
  Env, FraudScoreResponse, World, alerted, append_audit_entry, broadcast_alert, cache_result,
  cached_response, layers, persist_explanation, rules, validated,
}

module _ {F : Type 0} ⦃f : Float F⦄ where
  abbrev pub blocked_response : ScoreRequest F → Layer1Result F → FraudScoreResponse F
  blocked_response t l1 = record {
    txn_id = t.txn_id;
    decision = block;
    fraud_probability = lit 10_000;
    layer_triggered = l1_statistical;
    evidence = rules l1.triggered_rules;
  }

  abbrev pub fused_response :
      ScoreRequest F → Layer1Result F → Layer2Result F × L2Status → Fused F → FraudScoreResponse F
  fused_response t l1 (l2, status) x = record {
    txn_id = t.txn_id;
    decision = x.decision;
    fraud_probability = x.confidence;
    layer_triggered = x.source;
    evidence = layers l1.triggered_rules x.confidence status l2.fraud_probability;
  }

  -- the branch for a BLOCK of the first layer
  unfoldable pub finish_blocked :
      Env F
      → ScoreRequest F
      → Option (RouteFeatures F)
      → Layer1Result F
      → World F
      → Option (FraudScoreResponse F) × World F
  unfolding persist_explanation append_audit_entry cache_result validated
  finish_blocked v t fs l1 w =
      let r = blocked_response t l1 in
      let w1 = append_audit_entry v t r (persist_explanation v t l1 fs r w) in
      (validated r, cache_result v t r w1)

  -- the rest, with the second layer and the fusion
  unfoldable pub finish_fused :
      Env F
      → ScoreRequest F
      → L2Call F
      → Option (RouteFeatures F)
      → Layer1Result F
      → World F
      → Option (FraudScoreResponse F) × World F
  unfolding run_l2_inference persist_explanation broadcast_alert append_audit_entry cache_result
      validated
  finish_fused v t call fs l1 w =
      let l2 = run_l2_inference call in
      let (x, e) = run_ensemble v.ensemble_raises w.engine l1 l2.0 in
      let r = fused_response t l1 l2 x in
      let w1 = alerted v t l1 fs r r.decision (record w { engine = e }) in
      (validated r, append_audit_entry v t r (cache_result v t r w1))

  -- the features and the first layer's result, and the world after them
  unfoldable pub first_layer :
      Env F → World F → ScoreRequest F → Option (RouteFeatures F) × (Layer1Result F × World F)
  unfolding record_and_build_features run_layer1
  first_layer v w t =
      let (fs, h) = record_and_build_features v.maths v.faults w.history t in
      let (l1, s) = run_layer1 v.config v.layer1_raises w.filters (transaction v.digits t fs) in
      (fs, (l1, record w { history = h; filters = s }))

  unfoldable pub score_fresh :
      Env F → World F → L2Call F → ScoreRequest F → Option (FraudScoreResponse F) × World F
  unfolding first_layer finish_blocked finish_fused
  score_fresh v w call t =
      let (fs, (l1, w1)) = first_layer v w t in
      if is_block l1.decision then finish_blocked v t fs l1 w1 else finish_fused v t call fs l1 w1

  -- `if idempotent:`
  abbrev pub replayed :
      Option (FraudScoreResponse F)
      → World F
      → Option (FraudScoreResponse F) × World F
      → Option (FraudScoreResponse F) × World F
  replayed (some r) w fresh = (some r, w)
  replayed none w fresh = fresh

  -- `none` is an exception that leaves the route
  unfoldable pub score_transaction :
      Env F → World F → L2Call F → ScoreRequest F → Option (FraudScoreResponse F) × World F
  unfolding score_fresh cached_response
  score_transaction v w call t = replayed (cached_response v w t) w (score_fresh v w call t)
