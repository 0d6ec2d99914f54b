-- ===== src/Score/Alerts.antt =====
-- api/routes/score.py, `score_transaction`: which responses are broadcast as alerts.
use pay_shield.Prelude.{
  ◌≡◌, refl, sym, ap, ap₂, ◌∙◌, Bool, true, false, Bool-cases, inl, inr, ◌⊎◌, Option, none, some,
  List, [], ◌∷◌, ◌++◌, if◌then◌else◌,
}
use pay_shield.Prelude.Float.{Float}
use pay_shield.Layer1.Rules.{Decision, allow, review, block, escalate, is_block}
use pay_shield.Layer1.Gate.{Layer1Result}
use pay_shield.Score.History.{ScoreRequest, RouteFeatures}
use pay_shield.Score.Layers.{L2Call, run_l2_inference, run_ensemble}
use pay_shield.Score.Route.{
  blocked_response, fused_response, finish_blocked, finish_fused, first_layer, score_fresh,
  score_transaction,
}
use pay_shield.Score.World.{
  FraudScoreResponse, Alert, Env, World, append_audit_entry, cache_result, persist_explanation,
  broadcast_alert, alerted, cached_response,
}
use pay_shield.Score.Answers.{answer, fused_answer, lookup-none, score_fresh-IsAnswer}
use mathlib.Core.List.{append-nil}

abbrev pub is_alarming : Decision → Bool
is_alarming block = true
is_alarming review = true
is_alarming _ = false

module _ {F : Type 0} where
  abbrev pub alert_of : FraudScoreResponse F → Alert F
  alert_of r = record {
    txn_id = r.txn_id;
    decision = r.decision;
    fraud_probability = r.fraud_probability;
    layer_triggered = r.layer_triggered;
  }

  -- the alerts that a response of the second branch adds
  abbrev pub alerts_of : FraudScoreResponse F → List (Alert F)
  alerts_of r = if is_alarming r.decision then alert_of r ∷ [] else []

  persist-alerts :
      (v : Env F) (t : ScoreRequest F) (l1 : Layer1Result F) (fs : Option (RouteFeatures F))
      (r : FraudScoreResponse F) (w : World F)
      → ((persist_explanation v t l1 fs r w).alerts ≡ w.alerts)
        × ((persist_explanation v t l1 fs r w).engine ≡ w.engine)
  unfolding persist_explanation
  persist-alerts v t l1 fs r w = elim (Bool-cases v.disk_fails) [
    | inl e ↦ rw e (refl, refl)
    | inr e ↦ rw e (refl, refl)
  ]

  cache-alerts :
      (v : Env F) (t : ScoreRequest F) (r : FraudScoreResponse F) (w : World F)
      → ((cache_result v t r w).alerts ≡ w.alerts) × ((cache_result v t r w).engine ≡ w.engine)
  unfolding cache_result
  cache-alerts v t r w = elim (Bool-cases v.cache_write_fails) [
    | inl e ↦ rw e (refl, refl)
    | inr e ↦ rw e (refl, refl)
  ]

  alerted-alerts :
      (v : Env F) (t : ScoreRequest F) (l1 : Layer1Result F) (fs : Option (RouteFeatures F))
      (r : FraudScoreResponse F) (d : Decision) (w : World F)
      → (alerted v t l1 fs r d w).alerts
        ≡ w.alerts ++ (if is_alarming d then alert_of r ∷ [] else [])
  unfolding broadcast_alert
  alerted-alerts v t l1 fs r allow w = sym (append-nil w.alerts)
  alerted-alerts v t l1 fs r escalate w = sym (append-nil w.alerts)
  alerted-alerts v t l1 fs r block w =
      ap (λ a. a ++ alert_of r ∷ []) (persist-alerts v t l1 fs r w).0
  alerted-alerts v t l1 fs r review w =
      ap (λ a. a ++ alert_of r ∷ []) (persist-alerts v t l1 fs r w).0

module _ {F : Type 0} ⦃f : Float F⦄ where
  finish_blocked-alerts :
      (v : Env F) (t : ScoreRequest F) (fs : Option (RouteFeatures F)) (l1 : Layer1Result F)
      (w : World F)
      → ((finish_blocked v t fs l1 w).1.alerts ≡ w.alerts)
        × ((finish_blocked v t fs l1 w).1.engine ≡ w.engine)
  unfolding finish_blocked append_audit_entry
  finish_blocked-alerts v t fs l1 w =
      let r = blocked_response t l1 in
      let w1 = append_audit_entry v t r (persist_explanation v t l1 fs r w) in
      let c = cache-alerts v t r w1 in
      let p = persist-alerts v t l1 fs r w in (c.0 ∙ p.0, c.1 ∙ p.1)

  finish_fused-alerts :
      (v : Env F) (t : ScoreRequest F) (call : L2Call F) (fs : Option (RouteFeatures F))
      (l1 : Layer1Result F) (w : World F)
      → (finish_fused v t call fs l1 w).1.alerts
        ≡ w.alerts ++ alerts_of (fused_answer v t call l1 w)
  unfolding finish_fused append_audit_entry
  finish_fused-alerts v t call fs l1 w =
      let l2 = run_l2_inference call in
      let x = run_ensemble v.ensemble_raises w.engine l1 l2.0 in
      let r = fused_response t l1 l2 x.0 in
      let w0 : World F = record w { engine = x.1 } in
      (cache-alerts v t r (alerted v t l1 fs r r.decision w0)).0
      ∙ alerted-alerts v t l1 fs r r.decision w0

  first_layer-alerts :
      (v : Env F) (w : World F) (t : ScoreRequest F)
      → ((first_layer v w t).1.1.alerts ≡ w.alerts) × ((first_layer v w t).1.1.engine ≡ w.engine)
  unfolding first_layer
  first_layer-alerts v w t = (refl, refl)

  -- Let a request not be answered from the cache. If the first layer says BLOCK, the answer is BLOCK
  -- with probability 1 whatever the second layer does, the engine is left alone, and no alert is
  -- broadcast. If it does not, an alert of the answer is broadcast exactly when the decision is BLOCK
  -- or REVIEW.
  pub score_transaction-alerts :
      (v : Env F) (w : World F) (call : L2Call F) (t : ScoreRequest F)
      → cached_response v w t ≡ none
      → let l1 = (first_layer v w t).1.0 in
        let r = answer v w call t in
        let out = score_transaction v w call t in
        ((is_block l1.decision ≡ true)
          × ((out.0 ≡ some (blocked_response t l1))
              × ((out.1.alerts ≡ w.alerts) × (out.1.engine ≡ w.engine))))
        ⊎ ((is_block l1.decision ≡ false)
            × ((out.0 ≡ some r) × (out.1.alerts ≡ w.alerts ++ alerts_of r)))
  unfolding score_fresh
  score_transaction-alerts v w call t h =
      let (fs, (l1, w1)) = first_layer v w t in
      let same = lookup-none v w call t h in
      let k = first_layer-alerts v w t in
      let blocked = finish_blocked v t fs l1 w1 in
      let fused = finish_fused v t call fs l1 w1 in
      let choose = λ (b : Bool). if b then blocked else fused in
      let answered =
        λ (b : Bool). if b then blocked_response t l1 else fused_answer v t call l1 w1 in
      let out = ap (λ x. x.0) same ∙ (score_fresh-IsAnswer v w call t).0.0 in
      elim (Bool-cases (is_block l1.decision)) [
        | inl e ↦
            let p = finish_blocked-alerts v t fs l1 w1 in
            inl (
              e,
              (
                out ∙ ap (λ b. some (answered b)) e,
                (
                  ap (λ x. x.1.alerts) same ∙ ap (λ b. (choose b).1.alerts) e ∙ p.0 ∙ k.0,
                  ap (λ x. x.1.engine) same ∙ ap (λ b. (choose b).1.engine) e ∙ p.1 ∙ k.1,
                ),
              ),
            )
        | inr e ↦ inr (
          e,
          (
            out,
            ap (λ x. x.1.alerts) same
                ∙ ap (λ b. (choose b).1.alerts) e
                ∙ finish_fused-alerts v t call fs l1 w1
                ∙ ap₂ (λ a r. a ++ alerts_of r) k.0 (sym (ap answered e)),
          ),
        )
      ]
