-- ===== src/Score/Once.antt =====
-- api/routes/score.py, `score_transaction`: the history after a call, and after a second call for the
-- same payment.
use pay_shield.Prelude.{
  ◌≡◌, refl, sym, ap, ◌∙◌, subst, Bool, true, false, Option, none, Option-cases, inl, inr,
  if◌then◌else◌,
}
use pay_shield.Prelude.Float.{Float}
use pay_shield.Layer1.Rules.{is_block}
use pay_shield.Layer1.Gate.{Layer1Result}
use pay_shield.Score.History.{ScoreRequest, RouteFeatures, record_and_build_features, History}
use pay_shield.Score.Layers.{L2Call, run_l2_inference, run_ensemble}
use pay_shield.Score.Route.{
  blocked_response, fused_response, finish_blocked, finish_fused, first_layer, score_fresh,
  score_transaction,
}
use pay_shield.Score.World.{
  FraudScoreResponse, Env, World, append_audit_entry, persist_explanation, alerted, cached_response,
}
use pay_shield.Score.Answers.{
  persist-IsKept, alerted-IsKept, cache_result-audit, lookup-none, lookup-some,
}
use pay_shield.Score.Record.{IsSound, IsSame, build-IsSound, build-seen, build-again}

module _ {F : Type 0} ⦃f : Float F⦄ where
  finish_blocked-history :
      (v : Env F) (t : ScoreRequest F) (fs : Option (RouteFeatures F)) (l1 : Layer1Result F)
      (w : World F)
      → (finish_blocked v t fs l1 w).1.history ≡ w.history
  unfolding finish_blocked append_audit_entry
  finish_blocked-history v t fs l1 w =
      let r = blocked_response t l1 in
      let w1 = append_audit_entry v t r (persist_explanation v t l1 fs r w) in
      (cache_result-audit v t r w1).1 ∙ (persist-IsKept v t l1 fs r w).1.0

  finish_fused-history :
      (v : Env F) (t : ScoreRequest F) (call : L2Call F) (fs : Option (RouteFeatures F))
      (l1 : Layer1Result F) (w : World F)
      → (finish_fused v t call fs l1 w).1.history ≡ w.history
  unfolding finish_fused append_audit_entry
  finish_fused-history v t call fs l1 w =
      let l2 = run_l2_inference call in
      let x = run_ensemble v.ensemble_raises w.engine l1 l2.0 in
      let r = fused_response t l1 l2 x.0 in
      let w0 : World F = record w { engine = x.1 } in
      (cache_result-audit v t r (alerted v t l1 fs r r.decision w0)).1
      ∙ (alerted-IsKept v t l1 fs r r.decision w0).1.0

  first_layer-history :
      (v : Env F) (w : World F) (t : ScoreRequest F)
      → (first_layer v w t).1.1.history ≡ (record_and_build_features v.maths v.faults w.history t).1
  unfolding first_layer
  first_layer-history v w t = refl

  branch-history :
      (b : Bool) (x y : Option (FraudScoreResponse F) × World F) (h : History F)
      → x.1.history ≡ h
      → y.1.history ≡ h
      → (if b then x else y).1.history ≡ h
  branch-history true x y h p q = p
  branch-history false x y h p q = q

  score_fresh-history :
      (v : Env F) (w : World F) (call : L2Call F) (t : ScoreRequest F)
      → (score_fresh v w call t).1.history
        ≡ (record_and_build_features v.maths v.faults w.history t).1
  unfolding score_fresh
  score_fresh-history v w call t =
      let (fs, (l1, w1)) = first_layer v w t in
      let h = (record_and_build_features v.maths v.faults w.history t).1 in
      branch-history (is_block l1.decision) (finish_blocked v t fs l1 w1)
        (finish_fused v t call fs l1 w1) h
        (finish_blocked-history v t fs l1 w1 ∙ first_layer-history v w t)
        (finish_fused-history v t call fs l1 w1 ∙ first_layer-history v w t)

  fresh-history :
      (v : Env F) (w : World F) (call : L2Call F) (t : ScoreRequest F)
      → cached_response v w t ≡ none
      → (score_transaction v w call t).1.history
        ≡ (record_and_build_features v.maths v.faults w.history t).1
  fresh-history v w call t h =
      ap (λ x. x.1.history) (lookup-none v w call t h) ∙ score_fresh-history v w call t

  -- If every list in the history has at most 1000 items, each an entry with the keys that the code
  -- reads or not JSON at all, then so it is after a call, whatever fails.
  pub score_transaction-IsSound :
      (v : Env F) (w : World F) (call : L2Call F) (t : ScoreRequest F)
      → IsSound w.history
      → IsSound (score_transaction v w call t).1.history
  score_transaction-IsSound v w call t s = elim (Option-cases (cached_response v w t)) [
    | inl e ↦
        subst IsSound (sym (fresh-history v w call t e))
          (build-IsSound v.maths v.faults w.history t s)
    | inr (r, e) ↦ subst IsSound (sym (ap (λ x. x.1.history) (lookup-some v w call t r e))) s
  ]

  -- A payment is recorded once. Let the history be sound as above, the first call not be answered from
  -- the cache, and its writes to Redis succeed. Then a second call with the same id, whose check of
  -- the id succeeds, leaves the lists of all users and devices and the marks as the first call left
  -- them, whatever became of the cached response and of everything else but the history.
  pub score_transaction-once :
      (v v' : Env F) (w w' : World F) (call call' : L2Call F) (t t' : ScoreRequest F)
      → IsSound w.history
      → cached_response v w t ≡ none
      → v.faults.pipeline ≡ false
      → v'.faults.dedupe_check ≡ false
      → t'.txn_id ≡ t.txn_id
      → w'.history ≡ (score_transaction v w call t).1.history
      → IsSame w'.history (score_transaction v' w' call' t').1.history
  score_transaction-once v v' w w' call call' t t' s miss write check same from =
      let first = from ∙ fresh-history v w call t miss in
      let sound = subst IsSound (sym first) (build-IsSound v.maths v.faults w.history t s) in
      let seen =
        ap (λ h. h.seen t'.txn_id) first
        ∙ ap (record_and_build_features v.maths v.faults w.history t).1.seen same
        ∙ build-seen v.maths v.faults w.history t s write in
      elim (Option-cases (cached_response v' w' t')) [
        | inl e ↦
            subst (IsSame w'.history) (sym (fresh-history v' w' call' t' e))
              (build-again v'.maths v'.faults w'.history t' sound check seen)
        | inr (r, e) ↦
            subst (λ x. IsSame w'.history x.1.history) (sym (lookup-some v' w' call' t' r e))
              (refl, (refl, refl))
      ]
