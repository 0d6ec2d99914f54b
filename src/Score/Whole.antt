-- ===== src/Score/Whole.antt =====
-- api/routes/score.py: `batch_score` against `score_transaction`.
use pay_shield.Prelude.{
  ◌≤◌, ◌<◌, String, ◌≡◌, refl, sym, ap, ap₂, ◌∙◌, Bool, true, false, Bool-cases, inl, inr, ◌⊎◌,
  Option, none, some, List, [], ◌∷◌, map, All, length, if◌then◌else◌, ltb, arith,
}
use pay_shield.Prelude.Float.{Float, lit}
use pay_shield.Layer1.Rules.{Decision, block, is_block}
use pay_shield.Layer1.Gate.{Layer1Result}
use pay_shield.Ensemble.{LayerName, l1_statistical, Engine, Layer2Result, fuse}
use pay_shield.Ensemble.Decide.{is_block→eq}
use pay_shield.Score.History.{ScoreRequest}
use pay_shield.Score.Layers.{L2Call, run_l2_inference, run_ensemble}
use pay_shield.Score.Route.{blocked_response, first_layer, score_transaction}
use pay_shield.Score.World.{FraudScoreResponse, Env, World, is_final, cached_response}
use pay_shield.Score.Answers.{
  answer, fused_answer, validated_final, run_ensemble-is_final, lookup-none, score_fresh-IsAnswer,
}
use pay_shield.Score.Batch.{
  batch_response, raises, fuse_single, score_single, score_all, batch_score,
}

raises-false : {A : Type 0} (x : Option A) → raises x false ≡ false
raises-false none = refl
raises-false (some a) = refl

module _ {F : Type 0} ⦃f : Float F⦄ where
  -- a response without its evidence
  abbrev pub verdict_of : FraudScoreResponse F → String × (Decision × (F × LayerName))
  verdict_of r = (r.txn_id, (r.decision, (r.fraud_probability, r.layer_triggered)))

  -- what leaves the audit log, the cache, the alerts and the explanations alone
  abbrev pub IsSilent : World F → World F → Type 0
  IsSilent w w' =
      ((w'.audit ≡ w.audit) × (w'.idempotent ≡ w.idempotent))
      × ((w'.alerts ≡ w.alerts) × (w'.explanations ≡ w.explanations))

  abbrev no_layer2 : Layer2Result F
  no_layer2 = record { fraud_probability = none }

  fuse_single-answers :
      (v : Env F) (t : ScoreRequest F) (l1 : Layer1Result F) (w : World F)
      → (((fuse_single v t l1 w).0.txn_id ≡ t.txn_id)
          × (is_final (fuse_single v t l1 w).0.decision ≡ true))
        × IsSilent w (fuse_single v t l1 w).1
  unfolding fuse_single
  fuse_single-answers v t l1 w =
      let x = (run_ensemble false w.engine l1 no_layer2).0 in
      let final = run_ensemble-is_final false w.engine l1 no_layer2 in
      elim (Bool-cases (raises w.engine v.ensemble_raises)) [
        | inl e ↦ rw e ((refl, refl), ((refl, refl), (refl, refl)))
        | inr e ↦
            rw (e, validated_final (batch_response t x) final)
              ((refl, final), ((refl, refl), (refl, refl)))
      ]

  score_single-answers :
      (v : Env F) (w : World F) (t : ScoreRequest F)
      → (((score_single v w t).0.txn_id ≡ t.txn_id)
          × (is_final (score_single v w t).0.decision ≡ true))
        × IsSilent w (score_single v w t).1
  unfolding score_single first_layer
  score_single-answers v w t = elim (Bool-cases (raises v.config v.layer1_raises)) [
    | inl e ↦ rw e ((refl, refl), ((refl, refl), (refl, refl)))
    | inr e ↦ let (fs, (l1, w1)) = first_layer v w t in rw e (fuse_single-answers v t l1 w1)
  ]

  IsSilent-trans : (a b c : World F) → IsSilent a b → IsSilent b c → IsSilent a c
  IsSilent-trans a b c ((p, q), (r, s)) ((p', q'), (r', s')) = ((p' ∙ p, q' ∙ q), (r' ∙ r, s' ∙ s))

  score_all-answers :
      (env : ScoreRequest F → Env F) (w : World F) (ts : List (ScoreRequest F))
      → ((map (λ r. r.txn_id) (score_all env w ts).0 ≡ map (λ t. t.txn_id) ts)
          × All (λ r. is_final r.decision ≡ true) (score_all env w ts).0)
        × IsSilent w (score_all env w ts).1
  unfolding score_all
  score_all-answers env w [] = ((refl, tt), ((refl, refl), (refl, refl)))
  score_all-answers env w (t ∷ ts) =
      let ((p, q), s) = score_single-answers (env t) w t in
      let w1 = (score_single (env t) w t).1 in
      let ((p', q'), s') = score_all-answers env w1 ts in
      ((ap₂ (λ x xs. x ∷ xs) p p', (q, q')), IsSilent-trans w w1 (score_all env w1 ts).1 s s')

  -- A batch of more than 100 requests is refused and changes nothing. One of at most 100 is answered,
  -- whatever fails: the responses are for the requests in their order, each with a decision of ALLOW,
  -- REVIEW or BLOCK; and no entry is put into the queue of the audit log, nothing is cached, and no
  -- alert or explanation is made.
  pub batch_score-answers :
      (env : ScoreRequest F → Env F) (w : World F) (ts : List (ScoreRequest F))
      → ((100 < length ts) × (batch_score env w ts ≡ (none, w)))
        ⊎ ((length ts ≤ 100)
            × ((rs : List (FraudScoreResponse F)) × (((batch_score env w ts).0 ≡ some rs)
                  × (((map (λ r. r.txn_id) rs ≡ map (λ t. t.txn_id) ts)
                        × All (λ r. is_final r.decision ≡ true) rs)
                      × IsSilent w (batch_score env w ts).1))))
  unfolding batch_score
  batch_score-answers env w ts = elim (Bool-cases (ltb 100 (length ts))) [
    | inl e ↦ inl (ground arith, rw e refl)
    | inr e ↦ inr (ground arith, ((score_all env w ts).0, rw e (refl, score_all-answers env w ts)))
  ]

  fuse-block :
      (e : Engine F) (l1 : Layer1Result F) (l2 : Layer2Result F)
      → is_block l1.decision ≡ true
      → (run_ensemble false (some e) l1 l2).0
        ≡ record { decision = block; confidence = lit 10_000; source = l1_statistical }
  unfolding run_ensemble fuse
  fuse-block e l1 l2 h = rw (is_block→eq l1.decision h) refl

  fuse_single-response :
      (v : Env F) (t : ScoreRequest F) (l1 : Layer1Result F) (w : World F) (e : Engine F)
      → w.engine ≡ some e
      → v.ensemble_raises ≡ false
      → (fuse_single v t l1 w).0 ≡ batch_response t (run_ensemble false w.engine l1 no_layer2).0
  unfolding fuse_single
  fuse_single-response v t l1 w e h k =
      let x = (run_ensemble false w.engine l1 no_layer2).0 in
      let final = run_ensemble-is_final false w.engine l1 no_layer2 in
      rw (ap₂ raises h k, validated_final (batch_response t x) final) refl

  score_single-response :
      (v : Env F) (w : World F) (t : ScoreRequest F) (e : Engine F)
      → w.engine ≡ some e
      → v.layer1_raises ≡ false
      → v.ensemble_raises ≡ false
      → (score_single v w t).0
        ≡ batch_response t (run_ensemble false w.engine (first_layer v w t).1.0 no_layer2).0
  unfolding score_single first_layer
  score_single-response v w t e h k n =
      let (fs, (l1, w1)) = first_layer v w t in
      rw (ap (raises v.config) k ∙ raises-false v.config) (fuse_single-response v t l1 w1 e h n)

  -- the two routes' responses, from the first layer's result
  agrees :
      (v : Env F) (t : ScoreRequest F) (call : L2Call F) (l1 : Layer1Result F) (w : World F)
      (e : Engine F) (b : Bool)
      → w.engine ≡ some e
      → v.ensemble_raises ≡ false
      → (run_l2_inference call).0 ≡ no_layer2
      → is_block l1.decision ≡ b
      → verdict_of (if b then blocked_response t l1 else fused_answer v t call l1 w)
        ≡ verdict_of (batch_response t (run_ensemble false w.engine l1 no_layer2).0)
  agrees v t call l1 w e true h k n d =
      ap (λ x. verdict_of (batch_response t x))
        (sym (fuse-block e l1 no_layer2 d)
          ∙ ap (λ x. (run_ensemble false x l1 no_layer2).0) (sym h))
  agrees v t call l1 w e false h k n d =
      ap₂ (λ b l2. verdict_of (batch_response t (run_ensemble b w.engine l1 l2).0)) k n

  -- Let a request not be answered from the cache, an engine be there, and neither the first layer nor
  -- the engine raise. If the second layer gives no probability, then `score_transaction` answers with
  -- the id, decision, probability and layer that the same request would get in a batch.
  pub score_single-agrees :
      (v : Env F) (w : World F) (call : L2Call F) (t : ScoreRequest F) (e : Engine F)
      → cached_response v w t ≡ none
      → w.engine ≡ some e
      → v.layer1_raises ≡ false
      → v.ensemble_raises ≡ false
      → (run_l2_inference call).0.fraud_probability ≡ none
      → (r : FraudScoreResponse F) × (((score_transaction v w call t).0 ≡ some r)
          × (verdict_of r ≡ verdict_of (score_single v w t).0))
  unfolding first_layer
  score_single-agrees v w call t e miss h k n p =
      let (l1, w1) = (first_layer v w t).1 in
      (
        answer v w call t,
        (
          ap (λ x. x.0) (lookup-none v w call t miss) ∙ (score_fresh-IsAnswer v w call t).0.0,
          agrees v t call l1 w1 e (is_block l1.decision) h n
                (ap (λ (x : Option F). record { fraud_probability = x }) p) refl
              ∙ ap verdict_of (sym (score_single-response v w t e h k n)),
        ),
      )
