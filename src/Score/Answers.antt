-- ===== src/Score/Answers.antt =====
-- api/routes/score.py, `score_transaction`: what each call answers, audits, caches and broadcasts.
use pay_shield.Prelude.{
  String, ◌≡◌, refl, sym, ap, ◌∙◌, subst, Bool, true, false, false≢true, Option, none, some, eq_iff,
  if◌then◌else◌, Bool-cases, inl, inr, ◌||◌, ◌==◌, ltb, length, [], ◌∷◌, ◌++◌,
}
use pay_shield.Prelude.Float.{Float}
use pay_shield.Layer1.Rules.{Decision, allow, review, block, escalate, is_block}
use pay_shield.Layer1.Gate.{Layer1Result}
use pay_shield.Ensemble.{Layer2Result, Engine, fuse}
use pay_shield.Ensemble.Decide.{is_escalate, fuse-disagreements}
use pay_shield.Audit.Queue.{AsyncWriter, enqueue}
use pay_shield.Score.History.{ScoreRequest, RouteFeatures, put}
use pay_shield.Score.Layers.{L2Call, run_l2_inference, run_ensemble}
use pay_shield.Score.Route.{
  blocked_response, fused_response, finish_blocked, finish_fused, first_layer, score_fresh,
  replayed, score_transaction,
}
use pay_shield.Score.World.{
  FraudScoreResponse, Env, World, is_final, audit_item, append_audit_entry, cache_result,
  persist_explanation, broadcast_alert, alerted, validated, cached_response,
}

-- a size of 0 is no bound
abbrev has_room : AsyncWriter → Bool
has_room q = q.max_queue == 0 || ltb (length q.queue) q.max_queue

pub put_same : {A : Type 0} (m : String → A) (k : String) (v : A) → put m k v k ≡ v
put_same m k v = rw ((eq_iff k k).1 refl)

not_escalate-is_final : (d : Decision) → is_escalate d ≡ false → is_final d ≡ true
not_escalate-is_final allow h = refl
not_escalate-is_final review h = refl
not_escalate-is_final block h = refl
not_escalate-is_final escalate h = absurd (false≢true (sym h))

module _ {F : Type 0} where
  pub validated_final :
      (r : FraudScoreResponse F) → is_final r.decision ≡ true → validated r ≡ some r
  unfolding validated
  validated_final r h = rw h

  pub validated-some :
      (r s : FraudScoreResponse F) → validated r ≡ some s → (r ≡ s) × (is_final s.decision ≡ true)
  unfolding validated
  validated-some r s h = elim (Bool-cases (is_final r.decision)) [
    | inl e ↦
        let same : r ≡ s = cc (h, validated_final r e) in
        (same, subst (λ x. is_final x.decision ≡ true) same e)
    | inr e ↦ absurd (cc (h, refused e))
  ]
    where
      refused : is_final r.decision ≡ false → validated r ≡ none
      refused e = rw e

  -- what a call leaves, when it answers with r and started in w
  abbrev pub IsAnswer :
      Env F
      → ScoreRequest F
      → World F
      → Option (FraudScoreResponse F) × World F
      → FraudScoreResponse F
      → Type 0
  IsAnswer v t w out r =
      ((out.0 ≡ some r) × (is_final r.decision ≡ true))
      × ((out.1.audit ≡ enqueue w.audit (audit_item v.show t r))
          × (out.1.idempotent ≡ (cache_result v t r w).idempotent))

  -- what the explanation and the alert leave alone
  abbrev IsKept : World F → World F → Type 0
  IsKept w w' =
      ((w'.audit ≡ w.audit) × (w'.idempotent ≡ w.idempotent))
      × ((w'.history ≡ w.history) × (w'.engine ≡ w.engine))

  pub persist-IsKept :
      (v : Env F) (t : ScoreRequest F) (l1 : Layer1Result F) (fs : Option (RouteFeatures F))
      (r : FraudScoreResponse F) (w : World F)
      → IsKept w (persist_explanation v t l1 fs r w)
  unfolding persist_explanation
  persist-IsKept v t l1 fs r w = elim (Bool-cases v.disk_fails) [
    | inl e ↦ rw e ((refl, refl), (refl, refl))
    | inr e ↦ rw e ((refl, refl), (refl, refl))
  ]

  pub alerted-IsKept :
      (v : Env F) (t : ScoreRequest F) (l1 : Layer1Result F) (fs : Option (RouteFeatures F))
      (r : FraudScoreResponse F) (d : Decision) (w : World F)
      → IsKept w (alerted v t l1 fs r d w)
  unfolding broadcast_alert
  alerted-IsKept v t l1 fs r allow w = ((refl, refl), (refl, refl))
  alerted-IsKept v t l1 fs r escalate w = ((refl, refl), (refl, refl))
  alerted-IsKept v t l1 fs r block w = persist-IsKept v t l1 fs r w
  alerted-IsKept v t l1 fs r review w = persist-IsKept v t l1 fs r w

  pub cache_result-audit :
      (v : Env F) (t : ScoreRequest F) (r : FraudScoreResponse F) (w : World F)
      → ((cache_result v t r w).audit ≡ w.audit) × ((cache_result v t r w).history ≡ w.history)
  unfolding cache_result
  cache_result-audit v t r w = elim (Bool-cases v.cache_write_fails) [
    | inl e ↦ rw e (refl, refl)
    | inr e ↦ rw e (refl, refl)
  ]

  cache_result-idempotent :
      (v : Env F) (t : ScoreRequest F) (r : FraudScoreResponse F) (w w' : World F)
      → w'.idempotent ≡ w.idempotent
      → (cache_result v t r w').idempotent ≡ (cache_result v t r w).idempotent
  unfolding cache_result
  cache_result-idempotent v t r w w' h = elim (Bool-cases v.cache_write_fails) [
    | inl e ↦ rw e h
    | inr e ↦ rw (e, h)
  ]

module _ {F : Type 0} ⦃f : Float F⦄ where
  finish_blocked-IsAnswer :
      (v : Env F) (t : ScoreRequest F) (fs : Option (RouteFeatures F)) (l1 : Layer1Result F)
      (w : World F)
      → IsAnswer v t w (finish_blocked v t fs l1 w) (blocked_response t l1)
  unfolding finish_blocked append_audit_entry
  finish_blocked-IsAnswer v t fs l1 w =
      let r = blocked_response t l1 in
      let k = persist-IsKept v t l1 fs r w in
      let w1 = append_audit_entry v t r (persist_explanation v t l1 fs r w) in
      (
        (validated_final r refl, refl),
        (
          (cache_result-audit v t r w1).0 ∙ ap (λ a. enqueue a (audit_item v.show t r)) k.0.0,
          cache_result-idempotent v t r w w1 k.0.1,
        ),
      )

  pub run_ensemble-is_final :
      (raises : Bool) (e : Option (Engine F)) (l1 : Layer1Result F) (l2 : Layer2Result F)
      → is_final (run_ensemble raises e l1 l2).0.decision ≡ true
  unfolding run_ensemble
  run_ensemble-is_final raises none l1 l2 = refl
  run_ensemble-is_final true (some e) l1 l2 = refl
  run_ensemble-is_final false (some e) l1 l2 =
      not_escalate-is_final (fuse e l1 (some l2)).0.decision (fuse-disagreements e l1 (some l2)).0

  -- the response of the second branch
  abbrev pub fused_answer :
      Env F → ScoreRequest F → L2Call F → Layer1Result F → World F → FraudScoreResponse F
  fused_answer v t call l1 w =
      let l2 = run_l2_inference call in
      fused_response t l1 l2 (run_ensemble v.ensemble_raises w.engine l1 l2.0).0

  finish_fused-IsAnswer :
      (v : Env F) (t : ScoreRequest F) (call : L2Call F) (fs : Option (RouteFeatures F))
      (l1 : Layer1Result F) (w : World F)
      → IsAnswer v t w (finish_fused v t call fs l1 w) (fused_answer v t call l1 w)
  unfolding finish_fused append_audit_entry
  finish_fused-IsAnswer v t call fs l1 w =
      let l2 = run_l2_inference call in
      let x = run_ensemble v.ensemble_raises w.engine l1 l2.0 in
      let r = fused_response t l1 l2 x.0 in
      let w0 : World F = record w { engine = x.1 } in
      let w1 = alerted v t l1 fs r r.decision w0 in
      let k = alerted-IsKept v t l1 fs r r.decision w0 in
      let final = run_ensemble-is_final v.ensemble_raises w.engine l1 l2.0 in
      (
        (validated_final r final, final),
        (
          ap (λ a. enqueue a (audit_item v.show t r)) ((cache_result-audit v t r w1).0 ∙ k.0.0),
          cache_result-idempotent v t r w w1 k.0.1,
        ),
      )

  -- the response to a request that is not cached
  abbrev pub answer : Env F → World F → L2Call F → ScoreRequest F → FraudScoreResponse F
  answer v w call t =
      let (l1, w1) = (first_layer v w t).1 in
      if is_block l1.decision then blocked_response t l1 else fused_answer v t call l1 w1

  branch-IsAnswer :
      (v : Env F) (t : ScoreRequest F) (w : World F) (b : Bool)
      (x y : Option (FraudScoreResponse F) × World F) (r s : FraudScoreResponse F)
      → IsAnswer v t w x r
      → IsAnswer v t w y s
      → IsAnswer v t w (if b then x else y) (if b then r else s)
  branch-IsAnswer v t w true x y r s h k = h
  branch-IsAnswer v t w false x y r s h k = k

  first_layer-audit :
      (v : Env F) (w : World F) (t : ScoreRequest F)
      → ((first_layer v w t).1.1.audit ≡ w.audit)
        × ((first_layer v w t).1.1.idempotent ≡ w.idempotent)
  unfolding first_layer
  first_layer-audit v w t = (refl, refl)

  from-IsAnswer :
      (v : Env F) (t : ScoreRequest F) (w w1 : World F)
      (out : Option (FraudScoreResponse F) × World F) (r : FraudScoreResponse F)
      → (w1.audit ≡ w.audit) × (w1.idempotent ≡ w.idempotent)
      → IsAnswer v t w1 out r
      → IsAnswer v t w out r
  from-IsAnswer v t w w1 out r (h, k) (a, (b, c)) = (
    a,
    (b ∙ ap (λ q. enqueue q (audit_item v.show t r)) h, c ∙ cache_result-idempotent v t r w w1 k),
  )

  pub score_fresh-IsAnswer :
      (v : Env F) (w : World F) (call : L2Call F) (t : ScoreRequest F)
      → IsAnswer v t w (score_fresh v w call t) (answer v w call t)
  unfolding score_fresh
  score_fresh-IsAnswer v w call t =
      let (fs, (l1, w1)) = first_layer v w t in
      from-IsAnswer v t w w1 (score_fresh v w call t) (answer v w call t) (first_layer-audit v w t)
        (branch-IsAnswer v t w1 (is_block l1.decision) (finish_blocked v t fs l1 w1)
          (finish_fused v t call fs l1 w1) (blocked_response t l1) (fused_answer v t call l1 w1)
          (finish_blocked-IsAnswer v t fs l1 w1) (finish_fused-IsAnswer v t call fs l1 w1))

  pub lookup-none :
      (v : Env F) (w : World F) (call : L2Call F) (t : ScoreRequest F)
      → cached_response v w t ≡ none
      → score_transaction v w call t ≡ score_fresh v w call t
  unfolding score_transaction
  lookup-none v w call t h = ap (λ o. replayed o w (score_fresh v w call t)) h

  pub lookup-some :
      (v : Env F) (w : World F) (call : L2Call F) (t : ScoreRequest F) (r : FraudScoreResponse F)
      → cached_response v w t ≡ some r
      → score_transaction v w call t ≡ (some r, w)
  unfolding score_transaction
  lookup-some v w call t r h = ap (λ o. replayed o w (score_fresh v w call t)) h

  -- A request that no cached response answers gets a response, whatever fails on the way: its decision
  -- is ALLOW, REVIEW or BLOCK. The queue of the audit log has exactly one entry more, of this request
  -- with that response, where it had room, and is unchanged where it was full.
  pub score_transaction-audited :
      (v : Env F) (w : World F) (call : L2Call F) (t : ScoreRequest F)
      → cached_response v w t ≡ none
      → let audit = (score_transaction v w call t).1.audit in
        (r : FraudScoreResponse F) × (((score_transaction v w call t).0 ≡ some r)
          × ((is_final r.decision ≡ true)
              × (audit ≡ (
                  if has_room w.audit
                  then record w.audit { queue = w.audit.queue ++ audit_item v.show t r ∷ [] }
                  else w.audit))))
  unfolding enqueue
  score_transaction-audited v w call t h =
      let (a, b) = score_fresh-IsAnswer v w call t in
      let e = lookup-none v w call t h in
      (answer v w call t, (ap (λ x. x.0) e ∙ a.0, (a.1, ap (λ x. x.1.audit) e ∙ b.0)))
