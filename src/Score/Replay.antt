-- ===== src/Score/Replay.antt =====
-- api/routes/score.py, `score_transaction`: a second request with the id of the first.
use pay_shield.Prelude.{
  ◌≡◌, sym, ap, ◌∙◌, true, false, none, some, bind_some, Bool-cases, Option-cases, inl, inr, ◌>>=◌,
}
use pay_shield.Prelude.Float.{Float}
use pay_shield.Score.History.{ScoreRequest}
use pay_shield.Score.Layers.{L2Call}
use pay_shield.Score.Route.{score_transaction}
use pay_shield.Score.World.{
  FraudScoreResponse, Env, World, is_final, cache_result, validated, cached_response,
}
use pay_shield.Score.Answers.{
  put_same, validated_final, validated-some, answer, lookup-none, lookup-some, score_fresh-IsAnswer,
}

module _ {F : Type 0} where
  -- the cache holds r for the request
  abbrev IsCached : Env F → World F → ScoreRequest F → FraudScoreResponse F → Type 0
  IsCached v w t r = (w.idempotent (v.sha256 t.txn_id) ≡ some r) × (is_final r.decision ≡ true)

  lookup_some-IsCached :
      (v : Env F) (w : World F) (t : ScoreRequest F) (r : FraudScoreResponse F)
      → cached_response v w t ≡ some r
      → IsCached v w t r
  unfolding cached_response
  lookup_some-IsCached v w t r h = elim (Bool-cases v.cache_read_fails) [
    | inl e ↦ absurd (cc (h, failed e))
    | inr e ↦
        let (a, (p, q)) =
          bind_some (w.idempotent (v.sha256 t.txn_id)) validated r (sym (read e) ∙ h) in
        let (s, final) = validated-some a r q in (p ∙ ap some s, final)
  ]
    where
      failed : v.cache_read_fails ≡ true → cached_response v w t ≡ none
      failed e = rw e

      read :
          v.cache_read_fails ≡ false
          → cached_response v w t ≡ (w.idempotent (v.sha256 t.txn_id) >>= validated)
      read e = rw e

  IsCached-lookup :
      (v : Env F) (w : World F) (t : ScoreRequest F) (r : FraudScoreResponse F)
      → v.cache_read_fails ≡ false
      → IsCached v w t r
      → cached_response v w t ≡ some r
  unfolding cached_response
  IsCached-lookup v w t r h (p, q) = rw (h, p) (validated_final r q)

  cache_result-IsCached :
      (v : Env F) (w : World F) (t : ScoreRequest F) (r : FraudScoreResponse F)
      → v.cache_write_fails ≡ false
      → (cache_result v t r w).idempotent (v.sha256 t.txn_id) ≡ some r
  unfolding cache_result
  cache_result-IsCached v w t r h = rw h (put_same w.idempotent (v.sha256 t.txn_id) (some r))

module _ {F : Type 0} ⦃f : Float F⦄ where
  score_transaction-IsCached :
      (v : Env F) (w : World F) (call : L2Call F) (t : ScoreRequest F)
      → v.cache_write_fails ≡ false
      → (r : FraudScoreResponse F) × (((score_transaction v w call t).0 ≡ some r)
          × IsCached v (score_transaction v w call t).1 t r)
  score_transaction-IsCached v w call t h = elim (Option-cases (cached_response v w t)) [
    | inl e ↦
        let same = lookup-none v w call t e in
        let (a, b) = score_fresh-IsAnswer v w call t in
        let r = answer v w call t in
        (
          r,
          (
            ap (λ x. x.0) same ∙ a.0,
            (
              ap (λ x. x.1.idempotent (v.sha256 t.txn_id)) same
                  ∙ ap (λ m. m (v.sha256 t.txn_id)) b.1
                  ∙ cache_result-IsCached v w t r h,
              a.1,
            ),
          ),
        )
    | inr (r, e) ↦
        let same = lookup-some v w call t r e in
        let (p, q) = lookup_some-IsCached v w t r e in
        (r, (ap (λ x. x.0) same, (ap (λ x. x.1.idempotent (v.sha256 t.txn_id)) same ∙ p, q)))
  ]

  -- If the first call could write the cache and the second can read it, then a second request whose id
  -- has the hash of the first's gets the very response of the first, whatever else it says and
  -- whatever the layers would say by then, and it changes nothing.
  pub score_transaction-replay :
      (v v' : Env F) (w : World F) (call call' : L2Call F) (t t' : ScoreRequest F)
      → v.cache_write_fails ≡ false
      → v'.cache_read_fails ≡ false
      → v'.sha256 t'.txn_id ≡ v.sha256 t.txn_id
      → score_transaction v' (score_transaction v w call t).1 call' t'
        ≡ score_transaction v w call t
  score_transaction-replay v v' w call call' t t' write read same =
      let (r, (p, (q, final))) = score_transaction-IsCached v w call t write in
      let w' = (score_transaction v w call t).1 in
      let again = IsCached-lookup v' w' t' r read (ap w'.idempotent same ∙ q, final) in
      lookup-some v' w' call' t' r again ∙ ap (λ o. (o, w')) (sym p)
