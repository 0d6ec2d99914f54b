-- ===== src/ReturnRisk/Served.antt =====
-- api/routes/return_risk.py: what a scored order leaves behind, and what an explained one does.
use pay_shield.Prelude.{
  find_key, find_key-put_key, ℕ, ◌+◌, ◌≡◌, refl, sym, ap, ◌∙◌, subst, String, Bool, true, false,
  inl, inr, Option, some, List, [], ◌∷◌, ◌++◌, any, Bool-cases, str_eq, eq_iff, get_or, ◌>>=◌,
  if◌then◌else◌, arith,
}
use pay_shield.Client.{CallResult, taken, refused, raises}
use pay_shield.Prelude.Float.{Float}
use pay_shield.ReturnRisk.Rules.{Raw}
use pay_shield.ReturnRisk.Scorer.{Scorer, Assessment, score}
use pay_shield.ReturnRisk.Store.{UserKeys, Redis, Calls, add_member, no_keys}
use pay_shield.ReturnRisk.Extract.{Priors}
use pay_shield.ReturnRisk.Context.{OrderContext, Outside, is_blank, record_address_user}
use pay_shield.ReturnRisk.Profile.{
  Update, bump_orders, bump_cod_orders, set_last_activity, effect, run_calls, try_update,
}
use pay_shield.ReturnRisk.Counts.{orders}
use pay_shield.ReturnRisk.Available.{score_total, IsReadable-is_readable, extract_features_total}
use pay_shield.ReturnRisk.Route.{
  ReturnWorld, ReturnScoreRequest, address_key, order_of, keys_of, extract_features,
  score_return_risk, explain_return_risk, Task, queued, answered, scored_event, feed_message,
  refresh, update_of, run_task,
}

any-add_member : (u : String) (us : List String) → any (str_eq u) (add_member u us) ≡ true
any-add_member u us = elim (Bool-cases (any (str_eq u) us)) [
  | inl e ↦ rw (e, e) refl
  | inr e ↦ rw e (last us)
]
  where
    last : (us : List String) → any (str_eq u) (us ++ u ∷ []) ≡ true
    last [] = rw ((eq_iff u u).1 refl) refl
    last (x ∷ us) = ground (arith, last us)

module _ {F : Type 0} ⦃f : Float F⦄ where
  -- what is left of an update that is no return keeps the count of orders
  kept_orders :
      (rs : List CallResult) (cod : Bool) (u : Update F) (k : UserKeys F)
      → orders
          (run_calls rs
            ((if cod then bump_cod_orders ∷ [] else []) ++ [] ++ set_last_activity u ∷ [])
            k).0
        ≡ orders k
  unfolding run_calls
  kept_orders [] false u k = refl
  kept_orders [] true u k = refl
  kept_orders (taken ∷ rs) false u k = refl
  kept_orders (refused ∷ rs) false u k = refl
  kept_orders (raises ∷ rs) false u k = refl
  kept_orders (taken ∷ rs) true u k = kept_orders rs false u (effect bump_cod_orders k)
  kept_orders (refused ∷ rs) true u k = kept_orders rs false u k
  kept_orders (raises ∷ rs) true u k = refl

  orders-run_task :
      (q : ReturnScoreRequest F) (rs : List CallResult) (now : ℕ) (utcnow : String)
      (w : ReturnWorld F)
      → orders (keys_of (run_task (taken ∷ rs) (refresh q) now utcnow w).redis q.user_id)
        ≡ orders (keys_of w.redis q.user_id) + 1
  unfolding run_task try_update run_calls
  orders-run_task q rs now utcnow w =
      let u = update_of (refresh q) now utcnow in
      let keys = (try_update (taken ∷ rs) u (keys_of w.redis q.user_id)).0 in
      ap (λ o. orders (get_or o no_keys)) (find_key-put_key q.user_id keys w.redis.users)
      ∙ kept_orders rs q.cod_flag u (effect bump_orders (keys_of w.redis q.user_id))

  -- what an assessed order leaves, and what its task does
  abbrev pub IsServed :
      ReturnWorld F → ReturnScoreRequest F → Bool → ReturnWorld F × Option (Assessment F) → Type 0
  IsServed w q rpush (w2, answer) =
      (a : Assessment F) × (answer ≡ some a)
      × (w2.events ≡ queued w.max_queue w.events (scored_event q a))
      × (w2.feed ≡ (if rpush then w.feed ++ feed_message q a ∷ [] else w.feed))
      × (w2.redis.users ≡ w.redis.users)
      × ((task : Task F) × (w2.tasks ≡ w.tasks ++ task ∷ [])
          × ((rs : List CallResult) (now : ℕ) (utcnow : String) (w3 : ReturnWorld F)
              → orders (keys_of (run_task (taken ∷ rs) task now utcnow w3).redis q.user_id)
                ≡ orders (keys_of w3.redis q.user_id) + 1))

  served :
      (w : ReturnWorld F) (q : ReturnScoreRequest F) (rpush : Bool) (r : Redis F) (a : Assessment F)
      → r.users ≡ w.redis.users
      → IsServed w q rpush (answered (record w { redis = r }) q rpush (some a))
  served w q rpush r a e = (
    a,
    refl,
    refl,
    refl,
    e,
    (refresh q, refl, λ rs now utcnow w3. orders-run_task q rs now utcnow w3),
  )

  recorded :
      (py : Outside F) (calls : Calls) (sets : List (String × List String)) (address user : String)
      → is_blank address ≡ false
      → is_blank (py.words address) ≡ false
      → is_blank user ≡ false
      → calls.sadd ≡ true
      → let key = py.sha256 (py.words address) in
        any
          (str_eq user)
          (get_or (find_key key (record_address_user py calls sets address user).0) [])
        ≡ true
  unfolding record_address_user
  recorded py calls sets address user a b u c =
      let key = py.sha256 (py.words address) in
      let known = get_or (find_key key sets) [] in
      rw (a, b, u, c, find_key-put_key key (add_member user known) sets) (any-add_member user known)

module _ {F : Type 0} ⦃f : Float F⦄ (py : Outside F) (p : Priors F) (calls : Calls) where
  users_kept :
      (r : Redis F) (o : OrderContext F) (now : ℕ)
      → (extract_features py p calls r o now).0.users ≡ r.users
  unfolding extract_features
  users_kept r o now = refl

  module _ (eval : String → List (String × Raw F) → Option Bool) (s : Scorer F) where
    -- Whichever calls of Redis are taken, refused or raise, the score route answers with an assessment.
    -- One event with its score and tier is put into the audit queue, which drops it where it is full,
    -- and a message of the same into the feed where Redis takes it. No profile changes, and one task
    -- is added, which raises the user's count of orders by one, whenever it runs, if Redis takes its
    -- first call.
    pub score_return_risk_lem :
        (w : ReturnWorld F) (q : ReturnScoreRequest F) (now : ℕ) (rpush : Bool)
        → IsServed w q rpush (score_return_risk py p calls eval s w q now rpush)
    unfolding score_return_risk
    score_return_risk_lem w q now rpush =
        let (fs, e, h) = extract_features_total py p calls w.redis (order_of q) now in
        let (a, g) = score_total eval s fs h.2 (IsReadable-is_readable s.model fs h.3) in
        let r = (extract_features py p calls w.redis (order_of q) now).0 in
        subst
          (λ o. IsServed w q rpush (answered (record w { redis = r }) q rpush (o >>= score eval s)))
          (sym e)
          (subst (λ o. IsServed w q rpush (answered (record w { redis = r }) q rpush o)) (sym g)
            (served w q rpush r a (users_kept w.redis (order_of q) now)))

  -- An explained order records its user at the address that it ships to, where the address, its
  -- words and the user are not blank and Redis takes the call.
  pub explain_records :
      (eval : String → List (String × Raw F) → Option Bool) (s : Scorer F) (w : ReturnWorld F)
      (q : ReturnScoreRequest F) (now : ℕ)
      → is_blank (address_key q.shipping_address) ≡ false
      → is_blank (py.words (address_key q.shipping_address)) ≡ false
      → is_blank q.user_id ≡ false
      → calls.sadd ≡ true
      → let key = py.sha256 (py.words (address_key q.shipping_address)) in
        let addresses = (explain_return_risk py p calls eval s w q now).0.redis.addresses in
        any (str_eq q.user_id) (get_or (find_key key addresses) []) ≡ true
  unfolding explain_return_risk
  explain_records eval s w q now a b u c =
      recorded py calls w.redis.addresses (address_key q.shipping_address) q.user_id a b u c
