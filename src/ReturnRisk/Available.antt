-- ===== src/ReturnRisk/Available.antt =====
-- return_risk: an order is scored whichever calls of Redis fail.
use pay_shield.Prelude.{
  ℕ, ◌≡◌, refl, sym, ap, subst, String, Bool, true, inl, inr, Option, none, some, List, [], ◌∷◌,
  ◌++◌, Bool-cases, str_eq, eq_iff, length,
}
use pay_shield.Prelude.Float.{Float, lit, add, mul}
use pay_shield.ReturnRisk.Rules.{Raw, number, Feature, Features, get_feature}
use pay_shield.ReturnRisk.Scorer.{
  Scorer, Breakdown, Assessment, normalize_feature, weighted_sum, compute_score, missing, score,
}
use pay_shield.ReturnRisk.Values.{to_float, raw_value, reads_model, reads_orders, is_readable}
use pay_shield.ReturnRisk.Store.{UserHash, MerchantHash, Redis, Calls}
use pay_shield.ReturnRisk.Extract.{
  Priors, user_features, merchant_features, safe_redis, read_hash, count_returns_in_window,
  merchant_category_rate,
}
use pay_shield.ReturnRisk.Context.{
  OrderContext, Outside, record_address_user, compute_transaction_features, transaction_features,
}
use pay_shield.ReturnRisk.Route.{extract_features, keys_of, merchant_keys, with_context, meta}

module _ {F : Type 0} ⦃f : Float F⦄ where
  -- a number under a name
  abbrev HasNumber : String → Features F → Type 0
  HasNumber name fs =
      (x : F) × (s : String) × (get_feature name fs
        ≡ some (record { value = number x; source = s }))

  normalize_feature_total :
      (name : String) (v : Raw F) (x : F)
      → (str_eq name "user_return_velocity_7d" ≡ true → to_float v ≡ some x)
      → (n : F) × (normalize_feature name v ≡ some n)
  unfolding normalize_feature
  normalize_feature_total name v x h = elim (Bool-cases (str_eq name "user_serial_returner_flag")) [
    | inl e ↦ rw e (_, refl)
    | inr e ↦ rw e (elim (Bool-cases (str_eq name "user_return_velocity_7d")) [
      | inl k ↦ rw (k, h k) (_, refl)
      | inr k ↦ rw k (_, refl)
    ])
  ]

  weighted_sum_total :
      (fs : Features F) (ws : List (String × F)) (acc : F)
      → HasNumber "user_return_velocity_7d" fs
      → (r : F × List (Breakdown F)) × (weighted_sum fs ws acc ≡ some r)
  unfolding weighted_sum
  weighted_sum_total fs [] acc h = ((acc, []), refl)
  weighted_sum_total fs ((name, w) ∷ ws) acc (x, s, h) =
      let v = raw_value (get_feature name fs) in
      let (n, e) = normalize_feature_total name v x (λ k.
        ap (λ o. to_float (raw_value o))
          (subst (λ z. get_feature z fs ≡ some (record { value = number x; source = s }))
            (sym ((eq_iff name "user_return_velocity_7d").0 k)) h)) in
      let (r, g) = weighted_sum_total fs ws (add acc (mul n w)) (x, s, h) in rw (e, g) (_, refl)

  pub score_total :
      (eval : String → List (String × Raw F) → Option Bool) (s : Scorer F) (fs : Features F)
      → HasNumber "user_return_velocity_7d" fs
      → is_readable s.model fs ≡ true
      → (a : Assessment F) × (score eval s fs ≡ some a)
  unfolding score compute_score
  score_total eval s fs h b =
      let (r, e) = weighted_sum_total fs s.weights (lit 0) h in rw (e, b) (_, refl)

  abbrev pub IsReadable : Features F → Type 0
  IsReadable fs = (reads_model fs ≡ true) × (reads_orders fs ≡ true)

  pub IsReadable-is_readable :
      (m : Option (List F → F)) (fs : Features F) → IsReadable fs → is_readable m fs ≡ true
  IsReadable-is_readable none fs (a, b) = b
  IsReadable-is_readable (some p) fs (a, b) = rw (a, b) refl

  module _ (py : Outside F) (p : Priors F) where
    context_total :
        (o : OrderContext F) (u : Option (Option (UserHash F)))
        (m : Option (Option (MerchantHash F))) (n : ℕ) (rate : F) (shared : ℕ)
        → let merchant = merchant_features p o.category rate m in
          let user = user_features py.loads p.default_prior u n in
          (baseline : F) × (aov : F) × (compute_transaction_features py p o merchant user shared
            ≡ some (transaction_features py o merchant user shared baseline aov))
    unfolding compute_transaction_features
    context_total o none none n rate shared = (_, _, refl)
    context_total o none (some none) n rate shared = (_, _, refl)
    context_total o none (some (some h)) n rate shared = (_, _, refl)
    context_total o (some none) none n rate shared = (_, _, refl)
    context_total o (some none) (some none) n rate shared = (_, _, refl)
    context_total o (some none) (some (some h)) n rate shared = (_, _, refl)
    context_total o (some (some k)) none n rate shared = (_, _, refl)
    context_total o (some (some k)) (some none) n rate shared = (_, _, refl)
    context_total o (some (some k)) (some (some h)) n rate shared = (_, _, refl)

    -- every feature is there
    abbrev pub IsComplete : Features F → Type 0
    IsComplete fs =
        (length fs ≡ 30) × (missing fs ≡ 0) × HasNumber "user_return_velocity_7d" fs × IsReadable fs

    complete :
        (o : OrderContext F) (u : Option (Option (UserHash F)))
        (m : Option (Option (MerchantHash F))) (n : ℕ) (rate : F) (shared : ℕ) (baseline aov : F)
        (x : String × Feature F)
        → let merchant = merchant_features p o.category rate m in
          let user = user_features py.loads p.default_prior u n in
          IsComplete (
            user
            ++ merchant
            ++ transaction_features py o merchant user shared baseline aov
            ++ x ∷ [])
    complete o none none n rate shared b a x = (refl, refl, (_, _, refl), (refl, refl))
    complete o none (some none) n rate shared b a x = (refl, refl, (_, _, refl), (refl, refl))
    complete o none (some (some h)) n rate shared b a x = (refl, refl, (_, _, refl), (refl, refl))
    complete o (some none) none n rate shared b a x = (refl, refl, (_, _, refl), (refl, refl))
    complete o (some none) (some none) n rate shared b a x =
        (refl, refl, (_, _, refl), (refl, refl))
    complete o (some none) (some (some h)) n rate shared b a x =
        (refl, refl, (_, _, refl), (refl, refl))
    complete o (some (some k)) none n rate shared b a x = (refl, refl, (_, _, refl), (refl, refl))
    complete o (some (some k)) (some none) n rate shared b a x =
        (refl, refl, (_, _, refl), (refl, refl))
    complete o (some (some k)) (some (some h)) n rate shared b a x =
        (refl, refl, (_, _, refl), (refl, refl))

    -- Whichever calls of Redis fail, the extraction gives all thirty features, and no critical one is
    -- missing.
    pub extract_features_total :
        (calls : Calls) (r : Redis F) (o : OrderContext F) (now : ℕ)
        → (fs : Features F) × ((extract_features py p calls r o now).1 ≡ some fs) × IsComplete fs
    unfolding extract_features
    extract_features_total calls r o now =
        let keys = keys_of r o.user_id in
        let u = read_hash calls.hgetall_user keys.hash in
        let n = count_returns_in_window (safe_redis calls.zrangebyscore keys.returns) 7 now in
        let mkeys = merchant_keys r o.merchant_id in
        let m = read_hash calls.hgetall_merchant mkeys.hash in
        let rate = merchant_category_rate p calls.zscore mkeys o.category in
        let shared = (record_address_user py calls r.addresses o.shipping_address o.user_id).1 in
        let (b, a, e) = context_total o u m n rate shared in
        (
          _,
          ap
              (with_context (user_features py.loads p.default_prior u n)
                (merchant_features p o.category rate m))
              e,
          complete o u m n rate shared b a meta,
        )
