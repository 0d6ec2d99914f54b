-- ===== src/ReturnRisk/Ranges.antt =====
-- return_risk/feature_engine.py: the ranges of what the model is given of an order.
use mathlib.Core.Option.{some-injective}
use pay_shield.Prelude.{
  find_key, ℕ, ◌≤◌, ◌≡◌, refl, subst, String, inl, inr, some, List, [], ◌∷◌, ◌||◌, All, bind_some,
  Bool-cases, str_eq, get_or, leb, ◌>>=◌, if◌then◌else◌, arith,
}
use pay_shield.Prelude.Float.{Float, IsOrdered, ◌≼◌, lit}
use pay_shield.Prelude.Float.Order.{le-fmin, fmin-le_left, le-fmax_left}
use pay_shield.ReturnRisk.Rules.{number, Features, get_feature}
use pay_shield.ReturnRisk.Extract.{Priors, category_prior, population_aov}
use pay_shield.ReturnRisk.Context.{
  Stamp, OrderContext, Outside, method_risks, method_risk, amount_vs_aov, time_risk,
  transaction_features, feature_float, is_blank, compute_transaction_features,
}

find_key-All :
    {A : Type 0} (P : A → Type 0) (k : String) (d : A) (xs : List (String × A))
    → All (λ x. P x.1) xs
    → P d
    → P (get_or (find_key k xs) d)
find_key-All P k d [] h e = e
find_key-All P k d ((j, x) ∷ xs) (p, h) e = elim (Bool-cases (str_eq j k)) [
  | inl c ↦ rw c p
  | inr c ↦ rw c (find_key-All P k d xs h e)
]

module _ (F : Type 0) ⦃f : Float F⦄ (o : IsOrdered F) where
  abbrev IsWithin : ℕ → ℕ → F → Type 0
  IsWithin a b x = (lit a ≼ x) × (x ≼ lit b)

  -- a number in this range under the name
  abbrev pub HasWithin : String → ℕ → ℕ → Features F → Type 0
  HasWithin name a b fs =
      (x : F) × (s : String) × (get_feature name fs
        ≡ some (record { value = number x; source = s }))
      × (lit a ≼ x)
      × (x ≼ lit b)

  round4-IsWithin : (a b : ℕ) (x : F) → IsWithin a b x → IsWithin a b (f.round4 x)
  round4-IsWithin a b x (h, k) = (
    o.le_trans _ _ _ (o.round4_lit a).1 (o.round4_mono _ _ h),
    o.le_trans _ _ _ (o.round4_mono _ _ k) (o.round4_lit b).0,
  )

  amount_vs_aov-IsWithin : (amount aov : F) → IsWithin 1_500 40_000 (amount_vs_aov amount aov)
  amount_vs_aov-IsWithin amount aov = (
    le-fmin F o (lit 40_000) _ (lit 1_500) (o.lit_mono 1_500 40_000 (omega arith))
        (le-fmax_left F o (lit 1_500) _),
    fmin-le_left F o (lit 40_000) _,
  )

  within : (a n b : ℕ) → a ≤ n → n ≤ b → IsWithin a b (lit n)
  within a n b h k = (o.lit_mono a n h, o.lit_mono n b k)

  method_risk-IsWithin : (m : String) → IsWithin 2_000 10_000 (method_risk m)
  method_risk-IsWithin m =
      find_key-All (IsWithin 2_000 10_000) m (lit 2_000) method_risks
        (
          within 2_000 2_000 10_000 (omega arith) (omega arith),
          (
            within 2_000 3_000 10_000 (omega arith) (omega arith),
            (
              within 2_000 4_000 10_000 (omega arith) (omega arith),
              (
                within 2_000 3_500 10_000 (omega arith) (omega arith),
                (within 2_000 10_000 10_000 (omega arith) (omega arith), tt),
              ),
            ),
          ),
        )
        (within 2_000 2_000 10_000 (omega arith) (omega arith))

  time_risk-IsWithin : (t : Stamp) → IsWithin 0 3_000 (time_risk t)
  time_risk-IsWithin t = elim (Bool-cases (leb 23 t.hour || leb t.hour 5)) [
    | inl e ↦ rw e (within 0 3_000 3_000 (omega arith) (omega arith))
    | inr e ↦ rw e (within 0 0 3_000 (omega arith) (omega arith))
  ]

  abbrev pub IsInRange : Features F → Type 0
  IsInRange fs =
      HasWithin "txn_amount_vs_user_aov_ratio" 1_500 40_000 fs
      × HasWithin "txn_payment_method_risk" 2_000 10_000 fs
      × HasWithin "txn_time_of_day_risk" 0 3_000 fs

  transaction_features-IsInRange :
      (py : Outside F) (q : OrderContext F) (merchant user : Features F) (shared : ℕ)
      (baseline aov : F)
      → IsInRange (transaction_features py q merchant user shared baseline aov)
  transaction_features-IsInRange py q merchant user shared baseline aov =
      let ratio = round4-IsWithin 1_500 40_000 _ (amount_vs_aov-IsWithin q.amount aov) in
      let method = if is_blank q.payment_method then "UPI" else q.payment_method in
      let risk =
        round4-IsWithin 2_000 10_000 _
          (method_risk-IsWithin (if q.cod_flag then "COD" else py.upper method)) in
      let hour = time_risk-IsWithin q.timestamp in
      ((_, _, refl, ratio.0, ratio.1), (_, _, refl, risk.0, risk.1), (_, _, refl, hour.0, hour.1))

  -- Whatever the order, its user and its merchant are, the ratio of its amount to the user's average
  -- lies in [0.15, 4], the risk of its payment method in [0.2, 1], and that of its hour in [0, 0.3].
  pub compute_transaction_features-bounds :
      (py : Outside F) (p : Priors F) (q : OrderContext F) (merchant user : Features F) (shared : ℕ)
      (fs : Features F)
      → compute_transaction_features py p q merchant user shared ≡ some fs
      → HasWithin "txn_amount_vs_user_aov_ratio" 1_500 40_000 fs
        × HasWithin "txn_payment_method_risk" 2_000 10_000 fs
        × HasWithin "txn_time_of_day_risk" 0 3_000 fs
  unfolding compute_transaction_features
  compute_transaction_features-bounds py p q merchant user shared fs h =
      let rest : F → F → Features F =
        λ baseline aov. transaction_features py q merchant user shared baseline aov in
      let base =
        feature_float "merchant_category_return_rate" merchant (category_prior p q.category) in
      let usual = feature_float "user_avg_order_value" user population_aov in
      let (baseline, (_, g)) =
        bind_some base (λ baseline. usual >>= (λ aov. some (rest baseline aov))) fs h in
      let (aov, (_, e)) = bind_some usual (λ aov. some (rest baseline aov)) fs g in
      subst IsInRange (some-injective (rest baseline aov) fs e)
        (transaction_features-IsInRange py q merchant user shared baseline aov)
