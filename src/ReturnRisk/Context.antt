-- ===== src/ReturnRisk/Context.antt =====
-- return_risk/feature_engine.py: the features of the order itself, and who ships to its address.
-- Parameters stand for numpy's `log1p`, for `str.upper`, for the days from a stored time, none where
-- it is not one, for the words of an address in small letters, joined by a space, and for the digest
-- of them.
use pay_shield.Prelude.{
  find_key, put_key, ℕ, String, Bool, ◌||◌, Option, none, some, List, [], ◌∷◌, leb, ltb, ◌==◌,
  length, get_or, str_eq, ◌>>=◌, if◌then◌else◌,
}
use pay_shield.Prelude.Float.{Float, lit, of_ℕ, div, flt, fmin, fmax}
use pay_shield.ReturnRisk.Rules.{Raw, number, flag, text, Feature, Features, get_feature}
use pay_shield.ReturnRisk.Values.{to_float}
use pay_shield.ReturnRisk.Store.{Calls, add_member}
use pay_shield.ReturnRisk.Extract.{feature, population_aov, Priors, category_prior}

-- the time of an order
pub record Stamp : Type 0 where
  pub isoformat : String
  pub seconds : ℕ
  pub hour : ℕ
  pub day : ℕ

-- the arguments of `extract_features`
pub record OrderContext (F : Type 0) : Type 0 where
  pub user_id : String
  pub merchant_id : String
  pub category : String
  pub amount : F
  pub cod_flag : Bool
  pub timestamp : Stamp
  pub payment_method : String
  pub device_fingerprint : String
  pub shipping_address : String

-- what the code calls of Python and numpy
pub record Outside (F : Type 0) : Type 0 where
  pub loads : String → Option String
  pub log1p : F → F
  pub upper : String → String
  pub days_between : Stamp → String → Option F
  pub words : String → String
  pub sha256 : String → String

-- `_is_salary_day`
abbrev is_salary_day : Stamp → Bool
is_salary_day t = t.day == 1 || t.day == 15

abbrev pub is_blank : String → Bool
is_blank s = str_eq s ""

-- the members of the set of an address, none where the call raises
abbrev pub members : Calls → List (String × List String) → String → List String
members calls addresses key = if calls.smembers then get_or (find_key key addresses) [] else []

abbrev placeholder : String → String
placeholder fingerprint = if is_blank fingerprint then "placeholder" else "no_device_store"

module _ {F : Type 0} ⦃f : Float F⦄ where
  -- `_record_address_user`: the sets afterwards, and the number of users at the address
  unfoldable pub record_address_user :
      Outside F
      → Calls
      → List (String × List String)
      → String
      → String
      → List (String × List String) × ℕ
  record_address_user py calls addresses address user =
      let key = py.sha256 (py.words address) in
      let known = get_or (find_key key addresses) [] in
      let added = if calls.sadd then put_key key (add_member user known) addresses else addresses in
      if is_blank address || is_blank user || is_blank (py.words address)
      then (addresses, 0)
      else (added, length (members calls added key))

  -- `PAYMENT_METHOD_RISK`
  abbrev pub method_risks : List (String × F)
  method_risks =
      ("UPI", lit 2_000)
      ∷ ("CARD", lit 3_000)
      ∷ ("WALLET", lit 4_000)
      ∷ ("NETBANKING", lit 3_500)
      ∷ ("COD", lit 10_000)
      ∷ []

  -- where a method that is not listed counts as UPI
  abbrev pub method_risk : String → F
  method_risk m = get_or (find_key m method_risks) (lit 2_000)

  abbrev pub payment_method_risk : Outside F → OrderContext F → F
  payment_method_risk py o =
      let method = if is_blank o.payment_method then "UPI" else o.payment_method in
      method_risk (if o.cod_flag then "COD" else py.upper method)

  -- `float(x) or POPULATION_AOV`
  abbrev or_population : F → F
  or_population x = if flt x (lit 0) || flt (lit 0) x then x else population_aov

  -- the ratio within the envelope of the model's training
  abbrev pub amount_vs_aov : F → F → F
  amount_vs_aov amount aov = fmin (lit 40_000) (fmax (lit 1_500) (div amount (or_population aov)))

  abbrev pub amount_risk : Outside F → F → F
  amount_risk py amount = fmin (lit 10_000) (div (py.log1p amount) (py.log1p (of_ℕ 50_000)))

  abbrev pub time_risk : Stamp → F
  time_risk t = if leb 23 t.hour || leb t.hour 5 then lit 3_000 else lit 0

  abbrev since : Option F → F
  since none = of_ℕ 60
  since (some d) = fmax (lit 0) d

  abbrev pub days_since : Outside F → Stamp → Option (Raw F) → F
  days_since py t (some (text s)) = if is_blank s then of_ℕ 60 else since (py.days_between t s)
  days_since py t _ = of_ℕ 60

  abbrev value_of : Option (Feature F) → Option (Raw F)
  value_of none = none
  value_of (some x) = some x.value

  -- `float(d.get(name, {}).get("value", default))`
  abbrev pub feature_float : String → Features F → F → Option F
  feature_float name fs default =
      to_float (get_or (value_of (get_feature name fs)) (number default))

  abbrev source_of : Option (Feature F) → String
  source_of none = "lookup_table"
  source_of (some x) = x.source

  -- the dict, of the baseline, the user's average order value and the number of users at the address
  abbrev pub transaction_features :
      Outside F → OrderContext F → Features F → Features F → ℕ → F → F → Features F
  transaction_features py o merchant user shared baseline aov =
      let last = value_of (get_feature "user_last_activity" user) in
      let origin = source_of (get_feature "merchant_category_return_rate" merchant) in
      let ratio = f.round4 (amount_vs_aov o.amount aov) in
      feature "txn_category_return_baseline" (number (f.round4 baseline)) origin
      ∷ feature "txn_amount_risk" (number (f.round4 (amount_risk py o.amount))) "computed"
      ∷ feature "txn_cod_flag" (flag o.cod_flag) "input"
      ∷ feature "txn_time_of_day_risk" (number (time_risk o.timestamp)) "computed"
      ∷ feature "txn_is_salary_day" (flag (is_salary_day o.timestamp)) "computed"
      ∷ feature "txn_user_merchant_interaction_count" (number (lit 0)) "placeholder"
      ∷ feature "txn_amount_vs_user_aov_ratio" (number ratio) "computed"
      ∷ feature "txn_payment_method_risk" (number (f.round4 (payment_method_risk py o))) "computed"
      ∷ feature "txn_device_fingerprint_match" (number (lit 5_000))
          (placeholder o.device_fingerprint)
      ∷ feature "txn_days_since_last_order" (number (f.round2 (days_since py o.timestamp last)))
          "computed"
      ∷ feature "txn_shared_address_count" (number (of_ℕ shared))
          (if ltb 0 shared then "computed" else "default")
      ∷ []

  -- `_compute_transaction_features`
  unfoldable pub compute_transaction_features :
      Outside F → Priors F → OrderContext F → Features F → Features F → ℕ → Option (Features F)
  compute_transaction_features py p o merchant user shared = do
    baseline ← feature_float "merchant_category_return_rate" merchant (category_prior p o.category)
    aov ← feature_float "user_avg_order_value" user population_aov
    some (transaction_features py o merchant user shared baseline aov)
