-- ===== src/ReturnRisk/Serial.antt =====
-- return_risk/feature_engine.py: the counts of whole updates, and the flag of a serial returner.
use pay_shield.Prelude.{
  ℕ, ◌+◌, ◌*◌, ◌≤◌, ◌≡◌, refl, ap, ◌∙◌, String, Bool, true, false, not, inl, inr, Option, none,
  some, List, [], ◌∷◌, ◌++◌, arith, get_or, str_eq, length, filter, Bool-cases, ltb, if◌then◌else◌,
}
use pay_shield.Client.{CallResult, taken, refused, raises}
use pay_shield.Prelude.Float.{Float, IsOrdered, ◌≼◌, lit}
use pay_shield.Prelude.Float.Order.{le→not_lt}
use pay_shield.ReturnRisk.Rules.{flag, Features, get_feature}
use pay_shield.ReturnRisk.Store.{UserHash, UserKeys, Calls, no_keys}
use pay_shield.ReturnRisk.Extract.{
  rate, serial_returner, user_features, extract_user, safe_redis, read_hash,
  count_returns_in_window,
}
use pay_shield.ReturnRisk.Counts.{orders, returns}
use pay_shield.ReturnRisk.Profile.{
  Update, ProfileCall, bump_orders, bump_cod_orders, bump_returns, add_return, average,
  set_last_activity, effect, reason_calls, return_calls, run_whole, update_user_profile,
}

abbrev one_if : Bool → ℕ
one_if b = if b then 1 else 0

length-filter-not :
    {A : Type 0} (p : A → Bool) (xs : List A)
    → length xs ≡ length (filter p xs) + length (filter (λ x. not (p x)) xs)
length-filter-not p [] = refl
length-filter-not p (x ∷ xs) = elim (Bool-cases (p x)) [
  | inl e ↦ rw e (omega (arith, length-filter-not p xs))
  | inr e ↦ rw e (omega (arith, length-filter-not p xs))
]

pub length-filter_one :
    {A : Type 0} (p : A → Bool) (x : A) (xs : List A)
    → length (filter p (x ∷ xs)) ≡ one_if (p x) + length (filter p xs)
length-filter_one p x xs = elim (Bool-cases (p x)) [
  | inl e ↦ rw e (omega arith)
  | inr e ↦ rw e (omega arith)
]

module _ {F : Type 0} where
  run_whole-append :
      ⦃f : Float F⦄ (cs ds : List (ProfileCall F)) (k : UserKeys F)
      → run_whole (cs ++ ds) k ≡ run_whole ds (run_whole cs k)
  unfolding run_whole
  run_whole-append [] ds k = refl
  run_whole-append (c ∷ cs) ds k = run_whole-append cs ds (effect c k)

  -- the counts of orders and of returns
  abbrev counts : UserKeys F → ℕ × ℕ
  counts k = (orders k, returns k)

  module _ ⦃f : Float F⦄ where
    counts-cod :
        (b : Bool) (k : UserKeys F)
        → counts (run_whole (if b then bump_cod_orders ∷ [] else []) k) ≡ counts k
    unfolding run_whole
    counts-cod true k = refl
    counts-cod false k = refl

    counts-reason :
        (r : Option String) (k : UserKeys F) → counts (run_whole (reason_calls r) k) ≡ counts k
    unfolding run_whole
    counts-reason none k = refl
    counts-reason (some r) k = elim (Bool-cases (str_eq r "")) [
      | inl e ↦ rw e refl
      | inr e ↦ rw e refl
    ]

    counts-return_calls :
        (u : Update F) (b : Bool) (k : UserKeys F)
        → counts (run_whole (if b then return_calls u else []) k) ≡ (orders k, returns k + one_if b)
    unfolding run_whole
    counts-return_calls u false k = ap (λ n. (orders k, n)) (omega arith)
    counts-return_calls u true k =
        let k2 = effect (add_return u) (effect bump_returns k) in
        ap counts (run_whole-append (reason_calls u.return_reason) (average u ∷ []) k2)
        ∙ counts-reason u.return_reason k2

    counts-update :
        (u : Update F) (k : UserKeys F)
        → counts (update_user_profile u k) ≡ (orders k + 1, returns k + one_if u.returned)
    unfolding update_user_profile
    counts-update u k =
        let k1 = effect bump_orders k in
        let cod = if u.cod_flag then bump_cod_orders ∷ [] else [] in
        let back = if u.returned then return_calls u else [] in
        let k2 = run_whole cod k1 in
        ap counts (run_whole-append (cod ++ back) (set_last_activity u ∷ []) k1)
        ∙ ap counts (run_whole-append cod back k1)
        ∙ counts-return_calls u u.returned k2
        ∙ ap (λ c. (c.0, c.1 + one_if u.returned)) (counts-cod u.cod_flag k1)

    -- the updates of a user, each whole
    abbrev pub whole_updates : List (Update F) → UserKeys F → UserKeys F
    whole_updates [] k = k
    whole_updates (u ∷ us) k = whole_updates us (update_user_profile u k)

    counts-whole_updates :
        (us : List (Update F)) (k : UserKeys F)
        → (orders (whole_updates us k) ≡ orders k + length us)
          × (returns (whole_updates us k) ≡ returns k + length (filter (λ u. u.returned) us))
    counts-whole_updates [] k = (omega arith, omega arith)
    counts-whole_updates (u ∷ us) k =
        let k2 = update_user_profile u k in
        let o : orders k2 ≡ orders k + 1 = ap (λ c. c.0) (counts-update u k) in
        let r : returns k2 ≡ returns k + one_if u.returned = ap (λ c. c.1) (counts-update u k) in
        let (p, q) = counts-whole_updates us k2 in
        (omega arith, omega (arith, length-filter_one (λ u. u.returned) u us))

module _ (F : Type 0) ⦃f : Float F⦄ (o : IsOrdered F) where
  -- a rate that is at most a half
  half_rate : (r n : ℕ) → r * 2 ≤ n → let x : F = rate r n in x ≼ lit 5_000
  half_rate r n h = elim (Bool-cases (ltb 0 n)) [
    | inl e ↦ rw e (
        o.le_trans _ _ _
          (o.div_mono (lit (r * 10_000)) (lit (n * 5_000)) (n * 10_000) (ground arith)
            (o.lit_mono (r * 10_000) (n * 5_000) (omega arith)))
          (o.div_half n (ground arith)))
    | inr e ↦ rw e (o.lit_mono 0 5_000 (omega arith))
  ]

  abbrev HasFlag : Features F → Type 0
  HasFlag fs =
      (s : String) × (get_feature "user_serial_returner_flag" fs
        ≡ some (record { value = flag false; source = s }))

  not_serial : (r n : ℕ) → r * 2 ≤ n → let x : F = rate r n in serial_returner x n ≡ false
  not_serial r n h = rw (le→not_lt F o (lit 5_000) (rate r n) (half_rate r n h)) refl

  flag_of :
      (loads : String → Option String) (prior : F) (answers : CallResult) (h : Option (UserHash F))
      (n : ℕ)
      → let k : UserKeys F = record { hash = h; returns = []; reasons = [] } in
        returns k * 2 ≤ orders k → HasFlag (user_features loads prior (read_hash answers h) n)
  flag_of loads prior raises h n e = (_, refl)
  flag_of loads prior refused h n e = (_, refl)
  flag_of loads prior taken none n e = (_, refl)
  flag_of loads prior taken (some h) n e = (
    _,
    ap (λ b. some (record { value = flag b; source = "computed" }))
        (not_serial (get_or h.total_returns 0) (get_or h.total_orders 0) e),
  )

  -- A user of whom as many orders or more are recorded as not returned than as returned, each order
  -- scored and then reported back among them, is not flagged as a serial returner, whichever calls
  -- of Redis fail when the flag is read, if every update was whole.
  pub extract_user-whole_updates :
      (loads : String → Option String) (prior : F) (calls : Calls) (us : List (Update F)) (now : ℕ)
      → length (filter (λ u. u.returned) us) ≤ length (filter (λ u. not u.returned) us)
      → (s : String) × (get_feature "user_serial_returner_flag"
            (extract_user loads prior calls (whole_updates us no_keys) now)
          ≡ some (record { value = flag false; source = s }))
  extract_user-whole_updates loads prior calls us now h =
      let (p, q) = counts-whole_updates us no_keys in
      flag_of loads prior calls.hgetall_user (whole_updates us no_keys).hash
        (count_returns_in_window (safe_redis calls.zrangebyscore (whole_updates us no_keys).returns)
          7 now)
        (omega (arith, length-filter-not (λ u. u.returned) us))
