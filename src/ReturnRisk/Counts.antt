-- ===== src/ReturnRisk/Counts.antt =====
-- return_risk/feature_engine.py: the counts of a profile, whatever becomes of the calls of its updates.
use pay_shield.Client.{CallResult, taken, refused, raises}
use pay_shield.Prelude.{
  length-put_key, ℕ, ◌+◌, ◌≤◌, ◌≡◌, inl, inr, List, [], ◌∷◌, ◌++◌, arith, get_or, length,
  Bool-cases,
}
use pay_shield.Prelude.Float.{Float}
use pay_shield.ReturnRisk.Store.{UserHash, UserKeys, no_hash}
use pay_shield.ReturnRisk.Profile.{
  ProfileCall, bump_orders, bump_cod_orders, bump_returns, add_return, bump_reason, average,
  set_last_activity, Update, hash_of, set_avg, effect, write_call, attempt_call, run_calls,
}

module _ {F : Type 0} where
  abbrev pub orders : UserKeys F → ℕ
  orders k = get_or (hash_of k).total_orders 0

  abbrev pub returns : UserKeys F → ℕ
  returns k = get_or (hash_of k).total_returns 0

  abbrev pub cod_orders : UserKeys F → ℕ
  cod_orders k = get_or (hash_of k).cod_orders 0

  abbrev pub return_times : UserKeys F → ℕ
  return_times k = length k.returns

  -- what a call adds to each at most
  abbrev pub adds_order : ProfileCall F → ℕ
  adds_order bump_orders = 1
  adds_order _ = 0

  abbrev pub adds_cod : ProfileCall F → ℕ
  adds_cod bump_cod_orders = 1
  adds_cod _ = 0

  abbrev pub adds_return : ProfileCall F → ℕ
  adds_return bump_returns = 1
  adds_return _ = 0

  abbrev pub adds_time : ProfileCall F → ℕ
  adds_time (add_return u) = 1
  adds_time _ = 0

  abbrev pub total : (ProfileCall F → ℕ) → List (ProfileCall F) → ℕ
  total w [] = 0
  total w (c ∷ cs) = w c + total w cs

  pub total-append :
      (w : ProfileCall F → ℕ) (cs ds : List (ProfileCall F))
      → total w (cs ++ ds) ≡ total w cs + total w ds
  total-append w [] ds = omega arith
  total-append w (c ∷ cs) ds = omega (arith, total-append w cs ds)

  module _ ⦃f : Float F⦄ where
    -- a measure of the keys that every call raises by its weight at most
    abbrev pub IsBounded : (UserKeys F → ℕ) → (ProfileCall F → ℕ) → Type 0
    IsBounded m w =
        ((c : ProfileCall F) (k : UserKeys F) → m (effect c k) ≤ m k + w c)
        × ((h : UserHash F) (u : Update F) (k : UserKeys F) → m (set_avg h u k) ≤ m k)

    pub orders-IsBounded : IsBounded orders adds_order
    orders-IsBounded = (at, λ h u k. omega arith)
      where
        at : (c : ProfileCall F) (k : UserKeys F) → orders (effect c k) ≤ orders k + adds_order c
        at bump_orders k = omega arith
        at bump_cod_orders k = omega arith
        at bump_returns k = omega arith
        at (add_return u) k = omega arith
        at (bump_reason r) k = omega arith
        at (average u) k = omega arith
        at (set_last_activity u) k = omega arith

    pub cod_orders-IsBounded : IsBounded cod_orders adds_cod
    cod_orders-IsBounded = (at, λ h u k. omega arith)
      where
        at :
            (c : ProfileCall F) (k : UserKeys F)
            → cod_orders (effect c k) ≤ cod_orders k + adds_cod c
        at bump_orders k = omega arith
        at bump_cod_orders k = omega arith
        at bump_returns k = omega arith
        at (add_return u) k = omega arith
        at (bump_reason r) k = omega arith
        at (average u) k = omega arith
        at (set_last_activity u) k = omega arith

    pub returns-IsBounded : IsBounded returns adds_return
    returns-IsBounded = (at, λ h u k. omega arith)
      where
        at : (c : ProfileCall F) (k : UserKeys F) → returns (effect c k) ≤ returns k + adds_return c
        at bump_orders k = omega arith
        at bump_cod_orders k = omega arith
        at bump_returns k = omega arith
        at (add_return u) k = omega arith
        at (bump_reason r) k = omega arith
        at (average u) k = omega arith
        at (set_last_activity u) k = omega arith

    pub return_times-IsBounded : IsBounded return_times adds_time
    return_times-IsBounded = (at, λ h u k. omega arith)
      where
        at :
            (c : ProfileCall F) (k : UserKeys F)
            → return_times (effect c k) ≤ return_times k + adds_time c
        at bump_orders k = omega arith
        at bump_cod_orders k = omega arith
        at bump_returns k = omega arith
        at (add_return u) k = length-put_key u.order_id u.now k.returns
        at (bump_reason r) k = omega arith
        at (average u) k = omega arith
        at (set_last_activity u) k = omega arith

    module _ (m : UserKeys F → ℕ) (w : ProfileCall F → ℕ) (b : IsBounded m w) where
      write_call-le :
          (rs : List CallResult) (k written : UserKeys F) (n : ℕ)
          → m written ≤ m k + n
          → m (write_call rs k written).1.0 ≤ m k + n
      write_call-le [] k written n h = omega arith
      write_call-le (taken ∷ rs) k written n h = h
      write_call-le (refused ∷ rs) k written n h = omega arith
      write_call-le (raises ∷ rs) k written n h = omega arith

      average-le :
          (u : Update F) (rs : List CallResult) (k : UserKeys F)
          → m (attempt_call (average u) rs k).1.0 ≤ m k + w (average u)
      average-le u [] k = omega arith
      average-le u (taken ∷ rs) k = write_call-le rs k _ _ (b.0 (average u) k)
      average-le u (refused ∷ rs) k =
          write_call-le rs k (set_avg no_hash u k) (w (average u)) (omega (arith, b.1 no_hash u k))
      average-le u (raises ∷ rs) k = omega arith

      attempt_call-le :
          (c : ProfileCall F) (rs : List CallResult) (k : UserKeys F)
          → m (attempt_call c rs k).1.0 ≤ m k + w c
      attempt_call-le (average u) rs k = average-le u rs k
      attempt_call-le bump_orders rs k = write_call-le rs k _ _ (b.0 bump_orders k)
      attempt_call-le bump_cod_orders rs k = write_call-le rs k _ _ (b.0 bump_cod_orders k)
      attempt_call-le bump_returns rs k = write_call-le rs k _ _ (b.0 bump_returns k)
      attempt_call-le (add_return u) rs k = write_call-le rs k _ _ (b.0 (add_return u) k)
      attempt_call-le (bump_reason r) rs k = write_call-le rs k _ _ (b.0 (bump_reason r) k)
      attempt_call-le (set_last_activity u) rs k =
          write_call-le rs k _ _ (b.0 (set_last_activity u) k)

      pub run_calls-le :
          (rs : List CallResult) (cs : List (ProfileCall F)) (k : UserKeys F)
          → m (run_calls rs cs k).0 ≤ m k + total w cs
      unfolding run_calls
      run_calls-le rs [] k = omega arith
      run_calls-le rs (c ∷ cs) k =
          let first = attempt_call-le c rs k in
          let out = attempt_call c rs k in
          elim (Bool-cases out.1.1) [
            | inl e ↦ rw e (omega (arith, first, run_calls-le out.0 cs out.1.0))
            | inr e ↦ rw e (omega (arith, first))
          ]
