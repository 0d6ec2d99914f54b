-- ===== src/ReturnRisk/Reported.antt =====
-- return_risk/feature_engine.py: a profile counts no more than was reported to it.
use pay_shield.Client.{CallResult, taken, refused}
use pay_shield.Prelude.{
  ℕ, ◌+◌, ◌≤◌, ◌≡◌, refl, String, Bool, true, false, false≢true, inl, inr, Option, none, some, List,
  [], ◌∷◌, ◌++◌, arith, str_eq, length, filter, Bool-cases, if◌then◌else◌,
}
use pay_shield.Prelude.Float.{Float}
use pay_shield.ReturnRisk.Store.{UserKeys}
use pay_shield.ReturnRisk.Serial.{length-filter_one}
use pay_shield.ReturnRisk.Counts.{
  orders, returns, cod_orders, return_times, adds_order, adds_cod, adds_return, adds_time, total,
  total-append, IsBounded, orders-IsBounded, cod_orders-IsBounded, returns-IsBounded,
  return_times-IsBounded, run_calls-le,
}
use pay_shield.ReturnRisk.Profile.{
  Update, ProfileCall, bump_orders, bump_cod_orders, bump_returns, add_return, bump_reason, average,
  set_last_activity, reason_calls, return_calls, profile_calls, run_calls, try_update,
}

module _ {F : Type 0} ⦃f : Float F⦄ where
  -- a weight that counts no reason, no average and no activity
  abbrev IsPlain : (ProfileCall F → ℕ) → Type 0
  IsPlain w =
      ((r : String) → w (bump_reason r) ≡ 0)
      × ((u : Update F) → w (average u) ≡ 0)
      × ((u : Update F) → w (set_last_activity u) ≡ 0)

  module _ (w : ProfileCall F → ℕ) (p : IsPlain w) where
    total-reason_calls : (r : Option String) → total w (reason_calls r) ≡ 0
    total-reason_calls none = refl
    total-reason_calls (some r) = elim (Bool-cases (str_eq r "")) [
      | inl e ↦ rw e refl
      | inr e ↦ rw e (omega (arith, p.0 r))
    ]

    total-return_calls :
        (u : Update F) → total w (return_calls u) ≡ w bump_returns + w (add_return u)
    total-return_calls u = omega (
      arith,
      total-append w (reason_calls u.return_reason) (average u ∷ []),
      total-reason_calls u.return_reason,
      p.1 u,
    )

    -- what the calls of an update add at most
    abbrev reported : Update F → ℕ
    reported u =
        w bump_orders
        + (if u.cod_flag then w bump_cod_orders else 0)
        + (if u.returned then w bump_returns + w (add_return u) else 0)

    total-profile_calls : (u : Update F) → total w (profile_calls u) ≡ reported u
    total-profile_calls u =
        let cod : List (ProfileCall F) = if u.cod_flag then bump_cod_orders ∷ [] else [] in
        let back : List (ProfileCall F) = if u.returned then return_calls u else [] in
        omega (
          arith,
          cod_total u.cod_flag,
          back_total u.returned,
          p.2 u,
          total-append w (cod ++ back) (set_last_activity u ∷ []),
          total-append w cod back,
        )
      where
        cod_total :
            (b : Bool)
            → total w (if b then bump_cod_orders ∷ [] else [])
              ≡ (if b then w bump_cod_orders else 0)
        cod_total true = omega arith
        cod_total false = refl

        back_total :
            (b : Bool)
            → total w (if b then return_calls u else [])
              ≡ (if b then w bump_returns + w (add_return u) else 0)
        back_total true = total-return_calls u
        back_total false = refl

    try_update-le :
        (m : UserKeys F → ℕ)
        → IsBounded m w
        → (rs : List CallResult) (u : Update F) (k : UserKeys F)
        → m (try_update rs u k).0 ≤ m k + reported u
    unfolding try_update
    try_update-le m b rs u k =
        omega (arith, run_calls-le m w b rs (profile_calls u) k, total-profile_calls u)

  -- updates, each with the results of its calls
  abbrev pub run_updates : List (List CallResult × Update F) → UserKeys F → UserKeys F
  run_updates [] k = k
  run_updates ((rs, u) ∷ us) k = run_updates us (try_update rs u k).0

  abbrev pub updates_of : List (List CallResult × Update F) → List (Update F)
  updates_of [] = []
  updates_of ((rs, u) ∷ us) = u ∷ updates_of us

  abbrev pub IsReported : List (Update F) → UserKeys F → UserKeys F → Type 0
  IsReported us k k2 =
      let with_cod = length (filter (λ (u : Update F). u.cod_flag) us) in
      let returned = length (filter (λ (u : Update F). u.returned) us) in
      (orders k2 ≤ orders k + length us)
      × (cod_orders k2 ≤ cod_orders k + with_cod)
      × (returns k2 ≤ returns k + returned)
      × (return_times k2 ≤ return_times k + returned)

  -- Whatever becomes of each call of each update, taken, refused or raising, a profile counts no more
  -- orders than updates were reported, no more orders on delivery and no more returns than the
  -- updates that say so, and keeps no more times of returns than those, above what it had before.
  pub run_updates-IsReported :
      (us : List (List CallResult × Update F)) (k : UserKeys F)
      → IsReported (updates_of us) k (run_updates us k)
  run_updates-IsReported [] k = (omega arith, omega arith, omega arith, omega arith)
  run_updates-IsReported ((rs, u) ∷ us) k =
      let k2 = (try_update rs u k).0 in
      let (a, b, c, d) = run_updates-IsReported us k2 in
      let vs = updates_of us in
      let o =
        try_update-le adds_order (λ r. refl, λ u. refl, λ u. refl) orders orders-IsBounded rs u k in
      let p =
        try_update-le adds_cod (λ r. refl, λ u. refl, λ u. refl) cod_orders cod_orders-IsBounded rs
          u k in
      let q =
        try_update-le adds_return (λ r. refl, λ u. refl, λ u. refl) returns returns-IsBounded rs u
          k in
      let t =
        try_update-le adds_time (λ r. refl, λ u. refl, λ u. refl) return_times
          return_times-IsBounded rs u k in
      let with_cod = length-filter_one (λ (u : Update F). u.cod_flag) u vs in
      let returned = length-filter_one (λ (u : Update F). u.returned) u vs in
      (
        ground (arith, a, o),
        ground (arith, b, p, with_cod),
        ground (arith, c, q, returned),
        ground (arith, d, t, returned),
      )

  -- Where Redis is not there for the first call of the update of a returned order, and takes the rest,
  -- a profile that had as many returns as orders has more.
  refused_order :
      (u : Update F) (k : UserKeys F)
      → u.returned ≡ true
      → returns k ≡ orders k
      → let rs = refused ∷ taken ∷ taken ∷ taken ∷ taken ∷ taken ∷ taken ∷ taken ∷ [] in
        let k2 = (try_update rs u k).0 in returns k2 ≡ orders k2 + 1
  unfolding try_update run_calls
  refused_order u k h e = at u.cod_flag u.returned u.return_reason h
    where
      at :
          (cod back : Bool) (reason : Option String)
          → back ≡ true
          → let rs = refused ∷ taken ∷ taken ∷ taken ∷ taken ∷ taken ∷ taken ∷ taken ∷ [] in
            let cs =
              bump_orders ∷ (if cod then bump_cod_orders ∷ [] else [])
              ++ (if back
                  then bump_returns ∷ add_return u ∷ reason_calls reason ++ average u ∷ []
                  else [])
              ++ set_last_activity u ∷ [] in
            let k2 = (run_calls rs cs k).0 in returns k2 ≡ orders k2 + 1
      at cod false reason q = absurd (false≢true q)
      at true true none q = omega (arith, e)
      at false true none q = omega (arith, e)
      at true true (some r) q = elim (Bool-cases (str_eq r "")) [
        | inl z ↦ rw z (omega (arith, e))
        | inr z ↦ rw z (omega (arith, e))
      ]
      at false true (some r) q = elim (Bool-cases (str_eq r "")) [
        | inl z ↦ rw z (omega (arith, e))
        | inr z ↦ rw z (omega (arith, e))
      ]
