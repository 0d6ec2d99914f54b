-- ===== src/Baselines/Counted.antt =====
-- store/baselines.py: how many payments the statistics of a user count.
use pay_shield.Prelude.{
  ℕ, zero, suc, ◌+◌, ◌≤◌, ◌≡◌, sym, subst, String, ◌&&◌, inl, inr, Option, none, some, List, [],
  ◌∷◌, length, ltb, Bool-cases, find_key, find_key-put_key, arith,
}
use pay_shield.Prelude.Float.{Float, lit, sub, flt}
use pay_shield.Baselines.Welford.{BehavioralBaseline, StatsMaths, update_stats, reloaded}
use pay_shield.Baselines.Store.{
  BaselineStore, stored_or_new, add_interarrival, with_amount, with_payment, update_baseline,
}

-- a payment of the user, with the readings of the clock
pub record Payment (F : Type 0) : Type 0 where
  pub amount : F
  pub merchant_id : String
  pub country : String
  pub device_id : Option String
  pub hour : F
  pub now : F

module _ {F : Type 0} ⦃f : Float F⦄ (py : StatsMaths F) where
  abbrev pub update_payments : BaselineStore F → String → List (Payment F) → BaselineStore F
  update_payments s user [] = s
  update_payments s user (p ∷ ps) =
      update_payments
        (update_baseline py s user p.amount p.merchant_id p.country p.device_id p.hour p.now) user
        ps

  -- the counts of a baseline after so many payments
  abbrev pub IsBaselineOf : ℕ → Option (BehavioralBaseline F) → Type 0
  IsBaselineOf zero stored = stored ≡ none
  IsBaselineOf (suc n) stored =
      (b : BehavioralBaseline F) × (stored ≡ some b)
      × (b.txn_amount_stats.n ≡ suc n)
      × (b.txn_time_hour_stats.n ≡ suc n)
      × (b.interarrival_seconds_stats.n ≤ n)

  gap_count :
      (b : BehavioralBaseline F) (now : F) (n : ℕ)
      → b.interarrival_seconds_stats.n ≤ n
      → (add_interarrival py b now).n ≤ suc n
  unfolding update_stats
  gap_count b now n h =
      elim (Bool-cases (ltb 1 b.txn_amount_stats.n && flt (lit 0) (sub now b.last_updated))) [
        | inl e ↦ rw e (omega arith)
        | inr e ↦ rw e (omega arith)
      ]

  HasCounts : ℕ → BehavioralBaseline F → Type 0
  HasCounts n b =
      (b.txn_amount_stats.n ≡ suc n)
      × (b.txn_time_hour_stats.n ≡ suc n)
      × (b.interarrival_seconds_stats.n ≤ n)

  HasCounts-with_payment :
      (n : ℕ) (o : Option (BehavioralBaseline F)) (amount hour now : F)
      → IsBaselineOf n o
      → HasCounts n (with_payment py (stored_or_new py now o) amount hour now)
  unfolding HasCounts update_stats reloaded
  HasCounts-with_payment zero o amount hour now h =
      subst (λ o. HasCounts 0 (with_payment py (stored_or_new py now o) amount hour now)) (sym h)
        (omega arith, omega arith, omega arith)
  HasCounts-with_payment (suc n) o amount hour now (b, e, x, y, z) =
      subst (λ o. HasCounts (suc n) (with_payment py (stored_or_new py now o) amount hour now))
        (sym e)
        (
          omega arith,
          omega arith,
          gap_count (with_amount py (reloaded py b) amount hour now) now n z,
        )

  IsBaselineOf-update_baseline :
      (s : BaselineStore F) (user : String) (n : ℕ) (p : Payment F)
      → IsBaselineOf n (find_key user s.baselines)
      → let s2 =
          update_baseline py s user p.amount p.merchant_id p.country p.device_id p.hour p.now in
        IsBaselineOf (suc n) (find_key user s2.baselines)
  unfolding HasCounts update_baseline
  IsBaselineOf-update_baseline s user n p h =
      let (x, y, z) =
        HasCounts-with_payment n (find_key user s.baselines) p.amount p.hour p.now h in
      (_, find_key-put_key user _ s.baselines, x, y, z)

  updated :
      (s : BaselineStore F) (user : String) (n : ℕ) (ps : List (Payment F))
      → IsBaselineOf n (find_key user s.baselines)
      → IsBaselineOf (n + length ps) (find_key user (update_payments s user ps).baselines)
  updated s user n [] h = rw (right_zero n) h
    where
      right_zero : (n : ℕ) → n + 0 ≡ n
      right_zero n = omega arith
  updated s user n (p ∷ ps) h =
      let s2 =
        update_baseline py s user p.amount p.merchant_id p.country p.device_id p.hour p.now in
      subst (λ m. IsBaselineOf m (find_key user (update_payments s2 user ps).baselines))
        (omega arith) (updated s2 user (suc n) ps (IsBaselineOf-update_baseline s user n p h))

  -- A user without a baseline has, after payments, one whose statistics of amounts and of hours count
  -- each payment once, through every write to Redis and read from it, and whose statistics of the
  -- time between payments count fewer; after none there is still no baseline.
  pub update_payments-IsBaselineOf :
      (s : BaselineStore F) (user : String) (ps : List (Payment F))
      → find_key user s.baselines ≡ none
      → IsBaselineOf (length ps) (find_key user (update_payments s user ps).baselines)
  update_payments-IsBaselineOf s user ps h =
      subst (λ m. IsBaselineOf m (find_key user (update_payments s user ps).baselines))
        (omega arith) (updated s user 0 ps h)
