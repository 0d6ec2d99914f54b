-- ===== src/Baselines/Steady.antt =====
-- store/baselines.py, `BehavioralFeatureExtractor.extract`: it updates the baseline before it measures
-- the deviation from it.
use pay_shield.Prelude.{
  ℕ, zero, suc, ◌*◌, ◌≡◌, refl, sym, ap, ◌∙◌, subst, String, inl, inr, Option, none, some,
  Bool-cases, find_key, find_key-put_key, arith,
}
use pay_shield.Prelude.Float.{Float, IsOrdered, lit, of_ℕ}
use pay_shield.Prelude.Float.Order.{le→not_lt}
use pay_shield.Baselines.Welford.{BehavioralBaseline, StatsMaths}
use pay_shield.Baselines.Store.{
  BaselineStore, pfcount, deviation, deviation_from, update_baseline, compute_deviation, extract,
}

module _ (F : Type 0) ⦃f : Float F⦄ (o : IsOrdered F) (py : StatsMaths F) where
  -- a count does not deviate from itself
  deviation-same : (n : ℕ) → deviation py n (of_ℕ n) ≡ lit 0
  deviation-same zero = rw (le→not_lt F o (lit 0) (lit 0) (o.le_refl (lit 0))) refl
  deviation-same (suc n) = elim (Bool-cases (f.lt (lit 0) (of_ℕ (suc n)))) [
    | inl e ↦
        rw (e, o.sub_self (of_ℕ (suc n)), le→not_lt F o (lit 0) (lit 0) (o.le_refl (lit 0)))
          (o.zero_div (suc n * 10_000) (omega arith))
    | inr e ↦ rw e refl
  ]

  -- the diversities of a baseline are the counts of the store
  abbrev IsCurrent : BaselineStore F → String → Option (BehavioralBaseline F) → Type 0
  IsCurrent s user stored =
      (b : BehavioralBaseline F) × (stored ≡ some b)
      × (b.merchant_diversity ≡ of_ℕ (pfcount py user s.merchants))
      × (b.country_diversity ≡ of_ℕ (pfcount py user s.countries))

  IsCurrent-update_baseline :
      (s : BaselineStore F) (user : String) (amount : F) (merchant country : String)
      (device : Option String) (hour now : F)
      → let s2 = update_baseline py s user amount merchant country device hour now in
        IsCurrent s2 user (find_key user s2.baselines)
  unfolding update_baseline
  IsCurrent-update_baseline s user amount merchant country device hour now =
      (_, find_key-put_key user _ s.baselines, refl, refl)

  steady :
      (s : BaselineStore F) (user : String) (amount hour later : F)
      → IsCurrent s user (find_key user s.baselines)
      → let d = compute_deviation py s user amount hour later in
        (d.merchant_deviation ≡ lit 0) × (d.country_deviation ≡ lit 0)
  unfolding compute_deviation
  steady s user amount hour later (b, e, m, c) =
      subst
        (λ o.
          let d = deviation_from py s user amount hour later o in
          (d.merchant_deviation ≡ lit 0) × (d.country_deviation ≡ lit 0))
        (sym e)
        (
          ap (deviation py (pfcount py user s.merchants)) m
              ∙ deviation-same (pfcount py user s.merchants),
          ap (deviation py (pfcount py user s.countries)) c
              ∙ deviation-same (pfcount py user s.countries),
        )

  -- For every payment, `extract` says that the merchants and the countries of the user do not deviate
  -- at all from the baseline, which it has just set to them.
  pub extract_steady :
      (s : BaselineStore F) (user : String) (amount : F) (merchant country : String)
      (hour now later : F)
      → let (s2, d) = extract py s user amount merchant country hour now later in
        (d.merchant_deviation ≡ lit 0) × (d.country_deviation ≡ lit 0)
  unfolding extract
  extract_steady s user amount merchant country hour now later =
      steady (update_baseline py s user amount merchant country none hour now) user amount hour
        later (IsCurrent-update_baseline s user amount merchant country none hour now)
