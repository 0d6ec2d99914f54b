-- ===== src/Layer1/Slots.antt =====
-- The fields of `Layer1Result` for the three filters, and the whitelist and counters of the Benford
-- filter.
use pay_shield.Prelude.{
  ℕ, zero, suc, if◌then◌else◌, ltb, ◌||◌, ◌+◌, ◌≤◌, ◌≡◌, refl, true, false, ◌&&◌, Option, none,
  some, String, List, ◌⊎◌, ◌∙◌, ap, arith, dec_lt, leb, inl, inr,
}
use pay_shield.Prelude.Float.{Float}
use pay_shield.Layer1.Geo.{GeoPoint}
use pay_shield.Layer1.Benford.{
  Counts, record_digit, count_digit, counts_or_none, sum, observed, first_digit,
  update_distribution, benford_filter,
}
use pay_shield.Layer1.Gate.{Config, StatisticalFilter, Transaction, evaluate}

module _ {F : Type 0} ⦃f : Float F⦄ where
  -- With a location and a merchant each field holds the result of its own filter. With a merchant
  -- and no location the Benford result is filed as the geographic one, and the Benford field is
  -- empty.
  pub evaluate_slots :
      (c : Config F) (s : StatisticalFilter F) (t : Transaction F) (m : String)
      → t.merchant_id ≡ some m
      → let b =
          (benford_filter c.benford_config c.has_redis m t.amount t.is_shell_merchant
            (s.merchants m)).0 in
        let r = (evaluate c s t).0 in
        ((now : GeoPoint F) → t.current_loc ≡ some now → r.benford_result ≡ some b)
        × (t.current_loc ≡ none → (r.geo_result ≡ some b) × (r.benford_result ≡ none))
  unfolding evaluate
  evaluate_slots c s t m e = (λ now l. rw (e, l), λ l. (rw (e, l), rw (e, l)))

-- the counts of the nine digits add up to the total
abbrev pub IsCounted : Option Counts → Type 0
IsCounted c = sum (observed (counts_or_none c)) ≡ (counts_or_none c).total

count_digit-sum :
    (d : ℕ) (c : Counts) → 1 ≤ d → d ≤ 9 → sum (observed (count_digit d c)) ≡ sum (observed c) + 1
count_digit-sum zero c h k = absurd (omega arith)
count_digit-sum (suc zero) c h k = omega arith
count_digit-sum (suc (suc zero)) c h k = omega arith
count_digit-sum (suc (suc (suc zero))) c h k = omega arith
count_digit-sum (suc (suc (suc (suc zero)))) c h k = omega arith
count_digit-sum (suc (suc (suc (suc (suc zero))))) c h k = omega arith
count_digit-sum (suc (suc (suc (suc (suc (suc zero)))))) c h k = omega arith
count_digit-sum (suc (suc (suc (suc (suc (suc (suc zero))))))) c h k = omega arith
count_digit-sum (suc (suc (suc (suc (suc (suc (suc (suc zero)))))))) c h k = omega arith
count_digit-sum (suc (suc (suc (suc (suc (suc (suc (suc (suc zero))))))))) c h k = omega arith
count_digit-sum (suc (suc (suc (suc (suc (suc (suc (suc (suc (suc d)))))))))) c h k =
    absurd (omega arith)

digit-cases :
    (d : ℕ)
    → (((ltb d 1 || ltb 9 d) ≡ true) × ((leb 1 d && leb d 9) ≡ false))
      ⊎ (((ltb d 1 || ltb 9 d) ≡ false) × ((leb 1 d && leb d 9) ≡ true) × (1 ≤ d) × (d ≤ 9))
digit-cases d = elim (dec_lt d 1) [
  | yes k ↦ inl (ground arith, ground arith)
  | no k ↦ elim (dec_lt 9 d) [
    | yes l ↦ inl (ground arith, ground arith)
    | no l ↦ inr (ground arith, ground arith, omega arith, omega arith)
  ]
]

record_digit-total :
    (d : ℕ) (c : Option Counts)
    → IsCounted c
    → IsCounted (record_digit d c)
      × ((counts_or_none (record_digit d c)).total
          ≡ (if leb 1 d && leb d 9 then (counts_or_none c).total + 1 else (counts_or_none c).total))
record_digit-total d c h = elim (digit-cases d) [
  | inl (e, k) ↦ rw (e, k) (h, refl)
  | inr (e, k, a, b) ↦
      rw (e, k) (count_digit-sum d (counts_or_none c) a b ∙ ap (λ n. n + 1) h, refl)
]

-- Recording an amount keeps the total equal to the sum of the digit counts, and raises it by one if
-- the first digit is from 1 to 9, and not at all otherwise.
pub update_distribution-IsCounted :
    (amount : List ℕ) (c : Option Counts)
    → IsCounted c
    → let d = first_digit amount in
      let c' = update_distribution amount c in
      IsCounted c'
      × ((counts_or_none c').total
          ≡ (if leb 1 d && leb d 9 then (counts_or_none c).total + 1 else (counts_or_none c).total))
unfolding update_distribution
update_distribution-IsCounted amount c h = record_digit-total (first_digit amount) c h
