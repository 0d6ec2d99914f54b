-- ===== src/Baselines/Tests.antt =====
-- Baselines on small inputs, over numbers with four decimals.
use pay_shield.Prelude.{◌≡◌, refl, some, List, [], ◌∷◌, length, find_key}
use pay_shield.Prelude.Int.{ℤ, pos}
use pay_shield.Prelude.Float.Fixed.{fixed, ℤ-IsOrdered}
use pay_shield.Baselines.Welford.{StatsMaths}
use pay_shield.Baselines.Store.{BaselineStore, DeviationFeatures, extract}
use pay_shield.Baselines.Steady.{extract_steady}
use pay_shield.Baselines.Counted.{
  Payment, IsBaselineOf, update_payments, update_payments-IsBaselineOf,
}

abbrev maths : StatsMaths ℤ
maths = record { sqrt = λ x. x; estimate = length }

abbrev no_users : BaselineStore ℤ
no_users = record { baselines = []; merchants = []; countries = []; user_devices = [] }

abbrev first : Payment ℤ
first = record {
  amount = pos 1_000_000;
  merchant_id = "m1";
  country = "IN";
  device_id = some "d1";
  hour = pos 100_000;
  now = pos 10_000;
}

abbrev payments : List (Payment ℤ)
payments = first ∷ record first { amount = pos 2_000_000; now = pos 900_000 } ∷ []

update_payments-IsBaselineOf_example :
    IsBaselineOf maths 2 (find_key "u1" (update_payments maths no_users "u1" payments).baselines)
update_payments-IsBaselineOf_example =
    update_payments-IsBaselineOf maths no_users "u1" payments refl

abbrev extracted : BaselineStore ℤ × DeviationFeatures ℤ
extracted =
    extract maths (update_payments maths no_users "u1" payments) "u1" (pos 9_000_000) "m2" "US"
      (pos 30_000) (pos 1_000_000) (pos 1_010_000)

extract_steady_example :
    (extracted.1.merchant_deviation ≡ pos 0) × (extracted.1.country_deviation ≡ pos 0)
extract_steady_example =
    extract_steady ℤ ℤ-IsOrdered maths (update_payments maths no_users "u1" payments) "u1"
      (pos 9_000_000) "m2" "US" (pos 30_000) (pos 1_000_000) (pos 1_010_000)
