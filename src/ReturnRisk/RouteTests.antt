-- ===== src/ReturnRisk/RouteTests.antt =====
-- Runs of the return-risk routes and of the profiles on small inputs, over numbers with four
-- decimals.
use pay_shield.Prelude.{
  find_key, ◌≡◌, refl, String, Bool, true, false, Option, none, some, List, [], ◌∷◌, any, arith,
  str_eq, get_or,
}
use pay_shield.Client.{CallResult, taken, refused, raises}
use pay_shield.Prelude.Int.{ℤ, pos}
use pay_shield.Prelude.Float.Fixed.{fixed, ℤ-IsOrdered}
use pay_shield.ReturnRisk.Rules.{Raw, flag, get_feature}
use pay_shield.ReturnRisk.Scorer.{Scorer}
use pay_shield.ReturnRisk.Store.{Calls, no_keys}
use pay_shield.ReturnRisk.Extract.{Priors, extract_user}
use pay_shield.ReturnRisk.Context.{Outside, transaction_features, compute_transaction_features}
use pay_shield.ReturnRisk.Profile.{Update}
use pay_shield.ReturnRisk.Reported.{IsReported, updates_of, run_updates, run_updates-IsReported}
use pay_shield.ReturnRisk.Serial.{whole_updates, extract_user-whole_updates}
use pay_shield.ReturnRisk.Ranges.{IsInRange, compute_transaction_features-bounds}
use pay_shield.ReturnRisk.Served.{IsServed, score_return_risk_lem, explain_records}
use pay_shield.ReturnRisk.Route.{
  ReturnScoreRequest, ReturnWorld, order_of, score_return_risk, explain_return_risk,
}

abbrev outside : Outside ℤ
outside = record {
  loads = λ s. some s;
  log1p = λ x. x;
  upper = λ s. s;
  days_between = λ t s. some (pos 20_000);
  words = λ s. s;
  sha256 = λ s. s;
}

abbrev priors : Priors ℤ
priors = record { default_prior = pos 1_500; default_priors = [] }

-- Redis is not there for the user's hash
abbrev calls : Calls
calls = record {
  hgetall_user = refused;
  zrangebyscore = true;
  hgetall_merchant = taken;
  zscore = true;
  sadd = true;
  smembers = true;
}

abbrev answering : Calls
answering = record calls { hgetall_user = taken }

abbrev request : ReturnScoreRequest ℤ
request = record {
  order_id = "o1";
  user_id = "u1";
  merchant_id = "m1";
  amount = pos 120_000_000;
  category = "fashion";
  payment_method = "CARD";
  cod_flag = false;
  shipping_address = some (record { city = "Pune"; state = "MH"; pincode = "411001" });
  device_fingerprint = "";
  timestamp = record { isoformat = "2026-01-01T23:10:00"; seconds = 600; hour = 23; day = 1 };
}

abbrev world : ReturnWorld ℤ
world = record {
  redis = record { users = []; merchants = []; addresses = [] };
  max_queue = 10_000;
  events = [];
  feed = [];
  tasks = [];
}

abbrev scorer : Scorer ℤ
scorer = record {
  weights = ("user_return_rate_30d", pos 2_500) ∷ ("user_return_velocity_7d", pos 500) ∷ [];
  low_max = pos 3_000;
  medium_max = pos 7_000;
  high_max = pos 10_000;
  rules = [];
  model = none;
}

abbrev eval : String → List (String × Raw ℤ) → Option Bool
eval c flat = some false

score_return_risk_lem_example :
    IsServed world request true
      (score_return_risk outside priors calls eval scorer world request 600 true)
score_return_risk_lem_example =
    score_return_risk_lem outside priors calls eval scorer world request 600 true

explain_records_example :
    any (str_eq "u1") (
      get_or
        (find_key "411001"
          (explain_return_risk outside priors calls eval scorer world request
            600).0.redis.addresses)
        [])
    ≡ true
explain_records_example =
    explain_records outside priors calls eval scorer world request 600 refl refl refl refl

abbrev update : Bool → Update ℤ
update b = record {
  order_id = "o1";
  amount = pos 120_000_000;
  cod_flag = true;
  returned = b;
  return_reason = some "SIZE_ISSUE";
  now = 600;
  utcnow = "2026-01-01T23:10:00";
}

-- a score whose task Redis takes, and a return of which it takes two calls
abbrev attempts : List (List CallResult × Update ℤ)
attempts =
    (taken ∷ taken ∷ taken ∷ [], update false)
    ∷ (refused ∷ taken ∷ taken ∷ raises ∷ [], update true)
    ∷ []

run_updates-IsReported_example :
    IsReported (updates_of attempts) no_keys (run_updates attempts no_keys)
run_updates-IsReported_example = run_updates-IsReported attempts no_keys

extract_user-whole_updates_example :
    (s : String) × (get_feature "user_serial_returner_flag" (
        extract_user outside.loads
          (pos 1_500)
          answering
          (whole_updates (update false ∷ update true ∷ []) no_keys)
          700)
      ≡ some (record { value = flag false; source = s }))
extract_user-whole_updates_example =
    extract_user-whole_updates ℤ ℤ-IsOrdered outside.loads (pos 1_500) answering
      (update false ∷ update true ∷ []) 700 (omega arith)

compute_transaction_features-bounds_example :
    IsInRange ℤ ℤ-IsOrdered
      (transaction_features outside (order_of request) [] [] 1 (pos 3_200) (pos 745_000_000))
unfolding compute_transaction_features
compute_transaction_features-bounds_example =
    compute_transaction_features-bounds ℤ ℤ-IsOrdered outside priors (order_of request) [] [] 1
      (transaction_features outside (order_of request) [] [] 1 (pos 3_200) (pos 745_000_000)) refl
