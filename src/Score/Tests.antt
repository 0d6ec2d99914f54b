-- ===== src/Score/Tests.antt =====
-- Runs of the scoring routes on small inputs, over numbers with four decimals.
use pay_shield.Prelude.{
  ◌≤◌, ◌<◌, ◌≡◌, refl, ◌⊎◌, true, false, none, some, List, [], ◌∷◌, ◌++◌, All, map, arith,
}
use pay_shield.Prelude.Int.{ℤ, pos}
use pay_shield.Prelude.Float.Fixed.{fixed, ℤ-IsOrdered}
use pay_shield.Layer1.Rules.{is_block}
use pay_shield.Layer1.Samples.{config, filters}
use pay_shield.Ensemble.{Engine}
use pay_shield.Audit.{fresh}
use pay_shield.Audit.Queue.{AsyncWriter}
use pay_shield.Score.History.{
  ScoreRequest, HistoryItem, unreadable, recorded, History, Maths, Faults,
}
use pay_shield.Score.Layers.{L2Call, predicted, success, timeout, run_l2_inference}
use pay_shield.Score.Route.{blocked_response, first_layer, score_transaction}
use pay_shield.Score.World.{FraudScoreResponse, Env, World, is_final, audit_item, cached_response}
use pay_shield.Score.Batch.{score_single, batch_score}
use pay_shield.Score.Answers.{answer, score_transaction-audited}
use pay_shield.Score.Replay.{score_transaction-replay}
use pay_shield.Score.Record.{IsSound, IsSame}
use pay_shield.Score.Once.{score_transaction-once}
use pay_shield.Score.Alerts.{alerts_of, score_transaction-alerts}
use pay_shield.Score.Live.{IsLive}
use pay_shield.Score.Rules.{first_layer-IsLive}
use pay_shield.Score.Whole.{verdict_of, IsSilent, batch_score-answers, score_single-agrees}

abbrev maths : Maths ℤ
maths = record {
  median = λ xs. pos 5_000_000;
  pstdev = λ xs. pos 100_000;
  sum = λ xs. pos 0;
  round2 = λ x. x;
  haversine_km = λ a b c d. none;
}

abbrev no_faults : Faults
no_faults = record {
  dedupe_check = false;
  pipeline = false;
  location_read = false;
  location_write = false;
  user_read = false;
  device_read = false;
}

abbrev env : Env ℤ
env = record {
  maths = maths;
  digits = λ x. b'2' ∷ b'5' ∷ [];
  show = λ x. "25.0";
  sha256 = λ s. s;
  config = some config;
  faults = no_faults;
  cache_read_fails = false;
  cache_write_fails = false;
  layer1_raises = false;
  ensemble_raises = false;
  disk_fails = false;
}

abbrev engine : Engine ℤ
engine = record {
  layer1_weight = pos 3_000;
  layer2_weight = pos 7_000;
  fraud_threshold = pos 8_000;
  review_threshold = pos 6_000;
  calibrator = none;
  disagreements = [];
}

-- a payment of the user, 100 seconds ago
abbrev earlier : List (HistoryItem ℤ)
earlier =
    recorded (record { ts = pos 9_000_000; amount = pos 250_000; merchant = "shop"; user = "u1" })
    ∷ unreadable
    ∷ []

abbrev history : History ℤ
history = record {
  user_txns = λ u. earlier;
  dev_txns = λ d. earlier;
  locations = λ u. none;
  seen = λ t. false;
}

abbrev queue : AsyncWriter
queue = record { max_queue = 10; queue = []; taken = 0; writer = fresh 10; dir = [] }

abbrev world : World ℤ
world = record {
  history = history;
  idempotent = λ k. none;
  filters = filters;
  engine = some engine;
  audit = queue;
  explanations = λ t. none;
  alerts = [];
}

abbrev request : ScoreRequest ℤ
request = record {
  txn_id = "t1";
  user_id = "u1";
  merchant_id = "shop";
  amount = pos 250_000;
  timestamp = pos 10_000_000;
  device_fingerprint = "d1";
  location = none;
}

abbrev call : L2Call ℤ
call = predicted success (pos 9_000)

abbrev late : L2Call ℤ
late = predicted timeout (pos 9_000)

history-IsSound : IsSound history
history-IsSound = (λ u. (omega arith, (refl, (refl, tt))), λ d. (omega arith, (refl, (refl, tt))))

score_transaction-audited_example :
    (r : FraudScoreResponse ℤ) × (((score_transaction env world call request).0 ≡ some r)
      × ((is_final r.decision ≡ true)
          × ((score_transaction env world call request).1.audit
              ≡ record queue { queue = queue.queue ++ audit_item env.show request r ∷ [] })))
unfolding cached_response
score_transaction-audited_example = score_transaction-audited env world call request refl

score_transaction-replay_example :
    score_transaction env (score_transaction env world call request).1 late request
    ≡ score_transaction env world call request
score_transaction-replay_example =
    score_transaction-replay env env world call late request request refl refl refl

score_transaction-once_example :
    let w' : World ℤ = record (score_transaction env world call request).1 {
      idempotent = λ k. none;
    } in
    IsSame w'.history (score_transaction env w' late request).1.history
unfolding cached_response
score_transaction-once_example =
    score_transaction-once env env world
      (record (score_transaction env world call request).1 { idempotent = λ k. none }) call late
      request request history-IsSound refl refl refl refl refl

score_transaction-alerts_example :
    let l1 = (first_layer env world request).1.0 in
    let r = answer env world call request in
    let out = score_transaction env world call request in
    ((is_block l1.decision ≡ true)
      × ((out.0 ≡ some (blocked_response request l1))
          × ((out.1.alerts ≡ []) × (out.1.engine ≡ some engine))))
    ⊎ ((is_block l1.decision ≡ false) × ((out.0 ≡ some r) × (out.1.alerts ≡ [] ++ alerts_of r)))
unfolding cached_response
score_transaction-alerts_example = score_transaction-alerts env world call request refl

first_layer-IsLive_example : All IsLive (first_layer env world request).1.0.rule_details
first_layer-IsLive_example = first_layer-IsLive ℤ ℤ-IsOrdered env world request

batch_score-answers_example :
    let out = batch_score (λ t. env) world (request ∷ request ∷ []) in
    ((100 < 2) × (out ≡ (none, world)))
    ⊎ ((2 ≤ 100)
        × ((rs : List (FraudScoreResponse ℤ)) × (((out.0 ≡ some rs)
              × (((map (λ r. r.txn_id) rs ≡ "t1" ∷ "t1" ∷ [])
                    × All (λ r. is_final r.decision ≡ true) rs)
                  × IsSilent world out.1)))))
batch_score-answers_example = batch_score-answers (λ t. env) world (request ∷ request ∷ [])

score_single-agrees_example :
    (r : FraudScoreResponse ℤ) × (((score_transaction env world late request).0 ≡ some r)
      × (verdict_of r ≡ verdict_of (score_single env world request).0))
unfolding cached_response run_l2_inference
score_single-agrees_example =
    score_single-agrees env world late request engine refl refl refl refl refl
