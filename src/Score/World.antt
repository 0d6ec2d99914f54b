-- ===== src/Score/World.antt =====
-- api/routes/score.py: the response, what the route changes beside the history, and the calls that do.
-- The world is the history and the cached responses in Redis, the filter, the engine, the queue of the
-- audit log, the explanations on disk and the alerts that were broadcast.
use pay_shield.Prelude.{
  ℕ, String, Bool, true, false, Option, none, some, List, [], ◌∷◌, ◌++◌, if◌then◌else◌, ◌>>=◌,
}
use pay_shield.Layer1.Rules.{
  Decision, allow, review, block, escalate, RuleName, v_rule_01, v_rule_02, v_rule_03, v_rule_04,
  v_rule_05, v_rule_06, g_rule_01, g_rule_02, g_rule_03, g_rule_04, b_rule_01, b_rule_02,
}
use pay_shield.Layer1.Gate.{Layer1Result, Config, StatisticalFilter}
use pay_shield.Ensemble.{LayerName, l1_statistical, l2_gnn, ensemble, Engine}
use pay_shield.Audit.Masker.{end, field, Items, nil, cons, text, num, list}
use pay_shield.Audit.Queue.{Item, AsyncWriter, enqueue}
use pay_shield.Score.History.{ScoreRequest, RouteFeatures, History, Maths, Faults, put}
use pay_shield.Score.Layers.{L2Status}

pub data ScoreEvidence (F : Type 0) : Type 0 where
  rules : List RuleName → ScoreEvidence F
  layers : List RuleName → F → L2Status → Option F → ScoreEvidence F
  empty failure : ScoreEvidence F

pub record FraudScoreResponse (F : Type 0) : Type 0 where
  pub txn_id : String
  pub decision : Decision
  pub fraud_probability : F
  pub layer_triggered : LayerName
  pub evidence : ScoreEvidence F

pub record Alert (F : Type 0) : Type 0 where
  pub txn_id : String
  pub decision : Decision
  pub fraud_probability : F
  pub layer_triggered : LayerName

pub record Explanation (F : Type 0) : Type 0 where
  pub decision : Decision
  pub layer1_result : Layer1Result F
  pub features : Option (RouteFeatures F)

-- what the route is given beside the request: settings, library functions, and the failures of one call
pub record Env (F : Type 0) : Type 0 where
  pub maths : Maths F
  pub digits : F → List ℕ
  pub show : F → String
  pub sha256 : String → String
  pub config : Option (Config F)
  pub faults : Faults
  pub cache_read_fails : Bool
  pub cache_write_fails : Bool
  pub layer1_raises : Bool
  pub ensemble_raises : Bool
  pub disk_fails : Bool

pub record World (F : Type 0) : Type 0 where
  pub history : History F
  pub idempotent : String → Option (FraudScoreResponse F)
  pub filters : StatisticalFilter F
  pub engine : Option (Engine F)
  pub audit : AsyncWriter
  pub explanations : String → Option (Explanation F)
  pub alerts : List (Alert F)

abbrev pub decision_text : Decision → String
decision_text allow = "ALLOW"
decision_text review = "REVIEW"
decision_text block = "BLOCK"
decision_text escalate = "ESCALATE"

abbrev layer_text : LayerName → String
layer_text l1_statistical = "L1_STATISTICAL"
layer_text l2_gnn = "L2_GNN"
layer_text ensemble = "ENSEMBLE"

abbrev rule_text : RuleName → String
rule_text v_rule_01 = "V-RULE-01"
rule_text v_rule_02 = "V-RULE-02"
rule_text v_rule_03 = "V-RULE-03"
rule_text v_rule_04 = "V-RULE-04"
rule_text v_rule_05 = "V-RULE-05"
rule_text v_rule_06 = "V-RULE-06"
rule_text g_rule_01 = "G-RULE-01"
rule_text g_rule_02 = "G-RULE-02"
rule_text g_rule_03 = "G-RULE-03"
rule_text g_rule_04 = "G-RULE-04"
rule_text b_rule_01 = "B-RULE-01"
rule_text b_rule_02 = "B-RULE-02"

abbrev rule_items : List RuleName → Items
rule_items [] = nil
rule_items (r ∷ rs) = cons (text (rule_text r)) (rule_items rs)

-- the decisions that the response model admits
abbrev pub is_final : Decision → Bool
is_final escalate = false
is_final _ = true

module _ {F : Type 0} where
  -- `result["evidence"].get("triggered_rules", [])`
  abbrev rules_of : ScoreEvidence F → List RuleName
  rules_of (rules rs) = rs
  rules_of (layers rs c s p) = rs
  rules_of _ = []

  -- the entry of `_append_audit_entry`
  abbrev pub audit_item : (F → String) → ScoreRequest F → FraudScoreResponse F → Item
  audit_item show t r = record {
    event_type = "SCORE_DECISION";
    actor = t.user_id;
    decision = decision_text r.decision;
    payload = field "txn_id" (text t.txn_id) (
        field "merchant_id" (text t.merchant_id) (
          field "amount" (num (show t.amount)) (
            field "device_fingerprint" (text t.device_fingerprint) (
              field "fraud_probability" (num (show r.fraud_probability)) (
                field "layer_triggered" (text (layer_text r.layer_triggered))
                  (field "triggered_rules" (list (rule_items (rules_of r.evidence))) end))))));
  }

  -- `_append_audit_entry`, with the queue of the background writer
  unfoldable pub append_audit_entry :
      Env F → ScoreRequest F → FraudScoreResponse F → World F → World F
  append_audit_entry v t r w = record w { audit = enqueue w.audit (audit_item v.show t r) }

  -- `_cache_result`
  unfoldable pub cache_result : Env F → ScoreRequest F → FraudScoreResponse F → World F → World F
  cache_result v t r w =
      if v.cache_write_fails
      then w
      else record w { idempotent = put w.idempotent (v.sha256 t.txn_id) (some r) }

  -- `_persist_explanation`, which writes the file of the transaction anew
  unfoldable pub persist_explanation :
      Env F
      → ScoreRequest F
      → Layer1Result F
      → Option (RouteFeatures F)
      → FraudScoreResponse F
      → World F
      → World F
  persist_explanation v t l1 fs r w =
      let e : Explanation F = record { decision = r.decision; layer1_result = l1; features = fs } in
      if v.disk_fails then w else record w { explanations = put w.explanations t.txn_id (some e) }

  -- `_broadcast_alert`
  unfoldable pub broadcast_alert : FraudScoreResponse F → World F → World F
  broadcast_alert r w =
      let a : Alert F = record {
        txn_id = r.txn_id;
        decision = r.decision;
        fraud_probability = r.fraud_probability;
        layer_triggered = r.layer_triggered;
      } in
      record w { alerts = w.alerts ++ a ∷ [] }

  -- `if response_data["decision"] in ("BLOCK", "REVIEW")`
  abbrev pub alerted :
      Env F
      → ScoreRequest F
      → Layer1Result F
      → Option (RouteFeatures F)
      → FraudScoreResponse F
      → Decision
      → World F
      → World F
  alerted v t l1 fs r block w = broadcast_alert r (persist_explanation v t l1 fs r w)
  alerted v t l1 fs r review w = broadcast_alert r (persist_explanation v t l1 fs r w)
  alerted v t l1 fs r _ w = w

  -- `FraudScoreResponse(...)` raises on a decision that its type does not list
  unfoldable pub validated : FraudScoreResponse F → Option (FraudScoreResponse F)
  validated r = if is_final r.decision then some r else none

  -- the response cached under the hash of the transaction's id, unless its model refuses it
  unfoldable pub cached_response : Env F → World F → ScoreRequest F → Option (FraudScoreResponse F)
  unfolding validated
  cached_response v w t =
      (if v.cache_read_fails then none else w.idempotent (v.sha256 t.txn_id)) >>= validated
