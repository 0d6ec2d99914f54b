-- ===== src/Rebuttal.antt =====
-- chargeback/rebuttal_builder.py, with the completeness of chargeback/evidence_collector.py: the
-- response to a dispute, its urgency and confidence, and whether the payload contests. A day is a
-- float; which parts of the evidence bundle are there is a list of Booleans.
pub mod Respond
pub mod Webhook
pub mod Recorded
pub mod Resent
pub mod Signed
mod Tests
mod WebhookTests
use pay_shield.Prelude.{
  ℕ, ◌+◌, String, Bool, true, false, ◌&&◌, ◌||◌, Option, none, some, List, [], ◌∷◌, any, str_eq,
  if◌then◌else◌,
}
use pay_shield.Prelude.Float.{Float, lit, of_ℕ, add, sub, mul, div, fle, flt, fmin, fmax}

-- the parts of an `EvidenceBundle` that count, each there or not
pub record Evidence : Type 0 where
  pub transaction_proof : Bool
  pub device_fingerprint : Bool
  pub velocity_evidence : Bool
  pub geo_evidence : Bool
  pub benford_evidence : Bool
  pub graph_evidence : Bool
  pub investigation_report : Bool
  pub delivery_proof : Bool

pub data Response : Type 0 where
  accept partial reject : Response

abbrev pub one : Bool → ℕ
one true = 1
one false = 0

abbrev pub required : Evidence → ℕ
required e = one e.transaction_proof + one e.device_fingerprint

abbrev pub optional : Evidence → ℕ
optional e =
    one e.velocity_evidence
    + one e.geo_evidence
    + one e.benford_evidence
    + one e.graph_evidence
    + one e.investigation_report

abbrev pub fraud_reason_codes : List String
fraud_reason_codes = "10.4" ∷ "10.5" ∷ "FRAUD" ∷ "UNAUTHORIZED" ∷ []

abbrev pub service_reason_codes : List String
service_reason_codes = "13.1" ∷ "13.2" ∷ "SERVICES_NOT_PROVIDED" ∷ []

abbrev pub is_fraud_code : String → Bool
is_fraud_code c = any (str_eq c) fraud_reason_codes

abbrev pub is_service_code : String → Bool
is_service_code c = any (str_eq c) service_reason_codes

-- `DEFAULT_RESPONSE_WINDOWS.get(network, 30)`
unfoldable pub response_window : String → ℕ
response_window n =
    if str_eq n "UPI"
    then 7
    else if str_eq n "AMEX"
    then 20
    else if str_eq n "RUPAY"
    then 15
    else 30

-- times are in days; the last entry of the audit trail has the time of the document
pub record Document (F : Type 0) : Type 0 where
  pub response_type : Response
  pub response_deadline : F
  pub generated_at : F
  pub response_urgency : F
  pub confidence_score : F
  pub contest : Bool

-- the field "contest" of the payload
abbrev pub contests : Response → Bool
contests reject = true
contests _ = false

module _ {F : Type 0} ⦃f : Float F⦄ where
  unfoldable pub calculate_completeness : Evidence → F
  calculate_completeness e =
      let base_score = div (of_ℕ (required e)) (lit 20_000) in
      let bonus = mul (div (of_ℕ (optional e)) (lit 50_000)) (lit 3_000) in
      f.round4 (fmin (lit 10_000) (add base_score bonus))

  -- the two tiers by completeness
  abbrev pub by_completeness : ℕ → ℕ → F → Response
  by_completeness high low c =
      if fle (lit high) c then reject else if fle (lit low) c then partial else accept

  unfoldable pub determine_response_type : F → Bool → String → Response
  determine_response_type completeness delivery code =
      if is_fraud_code code
      then by_completeness 8_000 5_000 completeness
      else if is_service_code code
      then if delivery then reject else accept
      else by_completeness 7_000 4_000 completeness

  -- `_calculate_urgency`, on the days that remain
  unfoldable pub calculate_urgency : String → F → F
  unfolding response_window
  calculate_urgency network days =
      if fle days (lit 0)
      then lit 10_000
      else fmax (lit 0)
          (fmin (lit 10_000) (sub (lit 10_000) (div days (of_ℕ (response_window network)))))

  unfoldable pub calculate_confidence : F → Response → F
  calculate_confidence c reject =
      fmin (lit 10_000) (if flt (lit 8_000) c then add c (lit 1_000) else c)
  calculate_confidence c partial = fmin (lit 10_000) c
  calculate_confidence c accept = fmin (lit 10_000) (mul c (lit 8_000))

  abbrev pub deadline_of : Option F → String → F → F
  deadline_of none network now = add now (of_ℕ (response_window network))
  deadline_of (some t) network now = t

  -- `build_rebuttal`, on the collected evidence, with no configuration
  unfoldable pub build_rebuttal : Evidence → String → String → Option F → F → Document F
  unfolding response_window calculate_completeness determine_response_type calculate_urgency
      calculate_confidence
  build_rebuttal e network code given now =
      let c = calculate_completeness e in
      let response = determine_response_type c e.delivery_proof code in
      let deadline = deadline_of given network now in
      record {
        response_type = response;
        response_deadline = deadline;
        generated_at = now;
        response_urgency = f.round4 (calculate_urgency network (sub deadline now));
        confidence_score = f.round4 (calculate_confidence c response);
        contest = contests response;
      }
