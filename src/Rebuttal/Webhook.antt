-- ===== src/Rebuttal/Webhook.antt =====
-- chargeback/signatures.py and api/routes/chargeback_webhook.py. Parameters stand for the digest of
-- HMAC, for the test whether a text is ASCII, for the last word of an event in capitals, and for the
-- evidence that is collected of a payment, none where that raises. Redis is reached through
-- `AsyncRedisClient` of store/redis_client.py.
use pay_shield.Prelude.{
  String, Bool, true, false, ◌||◌, Option, none, some, List, [], ◌∷◌, find_key, put_key, get_or,
  str_eq, if◌then◌else◌,
}
use pay_shield.Prelude.Float.{Float}
use pay_shield.Client.{CallResult, taken, refused, raises}
use pay_shield.Rebuttal.{Evidence, Response, Document, build_rebuttal, calculate_completeness}

-- the entity of an event, with the keys that the code reads
pub record Chargeback : Type 0 where
  pub id : Option String
  pub payment_id : Option String
  pub status : Option String
  pub network : Option String
  pub reason_code : Option String

-- what the webhook puts under `chargeback:dispute:{id}`
pub record Dispute : Type 0 where
  pub payment_id : String
  pub status : String
  pub received_at : String

-- the keys of Redis: a payment leads to the JSON of its transaction, none where it is no JSON
pub record DisputeKeys (F : Type 0) : Type 0 where
  pub disputes : List (String × Dispute)
  pub payment_txns : List (String × Option String)
  pub rebuttals : List (String × Document F)

-- the calls of one event
pub record DisputeCalls : Type 0 where
  pub set_dispute : CallResult
  pub get_payment_txn : CallResult
  pub set_rebuttal : CallResult

-- an entry of the audit log
pub data ChargebackEntry (F : Type 0) : Type 0 where
  received : (event_type decision dispute_id payment_id : String) → ChargebackEntry F
  rebuttal_generated :
      (decision : Response) (dispute_id : String) (confidence completeness : F) → ChargebackEntry F
  outcome_recorded : (decision dispute_id outcome : String) → ChargebackEntry F

pub record Helpers (F : Type 0) : Type 0 where
  pub hexdigest : String → String → String
  pub is_ascii : String → Bool
  pub last_word : String → String
  pub collect : String → Option Evidence

abbrev pub is_missing_text : String → Bool
is_missing_text s = str_eq s ""

-- `status or default`
abbrev pub or_default : String → String → String
or_default s d = if is_missing_text s then d else s

abbrev pub dispute_id_of : Chargeback → String
dispute_id_of c = get_or c.id ""

abbrev pub payment_id_of : Chargeback → String
payment_id_of c = get_or c.payment_id ""

abbrev pub status_of : Chargeback → String
status_of c = get_or c.status ""

module _ {F : Type 0} (py : Helpers F) where
  -- `verify_signature`; none is the error of `compare_digest` on a text that is not ASCII
  unfoldable pub verify_signature : String → String → String → Option Bool
  verify_signature secret payload signature =
      if is_missing_text secret || is_missing_text signature
      then some false
      else if py.is_ascii signature
      then some (str_eq (py.hexdigest secret payload) signature)
      else none

  abbrev pub received_entry : String → Chargeback → ChargebackEntry F
  received_entry event c =
      received (py.last_word event) (or_default (status_of c) "OPEN") (dispute_id_of c)
        (payment_id_of c)

  -- with the marker of the dispute
  abbrev pub marked : DisputeKeys F → Chargeback → String → DisputeKeys F
  marked k c now =
      let marker : Dispute = record {
        payment_id = payment_id_of c;
        status = status_of c;
        received_at = now;
      } in
      record k { disputes = put_key (dispute_id_of c) marker k.disputes }

  module _ ⦃f : Float F⦄ where
    abbrev pub rebuttal_of : Chargeback → Evidence → F → Document F
    rebuttal_of c e at = build_rebuttal e (get_or c.network "UPI") (get_or c.reason_code "") none at

    abbrev pub generated : Chargeback → Evidence → Document F → ChargebackEntry F
    generated c e d =
        rebuttal_generated d.response_type (dispute_id_of c) d.confidence_score
          (calculate_completeness e)

    abbrev pub with_rebuttal : DisputeKeys F → Chargeback → Document F → DisputeKeys F
    with_rebuttal k c d = record k { rebuttals = put_key (dispute_id_of c) d k.rebuttals }

    -- the rebuttal is set, and then noted, whether or not it was kept
    abbrev pub keep_rebuttal :
        CallResult
        → DisputeKeys F
        → Chargeback
        → Option Evidence
        → F
        → DisputeKeys F × List (ChargebackEntry F)
    keep_rebuttal set k c none at = (k, [])
    keep_rebuttal raises k c (some e) at = (k, [])
    keep_rebuttal refused k c (some e) at = (k, generated c e (rebuttal_of c e at) ∷ [])
    keep_rebuttal taken k c (some e) at =
        let d = rebuttal_of c e at in (with_rebuttal k c d, generated c e d ∷ [])

    -- `txn_id_raw`: not there, not JSON, or the id that it holds
    abbrev pub rebut :
        DisputeCalls
        → DisputeKeys F
        → Chargeback
        → Option (Option String)
        → F
        → DisputeKeys F × List (ChargebackEntry F)
    rebut calls k c none at = (k, [])
    rebut calls k c (some none) at = (k, [])
    rebut calls k c (some (some txn)) at =
        if is_missing_text txn
        then (k, [])
        else keep_rebuttal calls.set_rebuttal k c (py.collect txn) at

    -- what the `get` of the payment's transaction leads to
    abbrev pub look_up :
        CallResult
        → DisputeCalls
        → DisputeKeys F
        → Chargeback
        → F
        → DisputeKeys F × List (ChargebackEntry F)
    look_up raises calls k c at = (k, [])
    look_up refused calls k c at = rebut calls k c none at
    look_up taken calls k c at = rebut calls k c (find_key (payment_id_of c) k.payment_txns) at

    -- the branch of `chargeback.created`, with the result of the marker's `set`
    abbrev pub created_dispute :
        CallResult
        → DisputeCalls
        → DisputeKeys F
        → Chargeback
        → String
        → F
        → DisputeKeys F × List (ChargebackEntry F)
    created_dispute raises calls k c now at = (k, [])
    created_dispute refused calls k c now at = look_up calls.get_payment_txn calls k c at
    created_dispute taken calls k c now at =
        look_up calls.get_payment_txn calls (marked k c now) c at

    abbrev pub outcome_entry : Chargeback → ChargebackEntry F
    outcome_entry c =
        outcome_recorded (or_default (status_of c) "CLOSED") (dispute_id_of c) (status_of c)

    abbrev pub handled :
        DisputeCalls
        → DisputeKeys F
        → String
        → Chargeback
        → String
        → F
        → DisputeKeys F × List (ChargebackEntry F)
    handled calls k event c now at =
        if str_eq event "chargeback.created"
        then created_dispute calls.set_dispute calls k c now at
        else if str_eq event "chargeback.closed"
        then (k, outcome_entry c ∷ [])
        else (k, [])

    -- `process_chargeback_event`, with the time that the marker has and the one that the rebuttal has:
    -- the keys afterwards, and the entries that it hands to the audit writer
    unfoldable pub process_chargeback_event :
        DisputeCalls
        → DisputeKeys F
        → String
        → Option Chargeback
        → String
        → F
        → DisputeKeys F × List (ChargebackEntry F)
    process_chargeback_event calls k event none now at = (k, [])
    process_chargeback_event calls k event (some c) now at =
        let (k2, entries) = handled calls k event c now at in (k2, received_entry event c ∷ entries)

-- the answers of the route
pub data Answer : Type 0 where
  invalid_signature processed server_error : Answer

abbrev pub answer_of : {A : Type 0} → Option Bool → Option A → Answer × Option A
answer_of none body = (server_error, none)
answer_of (some false) body = (invalid_signature, none)
answer_of (some true) none = (server_error, none)
answer_of (some true) (some e) = (processed, some e)

-- `razorpay_chargeback_webhook`, with the event that its task is given. `body` is what the payload
-- holds as JSON, none where it is not.
unfoldable pub razorpay_chargeback_webhook :
    {F : Type 0}
    → Helpers F
    → String
    → String
    → String
    → Option (String × Option Chargeback)
    → Answer × Option (String × Option Chargeback)
unfolding verify_signature
razorpay_chargeback_webhook py secret payload signature body =
    answer_of (verify_signature py secret payload signature) body
