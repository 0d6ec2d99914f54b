-- ===== src/ReturnRisk/Route.antt =====
-- api/routes/return_risk.py: what the routes do to Redis, to the audit queue and to the feed of the
-- agents. The update of the profile is a task that runs after the answer. The audit queue is that of
-- `AsyncAuditLogger.append` in store/audit_log.py, which drops an entry when it is full. The readings of the clock
-- are arguments.
use Prim.Native.String.{◌++◌ as join}
use pay_shield.Prelude.{
  find_key, put_key, ℕ, String, Bool, false, Option, none, some, List, [], ◌∷◌, ◌++◌, get_or, ◌||◌,
  ◌==◌, ltb, length, if◌then◌else◌, ◌>>=◌,
}
use pay_shield.Client.{CallResult}
use pay_shield.Prelude.Float.{Float}
use pay_shield.ReturnRisk.Rules.{Raw, object, Feature, Features}
use pay_shield.ReturnRisk.Recommend.{Tier}
use pay_shield.ReturnRisk.Scorer.{Scorer, Assessment, score}
use pay_shield.ReturnRisk.Store.{UserKeys, MerchantKeys, Redis, Calls, no_keys, no_merchant}
use pay_shield.ReturnRisk.Extract.{feature, Priors, extract_user, extract_merchant}
use pay_shield.ReturnRisk.Context.{
  Stamp, OrderContext, Outside, is_blank, record_address_user, compute_transaction_features,
}
use pay_shield.ReturnRisk.Profile.{Update, try_update}

-- api/schemas/return_risk.py
pub record ShippingAddress : Type 0 where
  pub city : String
  pub state : String
  pub pincode : String

pub record ReturnScoreRequest (F : Type 0) : Type 0 where
  pub order_id : String
  pub user_id : String
  pub merchant_id : String
  pub amount : F
  pub category : String
  pub payment_method : String
  pub cod_flag : Bool
  pub shipping_address : Option ShippingAddress
  pub device_fingerprint : String
  pub timestamp : Stamp

abbrev city_and_state : String → String → String
city_and_state city state =
    if is_blank city then state else if is_blank state then city else join (join city ", ") state

-- `_address_key`
abbrev pub address_key : Option ShippingAddress → String
address_key none = ""
address_key (some a) = if is_blank a.pincode then city_and_state a.city a.state else a.pincode

-- the event RETURN_RISK_SCORED or RETURN_RISK_UPDATED, with its payload
pub data AuditEvent (F : Type 0) : Type 0 where
  risk_scored :
      (actor : String) (decision : Tier) (order_id merchant_id : String) (score : F) (tier : Tier)
      → AuditEvent F
  risk_updated :
      (actor : String) (returned : Bool) (order_id : String) (return_reason : Option String)
      → AuditEvent F

-- what `_publish_agent_feed` pushes
pub record FeedMessage (F : Type 0) : Type 0 where
  pub user_id : String
  pub order_id : String
  pub merchant_id : String
  pub score : F
  pub tier : Tier
  pub amount : F

-- a profile to refresh
pub record Task (F : Type 0) : Type 0 where
  pub user_id : String
  pub order_id : String
  pub amount : F
  pub cod_flag : Bool
  pub returned : Bool
  pub return_reason : Option String

pub record ReturnWorld (F : Type 0) : Type 0 where
  pub redis : Redis F
  pub max_queue : ℕ
  pub events : List (AuditEvent F)
  pub feed : List (FeedMessage F)
  pub tasks : List (Task F)

module _ {F : Type 0} where
  abbrev pub keys_of : Redis F → String → UserKeys F
  keys_of r u = get_or (find_key u r.users) no_keys

  abbrev pub merchant_keys : Redis F → String → MerchantKeys F
  merchant_keys r m = get_or (find_key m r.merchants) no_merchant

  abbrev pub order_of : ReturnScoreRequest F → OrderContext F
  order_of q = record {
    user_id = q.user_id;
    merchant_id = q.merchant_id;
    category = q.category;
    amount = q.amount;
    cod_flag = q.cod_flag;
    timestamp = q.timestamp;
    payment_method = q.payment_method;
    device_fingerprint = q.device_fingerprint;
    shipping_address = address_key q.shipping_address;
  }

  abbrev pub scored_event : ReturnScoreRequest F → Assessment F → AuditEvent F
  scored_event q a =
      risk_scored q.user_id a.risk_tier q.order_id q.merchant_id a.return_risk_score a.risk_tier

  abbrev pub feed_message : ReturnScoreRequest F → Assessment F → FeedMessage F
  feed_message q a = record {
    user_id = q.user_id;
    order_id = q.order_id;
    merchant_id = q.merchant_id;
    score = a.return_risk_score;
    tier = a.risk_tier;
    amount = q.amount;
  }

  -- the task that the route adds
  abbrev pub refresh : ReturnScoreRequest F → Task F
  refresh q = record {
    user_id = q.user_id;
    order_id = q.order_id;
    amount = q.amount;
    cod_flag = q.cod_flag;
    returned = false;
    return_reason = none;
  }

  -- `put_nowait`: a size of 0 is no bound, and a full queue drops the event
  abbrev pub queued : ℕ → List (AuditEvent F) → AuditEvent F → List (AuditEvent F)
  queued max_queue events e =
      if max_queue == 0 || ltb (length events) max_queue then events ++ e ∷ [] else events

  -- what follows the score; `rpush` says whether Redis takes the message
  abbrev pub answered :
      ReturnWorld F
      → ReturnScoreRequest F
      → Bool
      → Option (Assessment F)
      → ReturnWorld F × Option (Assessment F)
  answered w q rpush none = (w, none)
  answered w q rpush (some a) = (
    record w {
      tasks = w.tasks ++ refresh q ∷ [];
      events = queued w.max_queue w.events (scored_event q a);
      feed = if rpush then w.feed ++ feed_message q a ∷ [] else w.feed;
    },
    some a,
  )

  module _ ⦃f : Float F⦄ where
    -- `_meta` has no "source"; Python's None is written so
    abbrev pub meta : String × Feature F
    meta = feature "_meta" (object "{...}") "None"

    abbrev pub with_context : Features F → Features F → Option (Features F) → Option (Features F)
    with_context user merchant none = none
    with_context user merchant (some txn) = some (user ++ merchant ++ txn ++ meta ∷ [])

  module _ ⦃f : Float F⦄ (py : Outside F) (p : Priors F) (calls : Calls) where
    -- `extract_features`, with the Redis that it leaves and the clock's seconds
    unfoldable pub extract_features : Redis F → OrderContext F → ℕ → Redis F × Option (Features F)
    unfolding record_address_user compute_transaction_features
    extract_features r o now =
        let user = extract_user py.loads p.default_prior calls (keys_of r o.user_id) now in
        let merchant = extract_merchant p calls (merchant_keys r o.merchant_id) o.category in
        let (addresses, shared) =
          record_address_user py calls r.addresses o.shipping_address o.user_id in
        let txn = compute_transaction_features py p o merchant user shared in
        (record r { addresses = addresses }, with_context user merchant txn)

    module _ (eval : String → List (String × Raw F) → Option Bool) (s : Scorer F) where
      -- `scorer.score` on a request, with the Redis that it leaves
      abbrev pub score_order : Redis F → ReturnScoreRequest F → ℕ → Redis F × Option (Assessment F)
      score_order r q now =
          let (r2, fs) = extract_features r (order_of q) now in (r2, fs >>= score eval s)

      -- `explain_return_risk`: the Redis that it leaves, and what the attribution is made of
      unfoldable pub explain_return_risk :
          ReturnWorld F → ReturnScoreRequest F → ℕ → ReturnWorld F × Option (Assessment F)
      unfolding extract_features
      explain_return_risk w q now =
          let (r, a) = score_order w.redis q now in (record w { redis = r }, a)

      -- `score_return_risk`, up to its answer; none is an exception
      unfoldable pub score_return_risk :
          ReturnWorld F → ReturnScoreRequest F → ℕ → Bool → ReturnWorld F × Option (Assessment F)
      unfolding extract_features
      score_return_risk w q now rpush =
          let (r, a) = score_order w.redis q now in answered (record w { redis = r }) q rpush a

  abbrev put_keys : Redis F → String → UserKeys F → Redis F
  put_keys r u k = record r { users = put_key u k r.users }

  -- the arguments of `update_user_profile`, which reads the clock when it runs
  abbrev pub update_of : Task F → ℕ → String → Update F
  update_of t now utcnow = record {
    order_id = t.order_id;
    amount = t.amount;
    cod_flag = t.cod_flag;
    returned = t.returned;
    return_reason = t.return_reason;
    now = now;
    utcnow = utcnow;
  }

  module _ ⦃f : Float F⦄ where
    -- the task as it runs, with the results of its calls
    unfoldable pub run_task : List CallResult → Task F → ℕ → String → ReturnWorld F → ReturnWorld F
    unfolding try_update
    run_task rs t now utcnow w =
        let (keys, ended) = try_update rs (update_of t now utcnow) (keys_of w.redis t.user_id) in
        record w { redis = put_keys w.redis t.user_id keys }

    -- `update_return_status`: where no call raises, the event follows
    unfoldable pub update_return_status :
        List CallResult → ReturnWorld F → Task F → ℕ → String → ReturnWorld F
    unfolding try_update
    update_return_status rs w t now utcnow =
        let (keys, ended) = try_update rs (update_of t now utcnow) (keys_of w.redis t.user_id) in
        let event = risk_updated t.user_id t.returned t.order_id t.return_reason in
        record w {
          redis = put_keys w.redis t.user_id keys;
          events = if ended then queued w.max_queue w.events event else w.events;
        }
