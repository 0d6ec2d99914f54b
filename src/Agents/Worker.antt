-- ===== src/Agents/Worker.antt =====
-- agents/worker.py: the feed of scored orders, from the list in Redis or from the audit log. `F` is the
-- type of numbers of an order, and `zero` its 0. A tick is one round of `_feed_loop`.
use pay_shield.Prelude.{
  ℕ, suc, String, Bool, true, false, Option, none, some, List, [], ◌∷◌, filter, get_or, leb, ltb,
  if◌then◌else◌, ◌==◌,
}
use pay_shield.Agents.Router.{AgentMessage, Registered, route}

-- a number of a JSON object: missing or falsy, one that `float` refuses, or one that it takes
pub data Number (F : Type 0) : Type 0 where
  absent refused : Number F
  number : F → Number F

-- what both sources say of a scored order
pub record Event (F : Type 0) : Type 0 where
  pub user_id : Option String
  pub order_id : Option String
  pub merchant_id : Option String
  pub score : Number F
  pub tier : Option String
  pub amount : Option F

-- an item of the list in Redis: not JSON, no object, or an object
pub data FeedItem (F : Type 0) : Type 0 where
  corrupt foreign : FeedItem F
  event : Event F → FeedItem F

-- a `RETURN_RISK_SCORED` entry of the audit log, with its timestamp
pub record ScoredEntry (F : Type 0) : Type 0 where
  pub timestamp : ℕ
  pub scored : Event F

pub record Order (F : Type 0) : Type 0 where
  pub order_id : String
  pub merchant_id : String
  pub score : F
  pub tier : String
  pub amount : F

-- the content of the message about an order
pub record Content (F : Type 0) : Type 0 where
  pub user_id : String
  pub order : Order F

pub record Worker (F : Type 0) : Type 0 where
  pub router : List (Registered (Content F))
  pub last_feed_entry : Option ℕ

-- `self._last_feed_entry and ts and ts <= self._last_feed_entry` does not hold
abbrev pub is_new : Option ℕ → ℕ → Bool
is_new none t = true
is_new (some l) t = ltb l t

-- what follows a call that gave a value, and what is left if it raised
abbrev pub unless_raised : {A B : Type 0} → Option A → B → (A → B) → B
unless_raised none b k = b
unless_raised (some a) b k = k a

module _ {F : Type 0} where
  abbrev message : String → Content F → AgentMessage (Content F)
  message to c = record { sender = "worker"; recipient = to; content = c }

  -- `_route_scored_order`
  unfoldable pub route_scored_order :
      List (Registered (Content F)) → Content F → List (Registered (Content F))
  route_scored_order rs c =
      route (route rs (message "transaction_agent" c)) (message "profile_agent" c)

  abbrev pub last_timestamp : ℕ → List (ScoredEntry F) → ℕ
  last_timestamp t [] = t
  last_timestamp t (e ∷ es) = last_timestamp e.timestamp es

module _ {F : Type 0} (zero : F) where
  -- `float(score or 0.0)`
  abbrev float_of : Number F → Option F
  float_of absent = some zero
  float_of refused = none
  float_of (number x) = some x

  abbrev pub content_with : Event F → F → Content F
  content_with e x = record {
    user_id = get_or e.user_id "";
    order = record {
      order_id = get_or e.order_id "";
      merchant_id = get_or e.merchant_id "";
      score = x;
      tier = get_or e.tier "LOW";
      amount = get_or e.amount zero;
    };
  }

  -- the arguments of `_route_scored_order`; `none` is an exception
  unfoldable pub content_of : Event F → Option (Content F)
  content_of e = elim (float_of e.score) [ none ↦ none | some x ↦ some (content_with e x) ]

  -- the loop of `_dispatch_from_redis_feed`, which has delivered n orders: their number, what is left
  -- in Redis, and the router
  unfoldable pub dispatch_feed :
      ℕ
      → List (FeedItem F)
      → List (Registered (Content F))
      → ℕ × (List (FeedItem F) × List (Registered (Content F)))
  unfolding route_scored_order content_of
  dispatch_feed n [] rs = (n, ([], rs))
  dispatch_feed n (corrupt ∷ items) rs =
      let rest = dispatch_feed n items rs in if leb 100 n then (n, (corrupt ∷ items, rs)) else rest
  dispatch_feed n (foreign ∷ items) rs =
      if leb 100 n then (n, (foreign ∷ items, rs)) else (n, (items, rs))
  dispatch_feed n (event e ∷ items) rs =
      let rest =
        unless_raised (content_of e) (n, (items, rs))
          (λ c. dispatch_feed (suc n) items (route_scored_order rs c)) in
      if leb 100 n then (n, (event e ∷ items, rs)) else rest

  -- the loop of `_dispatch_from_audit_file`, and whether it came to its end
  unfoldable pub dispatch_entries :
      List (ScoredEntry F) → List (Registered (Content F)) → Bool × List (Registered (Content F))
  unfolding route_scored_order content_of
  dispatch_entries [] rs = (true, rs)
  dispatch_entries (e ∷ es) rs =
      unless_raised (content_of e.scored) (false, rs)
        (λ c. dispatch_entries es (route_scored_order rs c))

  -- the worker after the entries that are new
  abbrev pub dispatched : Worker F → ℕ → Bool × List (Registered (Content F)) → Worker F
  dispatched w t (true, rs) = record { router = rs; last_feed_entry = some t }
  dispatched w t (false, rs) = record w { router = rs }

  abbrev pub dispatch_new : Worker F → ℕ → List (ScoredEntry F) → Worker F
  dispatch_new w t [] = w
  dispatch_new w t (e ∷ es) = dispatched w t (dispatch_entries (e ∷ es) w.router)

  -- `_dispatch_from_audit_file`, on the entries that the reader gives
  unfoldable pub dispatch_file : Worker F → List (ScoredEntry F) → Worker F
  unfolding dispatch_entries
  dispatch_file w [] = w
  dispatch_file w (e ∷ es) =
      dispatch_new w (last_timestamp e.timestamp es)
        (filter (λ x. is_new w.last_feed_entry x.timestamp) (e ∷ es))

  -- the fallback, when nothing was delivered
  abbrev pub or_file :
      Worker F
      → List (ScoredEntry F)
      → ℕ × (List (FeedItem F) × List (Registered (Content F)))
      → List (FeedItem F) × Worker F
  or_file w log (n, (items, rs)) =
      let w' : Worker F = record w { router = rs } in
      (items, if n == 0 then dispatch_file w' log else w')

  -- `_dispatch_new_scored`, on what Redis and the log hold; an unreachable Redis gives no items
  unfoldable pub tick :
      Worker F → List (FeedItem F) → List (ScoredEntry F) → List (FeedItem F) × Worker F
  unfolding dispatch_feed dispatch_file
  tick w items log = or_file w log (dispatch_feed 0 items w.router)
