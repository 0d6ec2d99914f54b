-- ===== src/Agents/Twice.antt =====
-- agents/worker.py: an order that the API both pushes to Redis and writes to an audit log that the
-- worker can read.
use pay_shield.Prelude.{
  ℕ, suc, ◌+◌, ◌≤◌, ◌<◌, ◌≡◌, sym, ap, ap₂, ◌∙◌, false, none, some, List, [], ◌∷◌, ◌++◌, map, leb,
  if◌then◌else◌, ◌==◌, length, arith, get_or, String,
}
use pay_shield.Agents.Router.{Registered}
use pay_shield.Agents.Worker.{
  Event, Number, absent, number, refused, FeedItem, event, ScoredEntry, Content, Worker,
  route_scored_order, unless_raised, content_of, dispatch_feed, dispatch_file, or_file, tick,
}
use pay_shield.Agents.Feed.{IsAfter}
use pay_shield.Agents.Delivered.{
  route_each, route_each-append, cons_content-some, no_contents, contents, cons_content,
  dispatch_file-grown,
}

module _ {F : Type 0} (zero : F) where
  step_feed :
      (n : ℕ) (e : Event F) (items : List (FeedItem F)) (rs : List (Registered (Content F)))
      (c : Content F)
      → n < 100
      → content_of zero e ≡ some c
      → dispatch_feed zero n (event e ∷ items) rs
        ≡ dispatch_feed zero (suc n) items (route_scored_order rs c)
  unfolding dispatch_feed
  step_feed n e items rs c h p =
      let within : leb 100 n ≡ false = ground arith in
      ap
        (λ b.
          if b
          then (n, (event e ∷ items, rs))
          else unless_raised (content_of zero e) (n, (items, rs))
              (λ x. dispatch_feed zero (suc n) items (route_scored_order rs x)))
        within
      ∙ ap
          (λ o.
            unless_raised o (n, (items, rs))
              (λ x. dispatch_feed zero (suc n) items (route_scored_order rs x)))
          p

  dispatch_feed-contents :
      (n : ℕ) (es : List (Event F)) (rs : List (Registered (Content F))) (cs : List (Content F))
      → n + length es ≤ 100
      → contents zero es ≡ some cs
      → dispatch_feed zero n (map event es) rs ≡ (n + length es, ([], route_each rs cs))
  unfolding dispatch_feed
  dispatch_feed-contents n [] rs cs h k =
      ap₂ (λ x y. (x, ([], route_each rs y))) (omega arith) (no_contents cs k)
  dispatch_feed-contents n (e ∷ es) rs cs h k =
      let (c, (ds, (p, (q, j)))) = cons_content-some (content_of zero e) (contents zero es) cs k in
      step_feed n e (map event es) rs c (omega arith) p
      ∙ dispatch_feed-contents (suc n) es (route_scored_order rs c) ds (omega arith) q
      ∙ ap₂ (λ x y. (x, ([], route_each rs y))) (omega arith) j

  -- what the score route leaves in the log of an order that it also pushes to Redis: the user, masked,
  -- as the actor, and no amount
  abbrev pub event_in_log : (String → String) → Event F → Event F
  event_in_log mask e = record e { user_id = some (mask (get_or e.user_id "")); amount = none }

  -- what the worker makes of it
  abbrev pub without_amount : (String → String) → Content F → Content F
  without_amount mask c = record c {
    user_id = mask c.user_id;
    order = record c.order { amount = zero };
  }

  content_of-event_in_log :
      (mask : String → String) (e : Event F) (c : Content F)
      → content_of zero e ≡ some c
      → content_of zero (event_in_log mask e) ≡ some (without_amount mask c)
  unfolding content_of
  content_of-event_in_log mask e c h = at e.score h
    where
      at :
          (n : Number F)
          → content_of zero (record e { score = n }) ≡ some c
          → content_of zero (event_in_log mask (record e { score = n }))
            ≡ some (without_amount mask c)
      at absent h = ap (λ o. elim o [ none ↦ none | some x ↦ some (without_amount mask x) ]) h
      at (number y) h = ap (λ o. elim o [ none ↦ none | some x ↦ some (without_amount mask x) ]) h
      at refused h = absurd (cc h)

  contents-event_in_log :
      (mask : String → String) (es : List (Event F)) (cs : List (Content F))
      → contents zero es ≡ some cs
      → contents zero (map (event_in_log mask) es) ≡ some (map (without_amount mask) cs)
  contents-event_in_log mask [] cs h =
      ap (λ x. some (map (without_amount mask) x)) (no_contents cs h)
  contents-event_in_log mask (e ∷ es) cs h =
      let (c, (ds, (p, (q, j)))) = cons_content-some (content_of zero e) (contents zero es) cs h in
      ap₂ cons_content (content_of-event_in_log mask e c p) (contents-event_in_log mask es ds q)
      ∙ ap (λ x. some (map (without_amount mask) x)) j

  -- Let at most 100 orders, with scores that `float` takes, wait in Redis, and let the audit log hold
  -- the same orders as the score route writes them, the user masked and without an amount, with
  -- timestamps that strictly rise. If the worker has not read the log before, one round delivers the
  -- orders from Redis, and the next round delivers all of them again from the log, with masked users
  -- and with an amount of 0.
  pub tick_twice :
      (mask : String → String) (w : Worker F) (es : List (Event F)) (log : List (ScoredEntry F))
      (cs : List (Content F))
      → w.last_feed_entry ≡ none
      → 0 < length es
      → length es ≤ 100
      → IsAfter none log
      → map (λ e. e.scored) log ≡ map (event_in_log mask) es
      → contents zero es ≡ some cs
      → let (items, w1) = tick zero w (map event es) log in
        (w1.router ≡ route_each w.router cs)
        × ((tick zero w1 items log).1.router
            ≡ route_each w.router (cs ++ map (without_amount mask) cs))
  unfolding tick dispatch_feed
  tick_twice mask w es log cs l h k o s q =
      let busy : (0 + length es == 0) ≡ false = ground arith in
      let again = map (without_amount mask) cs in
      let w1 : Worker F = record w { router = route_each w.router cs } in
      let first =
        ap (or_file zero w log) (dispatch_feed-contents 0 es w.router cs (omega arith) q)
        ∙ ap (λ b. ([], if b then dispatch_file zero w1 log else w1)) busy in
      let second =
        dispatch_file-grown zero w1 [] log again l o
          (ap (contents zero) s ∙ contents-event_in_log mask es cs q) in
      (
        ap (λ x. x.1.router) first,
        ap (λ x. (tick zero x.1 x.0 log).1.router) first
            ∙ ap (λ x. x.router) second
            ∙ sym (route_each-append w.router cs again),
      )
