-- ===== src/Agents/Tests.antt =====
-- Runs of the agents on small inputs.
use pay_shield.Prelude.{◌≡◌, refl, false, none, some, List, [], ◌∷◌, ◌++◌, map, arith, String}
use pay_shield.Prelude.Int.{ℤ, pos}
use pay_shield.Prelude.Float.Fixed.{fixed}
use pay_shield.Agents.Router.{AgentMessage, Registered}
use pay_shield.Agents.Loop.{Agent, processing, handling, idle_agent, started, run, enqueued}
use pay_shield.Agents.Worker.{
  Event, number, absent, event, ScoredEntry, Content, Worker, content_of, tick,
}
use pay_shield.Agents.Delivered.{route_each, rounds, rounds_deliver}
use pay_shield.Agents.Twice.{event_in_log, without_amount, tick_twice}
use pay_shield.Agents.Profile.{Sighting, Profiles, update_all}
use pay_shield.Agents.History.{Represents, update_all-Represents}
use pay_shield.Agents.Review.{Feedback}

abbrev agents : List (Registered String)
agents =
    record { agent_id = "profile_agent"; message_queue = [] }
    ∷ record { agent_id = "worker"; message_queue = [] }
    ∷ []

abbrev hello : AgentMessage String
hello = record { sender = "profile_agent"; recipient = "broadcast"; content = "hello" }

abbrev order : Event ℤ
order = record {
  user_id = some "u1";
  order_id = some "o1";
  merchant_id = none;
  score = number (pos 7_000);
  tier = none;
  amount = some (pos 9_000);
}

abbrev unscored : Event ℤ
unscored = record order { score = absent }

abbrev log : List (ScoredEntry ℤ)
log = record { timestamp = 4; scored = order } ∷ record { timestamp = 7; scored = unscored } ∷ []

abbrev both : List (Content ℤ)
both =
    record {
      user_id = "u1";
      order = record {
        order_id = "o1";
        merchant_id = "";
        score = pos 7_000;
        tier = "LOW";
        amount = pos 9_000;
      };
    }
    ∷ record {
      user_id = "u1";
      order = record {
        order_id = "o1";
        merchant_id = "";
        score = pos 0;
        tier = "LOW";
        amount = pos 9_000;
      };
    }
    ∷ []

abbrev workers : List (Registered (Content ℤ))
workers =
    record { agent_id = "transaction_agent"; message_queue = [] }
    ∷ record { agent_id = "profile_agent"; message_queue = [] }
    ∷ []

abbrev worker : Worker ℤ
worker = record { router = workers; last_feed_entry = none }

rounds_deliver_example : (rounds (pos 0) worker [] (log ∷ [] ∷ [])).router ≡ route_each workers both
unfolding content_of
rounds_deliver_example =
    rounds_deliver (pos 0) worker [] (log ∷ [] ∷ []) both refl (refl, (refl, tt)) refl

abbrev masked : List (ScoredEntry ℤ)
masked =
    record { timestamp = 4; scored = event_in_log (pos 0) (λ s. "****") order }
    ∷ record { timestamp = 7; scored = event_in_log (pos 0) (λ s. "****") unscored }
    ∷ []

tick_twice_example :
    let (items, w1) = tick (pos 0) worker (map event (order ∷ unscored ∷ [])) masked in
    (w1.router ≡ route_each workers both)
    × ((tick (pos 0) w1 items masked).1.router
        ≡ route_each workers (both ++ map (without_amount (pos 0) (λ s. "****")) both))
unfolding content_of
tick_twice_example =
    tick_twice (pos 0) (λ s. "****") worker (order ∷ unscored ∷ []) masked both refl (omega arith)
      (omega arith) (refl, (refl, tt)) refl refl

abbrev seen : List (Sighting ℤ)
seen =
    record {
      user_id = "u1";
      amount = pos 9_000;
      score = pos 7_000;
      cod_flag = false;
      category = "";
    }
    ∷ []

abbrev nobody : Profiles ℤ
nobody = record { profiles = λ u. none; history = λ u. [] }

update_all-Represents_example : Represents (update_all nobody seen) ([] ++ seen)
update_all-Represents_example = update_all-Represents nobody [] seen (λ u. (refl, refl))

abbrev overruled : Feedback
overruled = record {
  txn_id = "t1";
  original_decision = "BLOCK";
  analyst_decision = "ALLOW";
  analyst_id = "a1";
  reason = "known customer";
}

abbrev greeted : Agent String
greeted = record (enqueued (run (started idle_agent)) "hello") {
  state = processing;
  message_queue = [];
  phase = handling "hello";
  taken = "hello" ∷ [];
}
