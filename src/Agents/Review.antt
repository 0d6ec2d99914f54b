-- ===== src/Agents/Review.antt =====
-- agents/human_review_agent.py: the feedback of analysts and the accuracy of agents. The ids and dates
-- of the log are left out; the share of correct answers is a fraction.
use mathlib.Core.List.{append-nil, append_assoc}
use pay_shield.Prelude.{
  ℕ, suc, String, ◌≡◌, refl, sym, ap, ◌∙◌, Bool, true, false, List, [], ◌∷◌, ◌++◌, map, length,
  str_eq, if◌then◌else◌,
}

pub record Feedback : Type 0 where
  pub txn_id : String
  pub original_decision : String
  pub analyst_decision : String
  pub analyst_id : String
  pub reason : String

pub record ReviewAgent : Type 0 where
  pub feedback_log : List (Feedback × Bool)
  pub agent_accuracy : List (String × List Bool)

abbrev pub new_agent : ReviewAgent
new_agent = record { feedback_log = []; agent_accuracy = [] }

abbrev pub is_correct : Feedback → Bool
is_correct x = str_eq x.original_decision x.analyst_decision

-- `self._agent_accuracy[agent_type].append(b)` for each key
abbrev pub append_each : Bool → List (String × List Bool) → List (String × List Bool)
append_each b [] = []
append_each b ((k, bs) ∷ rest) = (k, bs ++ b ∷ []) ∷ append_each b rest

-- the changes of `_handle_feedback`
unfoldable pub handle_feedback : ReviewAgent → Feedback → ReviewAgent
handle_feedback a x = record {
  feedback_log = a.feedback_log ++ (x, is_correct x) ∷ [];
  agent_accuracy = append_each (is_correct x) a.agent_accuracy;
}

unfoldable pub handle_all : ReviewAgent → List Feedback → ReviewAgent
unfolding handle_feedback
handle_all a [] = a
handle_all a (x ∷ xs) = handle_all (handle_feedback a x) xs

abbrev pub results_of : String → List (String × List Bool) → List Bool
results_of k [] = []
results_of k ((j, bs) ∷ rest) = let later = results_of k rest in if str_eq j k then bs else later

abbrev count_true : List Bool → ℕ
count_true [] = 0
count_true (true ∷ bs) = suc (count_true bs)
count_true (false ∷ bs) = count_true bs

-- a fraction, with 0.5 where there are no results
abbrev share : List Bool → ℕ × ℕ
share [] = (1, 2)
share (b ∷ bs) = (count_true (b ∷ bs), length (b ∷ bs))

unfoldable pub get_accuracy : ReviewAgent → String → ℕ × ℕ
get_accuracy a k = share (results_of k a.agent_accuracy)

feedback_log-handle_all :
    (a : ReviewAgent) (xs : List Feedback)
    → (handle_all a xs).feedback_log ≡ a.feedback_log ++ map (λ x. (x, is_correct x)) xs
unfolding handle_all
feedback_log-handle_all a [] = sym (append-nil a.feedback_log)
feedback_log-handle_all a (x ∷ xs) =
    feedback_log-handle_all (handle_feedback a x) xs
    ∙ append_assoc a.feedback_log ((x, is_correct x) ∷ []) (map (λ y. (y, is_correct y)) xs)

agent_accuracy-handle_all :
    (a : ReviewAgent) (xs : List Feedback)
    → a.agent_accuracy ≡ []
    → (handle_all a xs).agent_accuracy ≡ []
unfolding handle_all
agent_accuracy-handle_all a [] h = h
agent_accuracy-handle_all a (x ∷ xs) h =
    agent_accuracy-handle_all (handle_feedback a x) xs (ap (append_each (is_correct x)) h)

-- Whatever feedback an agent has had since it was made, it logs all of it in order, and yet the
-- accuracy that it gives for every type of agent is 0.5.
pub get_accuracy-handle_all :
    (xs : List Feedback) (k : String)
    → ((handle_all new_agent xs).feedback_log ≡ map (λ x. (x, is_correct x)) xs)
      × (get_accuracy (handle_all new_agent xs) k ≡ (1, 2))
unfolding get_accuracy
get_accuracy-handle_all xs k = (
  feedback_log-handle_all new_agent xs,
  ap (λ m. share (results_of k m)) (agent_accuracy-handle_all new_agent xs refl),
)
