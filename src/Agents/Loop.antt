-- ===== src/Agents/Loop.antt =====
-- agents/base.py, `BaseAgent`: the life of an agent as steps. Between two steps the loop of `run` is not
-- running, waits for a message, or handles one; `stop` may come at any of these points. A wait that
-- ends at its limit takes no message.
use mathlib.Core.List.{append-nil, append_assoc}
use pay_shield.Prelude.{
  ◌≡◌, refl, sym, ap, ◌∙◌, Bool, true, false, List, [], ◌∷◌, ◌++◌, if◌then◌else◌,
}

-- agents/state.py, `AgentState`
pub data AgentState : Type 0 where
  idle processing waiting error terminated : AgentState

pub data Phase (C : Type 0) : Type 0 where
  outside receiving : Phase C
  handling : C → Phase C

pub record Agent (C : Type 0) : Type 0 where
  pub state : AgentState
  pub is_running : Bool
  pub message_queue : List C
  pub phase : Phase C
  pub taken : List C  -- the messages that `receive_message` has returned

module _ {C : Type 0} where
  abbrev pub idle_agent : Agent C
  idle_agent = record {
    state = idle;
    is_running = false;
    message_queue = [];
    phase = outside;
    taken = [];
  }

  -- `while self._running`
  abbrev pub looped : Agent C → AgentState → Agent C
  looped a s = record a { state = s; phase = if a.is_running then receiving else outside }

  abbrev pub started : Agent C → Agent C
  started a = record a { state = idle; is_running = true }

  abbrev pub stopped : Agent C → Agent C
  stopped a = record a { state = terminated; is_running = false }

  -- `run`, up to the first wait
  abbrev pub run : Agent C → Agent C
  run a = if a.is_running then record a { state = processing; phase = receiving } else a

  abbrev pub enqueued : Agent C → C → Agent C
  enqueued a m = record a { message_queue = a.message_queue ++ m ∷ [] }

  -- the step from one agent to the next
  pub data Step : Agent C → Agent C → Type 0 where
    start : {a : Agent C} → Step a (started a)
    stop : {a : Agent C} → Step a (stopped a)
    enter : {a : Agent C} → a.phase ≡ outside → Step a (run a)
    deliver : {a : Agent C} → (m : C) → Step a (enqueued a m)
    receive :
        {a : Agent C} {m : C} {ms : List C}
        → a.phase ≡ receiving
        → a.message_queue ≡ m ∷ ms
        → Step a (record a {
          state = processing;
          message_queue = ms;
          phase = handling m;
          taken = a.taken ++ m ∷ [];
        })
    timeout : {a : Agent C} → a.phase ≡ receiving → Step a (looped a idle)
    answer : {a : Agent C} {m : C} → a.phase ≡ handling m → Step a (looped a idle)
    fail : {a : Agent C} {m : C} → a.phase ≡ handling m → Step a (looped a error)

  -- the message that a step delivers
  abbrev pub delivered : {a b : Agent C} → Step a b → List C
  delivered (deliver m) = m ∷ []
  delivered _ = []

  -- an agent that a new one becomes, with the messages that were delivered on the way
  pub data Reachable : Agent C → List C → Type 0 where
    created : Reachable idle_agent []
    next :
        {a b : Agent C} {ms : List C}
        → Reachable a ms
        → (s : Step a b) → Reachable b (ms ++ delivered s)

  step_fifo :
      {a b : Agent C} (ms : List C) (s : Step a b)
      → a.taken ++ a.message_queue ≡ ms
      → b.taken ++ b.message_queue ≡ ms ++ delivered s
  step_fifo ms start h = h ∙ sym (append-nil ms)
  step_fifo ms stop h = h ∙ sym (append-nil ms)
  step_fifo {a = a} ms (enter p) h = entered a.is_running ∙ h ∙ sym (append-nil ms)
    where
      entered :
          (b : Bool)
          → (if b then record a { state = processing; phase = receiving } else a).taken
              ++ (if b then record a { state = processing; phase = receiving } else a).message_queue
            ≡ a.taken ++ a.message_queue
      entered true = refl
      entered false = refl
  step_fifo {a = a} ms (deliver m) h =
      sym (append_assoc a.taken a.message_queue (m ∷ [])) ∙ ap (λ xs. xs ++ m ∷ []) h
  step_fifo {a = a} ms (receive {m = m} {ms = rest} p q) h =
      append_assoc a.taken (m ∷ []) rest
      ∙ ap (λ xs. a.taken ++ xs) (sym q)
      ∙ h
      ∙ sym (append-nil ms)
  step_fifo ms (timeout p) h = h ∙ sym (append-nil ms)
  step_fifo ms (answer p) h = h ∙ sym (append-nil ms)
  step_fifo ms (fail p) h = h ∙ sym (append-nil ms)

  -- However an agent is started, stopped, timed out or made to fail, the messages that it has taken,
  -- followed by those that wait in its queue, are the messages that were delivered to it, each once
  -- and in the order of delivery.
  pub taken-Reachable :
      (a : Agent C) (ms : List C) → Reachable a ms → a.taken ++ a.message_queue ≡ ms
  taken-Reachable a ms created = refl
  taken-Reachable b ms (next {ms = before} r s) = step_fifo before s (taken-Reachable _ before r)

  -- An agent that is stopped while it handles a message is IDLE, not TERMINATED, once it has answered.
  stopped_idle :
      (a : Agent C) (ms : List C) (m : C)
      → Reachable a ms
      → a.phase ≡ handling m
      → (b : Agent C) × ((ns : List C) × (Reachable b ns
            × ((b.state ≡ idle) × ((b.is_running ≡ false) × (b.phase ≡ outside)))))
  stopped_idle a ms m r p =
      (looped (stopped a) idle, (_, (next (next r stop) (answer p), (refl, (refl, refl)))))
