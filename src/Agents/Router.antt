-- ===== src/Agents/Router.antt =====
-- agents/message.py, `MessageRouter`. The dict of agents is a list in the order of registration; of an
-- agent the router only uses its unbounded queue. `C` is the type of the contents of messages.
use pay_shield.Prelude.{
  String, ◌≡◌, refl, sym, ap, ◌∙◌, Bool, true, false, Bool-cases, inl, inr, Option, none, some,
  List, [], ◌∷◌, ◌++◌, str_eq, eq_iff, if◌then◌else◌, not, false≢true,
}
use mathlib.Core.List.{append-nil}

pub record AgentMessage (C : Type 0) : Type 0 where
  pub sender : String
  pub recipient : String
  pub content : C

pub record Registered (C : Type 0) : Type 0 where
  pub agent_id : String
  pub message_queue : List (AgentMessage C)

-- a test against x is one against y, if x and y are equal texts
same_test : (x y z : String) → str_eq x y ≡ true → str_eq y z ≡ str_eq x z
same_test x y z h = ap (λ w. str_eq w z) (sym ((eq_iff x y).0 h))

same_text : {x y : String} → str_eq x y ≡ true → x ≡ y
same_text {x = x} {y = y} h = (eq_iff x y).0 h

module _ {C : Type 0} where
  unfoldable pub register_agent :
      List (Registered C) → String → List (AgentMessage C) → List (Registered C)
  register_agent [] i q = record { agent_id = i; message_queue = q } ∷ []
  register_agent (a ∷ rs) i q =
      let rest = register_agent rs i q in
      if str_eq a.agent_id i then record a { message_queue = q } ∷ rs else a ∷ rest

  unfoldable pub unregister_agent : List (Registered C) → String → List (Registered C)
  unregister_agent [] i = []
  unregister_agent (a ∷ rs) i =
      let rest = unregister_agent rs i in if str_eq a.agent_id i then rs else a ∷ rest

  -- `self._agents[i].message_queue`, if the agent is registered
  unfoldable pub queue_of : List (Registered C) → String → Option (List (AgentMessage C))
  queue_of [] i = none
  queue_of (a ∷ rs) i =
      let rest = queue_of rs i in if str_eq a.agent_id i then some a.message_queue else rest

  abbrev put : AgentMessage C → Registered C → Registered C
  put m a = record a { message_queue = a.message_queue ++ m ∷ [] }

  -- the branch of `route` for a named recipient; one that is not registered is passed over
  unfoldable pub route_to : List (Registered C) → String → AgentMessage C → List (Registered C)
  route_to [] i m = []
  route_to (a ∷ rs) i m =
      let rest = route_to rs i m in if str_eq a.agent_id i then put m a ∷ rs else a ∷ rest

  -- `_broadcast`
  unfoldable pub broadcast : List (Registered C) → AgentMessage C → List (Registered C)
  broadcast [] m = []
  broadcast (a ∷ rs) m =
      let rest = broadcast rs m in if str_eq a.agent_id m.sender then a ∷ rest else put m a ∷ rest

  unfoldable pub route : List (Registered C) → AgentMessage C → List (Registered C)
  unfolding route_to broadcast
  route rs m = if str_eq m.recipient "broadcast" then broadcast rs m else route_to rs m.recipient m

  -- what a message adds to the queue of an agent
  abbrev pub is_addressed : AgentMessage C → String → Bool
  is_addressed m i =
      if str_eq m.recipient "broadcast" then not (str_eq i m.sender) else str_eq i m.recipient

  abbrev pub received :
      Option (List (AgentMessage C)) → List (AgentMessage C) → Option (List (AgentMessage C))
  received none ms = none
  received (some q) ms = some (q ++ ms)

  abbrev pub when_addressed : Bool → AgentMessage C → List (AgentMessage C)
  when_addressed b m = if b then m ∷ [] else []

  received-nil : (q : Option (List (AgentMessage C))) → received q [] ≡ q
  received-nil none = refl
  received-nil (some q) = ap some (append-nil q)

  queue_of-broadcast :
      (rs : List (Registered C)) (m : AgentMessage C) (i : String)
      → queue_of (broadcast rs m) i
        ≡ received (queue_of rs i) (when_addressed (not (str_eq i m.sender)) m)
  unfolding queue_of broadcast
  queue_of-broadcast [] m i = refl
  queue_of-broadcast (a ∷ rs) m i = elim (Bool-cases (str_eq a.agent_id i)) [
    | inl e ↦ elim (Bool-cases (str_eq a.agent_id m.sender)) [
      | inl s ↦
          rw (s, e, same_test a.agent_id i m.sender e ∙ s)
            (sym (received-nil (some a.message_queue)))
      | inr s ↦ rw (s, e, same_test a.agent_id i m.sender e ∙ s) refl
    ]
    | inr e ↦ elim (Bool-cases (str_eq a.agent_id m.sender)) [
      | inl s ↦ rw (s, e) (queue_of-broadcast rs m i)
      | inr s ↦ rw (s, e) (queue_of-broadcast rs m i)
    ]
  ]

  queue_of-route_to :
      (rs : List (Registered C)) (m : AgentMessage C) (j i : String)
      → queue_of (route_to rs j m) i ≡ received (queue_of rs i) (when_addressed (str_eq i j) m)
  unfolding queue_of route_to
  queue_of-route_to [] m j i = refl
  queue_of-route_to (a ∷ rs) m j i = elim (Bool-cases (str_eq a.agent_id i)) [
    | inl e ↦ elim (Bool-cases (str_eq a.agent_id j)) [
      | inl s ↦ rw (s, e, same_test a.agent_id i j e ∙ s) refl
      | inr s ↦
          rw (s, e, same_test a.agent_id i j e ∙ s) (sym (received-nil (some a.message_queue)))
    ]
    | inr e ↦ elim (Bool-cases (str_eq a.agent_id j)) [
      | inl s ↦ rw (s, e, other s e) (sym (received-nil (queue_of rs i)))
      | inr s ↦ rw (s, e) (queue_of-route_to rs m j i)
    ]
  ]
    where
      other : str_eq a.agent_id j ≡ true → str_eq a.agent_id i ≡ false → str_eq i j ≡ false
      other s e = elim (Bool-cases (str_eq i j)) [
        | inl k ↦
            absurd (false≢true (sym e ∙ (eq_iff a.agent_id i).1 (same_text s ∙ sym (same_text k))))
        | inr k ↦ k
      ]

  -- Routing a message puts it at the end of the queue of each agent that it is addressed to, and leaves
  -- every other queue alone: a message to "broadcast" is addressed to all but its sender, any other to
  -- the agent of that id.
  pub queue_of-route :
      (rs : List (Registered C)) (m : AgentMessage C) (i : String)
      → queue_of (route rs m) i ≡ received (queue_of rs i) (when_addressed (is_addressed m i) m)
  unfolding route
  queue_of-route rs m i = elim (Bool-cases (str_eq m.recipient "broadcast")) [
    | inl e ↦ rw e (queue_of-broadcast rs m i)
    | inr e ↦ rw e (queue_of-route_to rs m m.recipient i)
  ]
