-- ===== src/Audit/Queue.antt =====
-- store/audit_log.py, `AsyncAuditLogWriter`: the bounded queue, `flush` and the worker's batches.
-- `clock i` is what the writer's clock reads when it writes the i-th entry that left the queue.
use mathlib.Core.List.{append-nil, append_assoc}
use native.Mathlib.Nat.{add_assoc}
use pay_shield.Prelude.{
  ◌<◌, true, inl, inr, sym, Bool-cases, ℕ, zero, suc, ◌+◌, ◌-◌, String, ◌≡◌, refl, ◌∙◌, ap, false,
  List, [], ◌∷◌, ◌++◌, arith, ltb, length, length-append, take, drop, if◌then◌else◌, ◌==◌, ◌||◌,
}
use pay_shield.Audit.Names.{Dir}
use pay_shield.Audit.Masker.{Fields, Regex}
use pay_shield.Audit.{Body, Line, Writer, Request, append, append_all}

pub record Item : Type 0 where
  pub event_type : String
  pub actor : String
  pub decision : String
  pub payload : Fields

pub record Moment : Type 0 where
  pub day : ℕ
  pub time : ℕ
  pub stamp : ℕ

abbrev pub request : Moment → Item → Request
request m x = record {
  day = m.day;
  time = m.time;
  stamp = m.stamp;
  event_type = x.event_type;
  actor = x.actor;
  decision = x.decision;
  payload = x.payload;
}

pub record AsyncWriter : Type 0 where
  pub max_queue : ℕ
  pub queue : List Item
  pub taken : ℕ  -- how many items have left the queue
  pub writer : Writer
  pub dir : Dir Line

-- `put_nowait`: a size of 0 is no bound; a full queue drops the new entry
unfoldable pub enqueue : AsyncWriter → Item → AsyncWriter
enqueue a x =
    if a.max_queue == 0 || ltb (length a.queue) a.max_queue
    then record a { queue = a.queue ++ x ∷ [] }
    else a

unfoldable pub enqueue_all : AsyncWriter → List Item → AsyncWriter
enqueue_all a [] = a
enqueue_all a (x ∷ xs) = enqueue_all (enqueue a x) xs

module _ (re : Regex) (digest : Body → ℕ → ℕ) (clock : ℕ → Moment) where
  abbrev pub stamped : ℕ → List Item → List Request
  stamped i [] = []
  stamped i (x ∷ xs) = request (clock i) x ∷ stamped (i + 1) xs

  -- `_write_batch`
  unfoldable pub write_batch : AsyncWriter → List Item → AsyncWriter
  write_batch a batch =
      let (w, dir) = append_all re digest a.writer a.dir (stamped a.taken batch) in
      record a { taken = a.taken + length batch; writer = w; dir = dir }

  -- `flush`
  unfoldable pub flush : AsyncWriter → AsyncWriter
  unfolding write_batch
  flush a = write_batch (record a { queue = [] }) a.queue

  -- one round of `_worker`, in which it takes n items before the batch is full, the queue is empty or
  -- the time is up
  unfoldable pub worker_round : AsyncWriter → ℕ → AsyncWriter
  unfolding write_batch
  worker_round a n = write_batch (record a { queue = drop n a.queue }) (take n a.queue)

  unfoldable pub worker_rounds : AsyncWriter → List ℕ → AsyncWriter
  worker_rounds a [] = a
  worker_rounds a (n ∷ ns) = worker_rounds (worker_round a n) ns

  append_all-append :
      (w : Writer) (dir : Dir Line) (xs ys : List Request)
      → append_all re digest w dir (xs ++ ys)
        ≡ (let (w', dir') = append_all re digest w dir xs in append_all re digest w' dir' ys)
  unfolding append_all
  append_all-append w dir [] ys = refl
  append_all-append w dir (x ∷ xs) ys =
      let (w', dir') = append re digest w dir x in append_all-append w' dir' xs ys

  stamped-append :
      (i : ℕ) (xs ys : List Item)
      → stamped i (xs ++ ys) ≡ stamped i xs ++ stamped (i + length xs) ys
  stamped-append i [] ys = ap (λ j. stamped j ys) (omega arith)
  stamped-append i (x ∷ xs) ys =
      ap (λ rs. request (clock i) x ∷ rs)
        (stamped-append (i + 1) xs ys ∙ ap (λ j. stamped (i + 1) xs ++ stamped j ys) (omega arith))

  write_batch-append :
      (a : AsyncWriter) (xs ys : List Item)
      → write_batch a (xs ++ ys) ≡ write_batch (write_batch a xs) ys
  unfolding write_batch
  write_batch-append a xs ys = simp (stamped-append, append_all-append, length-append, add_assoc)

  take-append-drop : (n : ℕ) (xs : List Item) → take n xs ++ drop n xs ≡ xs
  take-append-drop zero xs = refl
  take-append-drop (suc n) [] = refl
  take-append-drop (suc n) (x ∷ xs) = ap (λ ys. x ∷ ys) (take-append-drop n xs)

  flush-worker_round : (a : AsyncWriter) (n : ℕ) → flush (worker_round a n) ≡ flush a
  unfolding flush worker_round
  flush-worker_round a n =
      let emptied = record a { queue = [] } in
      sym (write_batch-append emptied (take n a.queue) (drop n a.queue))
      ∙ ap (write_batch emptied) (take-append-drop n a.queue)

  -- However the worker cuts the queue into batches, and whatever is left for the `flush` of `stop`,
  -- the log, the writer and the count end as one `flush` of the whole queue would have left them.
  pub flush-worker_rounds : (a : AsyncWriter) (ns : List ℕ) → flush (worker_rounds a ns) ≡ flush a
  unfolding worker_rounds
  flush-worker_rounds a [] = refl
  flush-worker_rounds a (n ∷ ns) =
      flush-worker_rounds (worker_round a n) ns ∙ flush-worker_round a n

-- what a queue of length n and bound m still takes
abbrev pub room : ℕ → ℕ → List Item → List Item
room m n xs = if m == 0 then xs else take (m - n) xs

room-nil : (m n : ℕ) → room m n [] ≡ []
room-nil m n = elim (Bool-cases (m == 0)) [ inl e ↦ rw e | inr e ↦ rw e (take-nil (m - n)) ]
  where
    take-nil : (k : ℕ) → take {A = Item} k [] ≡ []
    take-nil zero = refl
    take-nil (suc k) = refl

room_left :
    (m n : ℕ) (x : Item) (xs : List Item)
    → (m == 0 || ltb n m) ≡ true
    → room m n (x ∷ xs) ≡ x ∷ room m (n + 1) xs
room_left m n x xs h = elim (Bool-cases (m == 0)) [
  | inl e ↦ rw e
  | inr e ↦ rw e (rw (left (ground arith)))
]
  where
    left : n < m → m - n ≡ suc (m - (n + 1))
    left p = omega arith

no_room : (m n : ℕ) (xs : List Item) → (m == 0 || ltb n m) ≡ false → room m n xs ≡ []
no_room m n xs h = rw (differs, none_left)
  where
    differs : (m == 0) ≡ false
    differs = ground arith

    none_left : m - n ≡ 0
    none_left = ground arith

enqueue_room :
    (a : AsyncWriter) (x : Item)
    → (a.max_queue == 0 || ltb (length a.queue) a.max_queue) ≡ true
    → enqueue a x ≡ record a { queue = a.queue ++ x ∷ [] }
unfolding enqueue
enqueue_room a x h = rw h

enqueue_full :
    (a : AsyncWriter) (x : Item)
    → (a.max_queue == 0 || ltb (length a.queue) a.max_queue) ≡ false
    → enqueue a x ≡ a
unfolding enqueue
enqueue_full a x h = rw h

-- Entries put into the queue with no writing between them: all are kept in order while there is
-- room, and from there on each new one is dropped. With a bound of 0 none is dropped.
pub queue-enqueue_all :
    (a : AsyncWriter) (xs : List Item)
    → (enqueue_all a xs).queue ≡ a.queue ++ room a.max_queue (length a.queue) xs
unfolding enqueue_all
queue-enqueue_all a [] = rw (room-nil a.max_queue (length a.queue), append-nil)
queue-enqueue_all a (x ∷ xs) =
    elim (Bool-cases (a.max_queue == 0 || ltb (length a.queue) a.max_queue)) [
      | inl h ↦
          ap (λ b. (enqueue_all b xs).queue) (enqueue_room a x h)
          ∙ grown h (queue-enqueue_all (record a { queue = a.queue ++ x ∷ [] }) xs)
      | inr h ↦
          ap (λ b. (enqueue_all b xs).queue) (enqueue_full a x h)
          ∙ queue-enqueue_all a xs
          ∙ ap (λ r. a.queue ++ r)
              (no_room a.max_queue (length a.queue) xs h
                ∙ sym (no_room a.max_queue (length a.queue) (x ∷ xs) h))
    ]
  where
    grown :
        (a.max_queue == 0 || ltb (length a.queue) a.max_queue) ≡ true
        → {q : List Item}
        → q ≡ (a.queue ++ x ∷ []) ++ room a.max_queue (length (a.queue ++ x ∷ [])) xs
        → q ≡ a.queue ++ room a.max_queue (length a.queue) (x ∷ xs)
    grown h e =
        e
        ∙ append_assoc a.queue (x ∷ []) _
        ∙ ap (λ r. a.queue ++ r)
            (ap (λ n. x ∷ room a.max_queue n xs) (length-append a.queue (x ∷ []) ∙ omega arith)
              ∙ sym (room_left a.max_queue (length a.queue) x xs h))
