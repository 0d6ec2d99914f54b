-- ===== src/Agents/Delivered.antt =====
-- agents/worker.py: every scored order reaches the agents, and how often.
use mathlib.Core.List.{append-nil, append_assoc}
use pay_shield.Prelude.{
  ℕ, ◌≡◌, refl, sym, ap, ap₂, subst, ◌∙◌, true, false, Option, none, some, List, [], ◌∷◌, ◌++◌, map,
  filter,
}
use pay_shield.Agents.Router.{Registered}
use pay_shield.Agents.Worker.{
  Event, ScoredEntry, Content, Worker, route_scored_order, is_new, last_timestamp, unless_raised,
  content_of, dispatch_entries, dispatched, dispatch_new, dispatch_file,
}
use pay_shield.Agents.Feed.{IsAfter, IsAfter-split, last_of, last_timestamp-last_of, new_entries}

module _ {F : Type 0} where
  abbrev pub route_each :
      List (Registered (Content F)) → List (Content F) → List (Registered (Content F))
  route_each rs [] = rs
  route_each rs (c ∷ cs) = route_each (route_scored_order rs c) cs

  pub route_each-append :
      (rs : List (Registered (Content F))) (cs ds : List (Content F))
      → route_each rs (cs ++ ds) ≡ route_each (route_each rs cs) ds
  route_each-append rs [] ds = refl
  route_each-append rs (c ∷ cs) ds = route_each-append (route_scored_order rs c) cs ds

  abbrev pub worker_of : List (Registered (Content F)) → Option ℕ → Worker F
  worker_of rs l = record { router = rs; last_feed_entry = l }

  abbrev pub joined : List (List (ScoredEntry F)) → List (ScoredEntry F)
  joined [] = []
  joined (d ∷ ds) = d ++ joined ds

abbrev pub cons_content : {A : Type 0} → Option A → Option (List A) → Option (List A)
cons_content none r = none
cons_content (some c) none = none
cons_content (some c) (some cs) = some (c ∷ cs)

pub cons_content-some :
    {A : Type 0} (o : Option A) (r : Option (List A)) (cs : List A)
    → cons_content o r ≡ some cs
    → (c : A) × ((ds : List A) × ((o ≡ some c) × ((r ≡ some ds) × (c ∷ ds ≡ cs))))
cons_content-some none r cs h = absurd (cc h)
cons_content-some (some c) none cs h = absurd (cc h)
cons_content-some (some c) (some ds) cs h = (c, (ds, (refl, (refl, cc h))))

pub no_contents : {A : Type 0} (cs : List A) → some [] ≡ some cs → [] ≡ cs
no_contents cs h = cc h

module _ {F : Type 0} (zero : F) where
  -- the contents of the messages, if every score is one that `float` takes
  abbrev pub contents : List (Event F) → Option (List (Content F))
  contents [] = some []
  contents (e ∷ es) = cons_content (content_of zero e) (contents es)

  step_entries :
      (e : ScoredEntry F) (es : List (ScoredEntry F)) (rs : List (Registered (Content F)))
      (c : Content F)
      → content_of zero e.scored ≡ some c
      → dispatch_entries zero (e ∷ es) rs ≡ dispatch_entries zero es (route_scored_order rs c)
  unfolding dispatch_entries
  step_entries e es rs c p =
      ap
        (λ o. unless_raised o (false, rs) (λ x. dispatch_entries zero es (route_scored_order rs x)))
        p

  dispatch_entries-contents :
      (es : List (ScoredEntry F)) (rs : List (Registered (Content F))) (cs : List (Content F))
      → contents (map (λ e. e.scored) es) ≡ some cs
      → dispatch_entries zero es rs ≡ (true, route_each rs cs)
  unfolding dispatch_entries
  dispatch_entries-contents [] rs cs h = ap (λ x. (true, route_each rs x)) (no_contents cs h)
  dispatch_entries-contents (e ∷ es) rs cs h =
      let (c, (ds, (p, (q, k)))) =
        cons_content-some (content_of zero e.scored) (contents (map (λ x. x.scored) es)) cs h in
      step_entries e es rs c p
      ∙ dispatch_entries-contents es (route_scored_order rs c) ds q
      ∙ ap (λ x. (true, route_each rs x)) k

  -- one reading of the log by the fallback, when it has grown by ds
  dispatch_file-filter :
      (w : Worker F) (xs ds : List (ScoredEntry F)) (cs : List (Content F))
      → filter (λ e. is_new w.last_feed_entry e.timestamp) xs ≡ ds
      → contents (map (λ e. e.scored) ds) ≡ some cs
      → (ds ≡ [] → last_of none xs ≡ w.last_feed_entry)
      → dispatch_file zero w xs ≡ worker_of (route_each w.router cs) (last_of none xs)
  unfolding dispatch_file
  dispatch_file-filter w [] [] cs h k l =
      ap₂ worker_of (ap (route_each w.router) (no_contents cs k)) (sym (l refl))
  dispatch_file-filter w [] (d ∷ ds) cs h k l = absurd (cc h)
  dispatch_file-filter w (e ∷ es) [] cs h k l =
      ap (dispatch_new zero w (last_timestamp e.timestamp es)) h
      ∙ ap₂ worker_of (ap (route_each w.router) (no_contents cs k)) (sym (l refl))
  dispatch_file-filter w (e ∷ es) (d ∷ ds) cs h k l =
      ap (dispatch_new zero w (last_timestamp e.timestamp es)) h
      ∙ ap (dispatched zero w (last_timestamp e.timestamp es))
          (dispatch_entries-contents (d ∷ ds) w.router cs k)
      ∙ ap (worker_of (route_each w.router cs)) (last_timestamp-last_of e.timestamp es)

  contents-append :
      (xs ys : List (Event F)) (cs : List (Content F))
      → contents (xs ++ ys) ≡ some cs
      → (front : List (Content F)) × ((bs : List (Content F)) × ((contents xs ≡ some front)
            × ((contents ys ≡ some bs) × (front ++ bs ≡ cs))))
  contents-append [] ys cs h = ([], (cs, (refl, (h, refl))))
  contents-append (x ∷ xs) ys cs h =
      let (c, (ds, (p, (q, k)))) =
        cons_content-some (content_of zero x) (contents (xs ++ ys)) cs h in
      let (front, (bs, (a, (b, j)))) = contents-append xs ys ds q in
      (c ∷ front, (bs, (ap₂ cons_content p a, (b, ap (λ r. c ∷ r) j ∙ k))))

  -- the log has grown by ds, and the worker is up to date with the rest
  pub dispatch_file-grown :
      (w : Worker F) (log ds : List (ScoredEntry F)) (cs : List (Content F))
      → w.last_feed_entry ≡ last_of none log
      → IsAfter none (log ++ ds)
      → contents (map (λ e. e.scored) ds) ≡ some cs
      → dispatch_file zero w (log ++ ds)
        ≡ worker_of (route_each w.router cs) (last_of none (log ++ ds))
  dispatch_file-grown w log ds cs l h k =
      dispatch_file-filter w (log ++ ds) ds cs
        (ap (λ o. filter (λ e. is_new o e.timestamp) (log ++ ds)) l ∙ new_entries log ds h) k
        (λ e. ap (λ x. last_of none (log ++ x)) e ∙ ap (last_of none) (append-nil log) ∙ sym l)

  -- rounds of the fallback, before each of which the log grows
  abbrev pub rounds : Worker F → List (ScoredEntry F) → List (List (ScoredEntry F)) → Worker F
  rounds w log [] = w
  rounds w log (d ∷ ds) = rounds (dispatch_file zero w (log ++ d)) (log ++ d) ds

  map-append :
      (xs ys : List (ScoredEntry F))
      → map (λ e. e.scored) (xs ++ ys) ≡ map (λ e. e.scored) xs ++ map (λ e. e.scored) ys
  map-append [] ys = refl
  map-append (x ∷ xs) ys = ap (λ r. x.scored ∷ r) (map-append xs ys)

  -- Nothing is lost and nothing is delivered twice. Let a worker be up to date with the audit log, let
  -- the log then grow by any number of entries before each of any number of rounds, with timestamps
  -- that strictly rise and scores that `float` takes, and let Redis give nothing. Then the rounds
  -- route exactly the new orders, each once and in the order of the log.
  pub rounds_deliver :
      (w : Worker F) (log : List (ScoredEntry F)) (ds : List (List (ScoredEntry F)))
      (cs : List (Content F))
      → w.last_feed_entry ≡ last_of none log
      → IsAfter none (log ++ joined ds)
      → contents (map (λ e. e.scored) (joined ds)) ≡ some cs
      → (rounds w log ds).router ≡ route_each w.router cs
  rounds_deliver w log [] cs l h k = ap (route_each w.router) (no_contents cs k)
  rounds_deliver w log (d ∷ ds) cs l h k =
      let regrouped = subst (IsAfter none) (sym (append_assoc log d (joined ds))) h in
      let split = ap contents (sym (map-append d (joined ds))) ∙ k in
      let (front, (bs, (a, (b, j)))) =
        contents-append (map (λ e. e.scored) d) (map (λ e. e.scored) (joined ds)) cs split in
      let w1 = worker_of (route_each w.router front) (last_of none (log ++ d)) in
      let first =
        dispatch_file-grown w log d front l (IsAfter-split none (log ++ d) (joined ds) regrouped).0
          a in
      ap (λ x. (rounds x (log ++ d) ds).router) first
      ∙ rounds_deliver w1 (log ++ d) ds bs refl regrouped b
      ∙ sym (route_each-append w.router front bs)
      ∙ ap (route_each w.router) j
