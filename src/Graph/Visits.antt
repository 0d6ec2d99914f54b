-- ===== src/Graph/Visits.antt =====
-- engine/graph_builder.py, `extract_device_sharing_depth`: the search ends.
use pay_shield.Prelude.{
  ℕ, zero, suc, ◌+◌, ◌≤◌, ◌≡◌, refl, ap, subst, String, Bool, true, false, false≢true, not, inl,
  inr, some, List, [], ◌∷◌, any, filter, length, length-append, length-filter_mono,
  length-filter-le, Bool-cases, or_true, Option-cases, str_eq, eq_iff, arith,
}
use pay_shield.Graph.Nx.{Nx, IsNx}
use pay_shield.Graph.Live.{is_node}
use pay_shield.Graph.Sharing.{
  Search, offer, offer_all, deepened, search, extract_device_sharing_depth,
}

abbrev is_unvisited : List String → String → Bool
is_unvisited vs n = not (any (str_eq n) vs)

-- what is new after one more visit was new before
is_unvisited-widen :
    (n : String) (vs : List String) (y : String)
    → is_unvisited (n ∷ vs) y ≡ true
    → is_unvisited vs y ≡ true
is_unvisited-widen n vs y h = elim (Bool-cases (str_eq y n)) [
  | inl e ↦ absurd (false≢true (rw e at h))
  | inr e ↦ rw e at h
]

-- a node that is visited for the first time leaves one node less to visit
unvisited-less :
    (n : String) (vs xs : List String)
    → any (str_eq n) xs ≡ true
    → any (str_eq n) vs ≡ false
    → length (filter (is_unvisited (n ∷ vs)) xs) + 1 ≤ length (filter (is_unvisited vs) xs)
unvisited-less n vs [] h k = absurd (false≢true h)
unvisited-less n vs (x ∷ xs) h k = elim (Bool-cases (str_eq n x)) [
  | inl e ↦
      subst
        (λ x.
          length (filter (is_unvisited (n ∷ vs)) (x ∷ xs)) + 1
          ≤ length (filter (is_unvisited vs) (x ∷ xs)))
        ((eq_iff n x).0 e)
        (rw (k, (eq_iff n n).1 refl)
          (omega (
            arith,
            length-filter_mono (is_unvisited (n ∷ vs)) (is_unvisited vs) xs
                (is_unvisited-widen n vs),
          )))
  | inr e ↦
      let rest = unvisited-less n vs xs (rw e at h) k in
      elim (Bool-cases (any (str_eq x) vs)) [
        | inl c ↦ rw (c, or_true (str_eq x n)) rest
        | inr c ↦ elim (Bool-cases (str_eq x n)) [
          | inl q ↦ rw (c, q) (omega arith)
          | inr q ↦ rw (c, q) (omega arith)
        ]
      ]
]

module _ {F G : Type 0} {nx : Nx F G} (lawful : IsNx nx) (g : G) where
  -- the work left: the queue, and the nodes that may still join it
  abbrev work : Search → ℕ
  work s = length s.queue + length (filter (is_unvisited s.visited) (nx.nodes g))

  work-offer :
      (depth : ℕ) (s : Search) (n : String)
      → any (str_eq n) (nx.nodes g) ≡ true
      → work (offer depth s n) ≤ work s
  work-offer depth s n h = elim (Bool-cases (any (str_eq n) s.visited)) [
    | inl e ↦ rw e (omega arith)
    | inr e ↦ rw e (
        omega (
          arith,
          length-append s.queue ((n, depth + 1) ∷ []),
          unvisited-less n s.visited (nx.nodes g) h e,
        ))
  ]

  work-offer_all :
      (depth : ℕ) (s : Search) (ns : List String)
      → ((n : String) → any (str_eq n) ns ≡ true → any (str_eq n) (nx.nodes g) ≡ true)
      → work (offer_all depth s ns) ≤ work s
  unfolding offer_all
  work-offer_all depth s [] h = omega arith
  work-offer_all depth s (n ∷ ns) h =
      let rest = work-offer_all depth (offer depth s n) ns (λ m k. h m (rw k (or_true _))) in
      let first = work-offer depth s n (h n (rw ((eq_iff n n).1 refl) refl)) in omega arith

  search_ends :
      (fuel : ℕ) (vs : List String) (q : List (String × ℕ)) (m : ℕ)
      → work (record { visited = vs; queue = q }) ≤ fuel
      → (d : ℕ) × (search nx g fuel vs q m ≡ some d)
  unfolding search
  search_ends zero vs [] m h = (m, refl)
  search_ends (suc fuel) vs [] m h = (m, refl)
  search_ends zero vs ((n, depth) ∷ q) m h = absurd (omega arith)
  search_ends (suc fuel) vs ((n, depth) ∷ q) m h =
      let s = offer_all depth (record { visited = vs; queue = q }) (nx.neighbors g n) in
      let less =
        work-offer_all depth (record { visited = vs; queue = q }) (nx.neighbors g n)
          (λ m k. lawful.neighbors-nodes g n m k) in
      search_ends fuel s.visited s.queue (deepened nx g m n depth) (omega arith)

  -- With one unit of fuel for each node of the graph, the search from any user ends.
  pub extract_device_sharing_depth_total :
      (user : String)
      → (d : ℕ) × (extract_device_sharing_depth nx g (length (nx.nodes g)) user ≡ some d)
  unfolding extract_device_sharing_depth
  extract_device_sharing_depth_total user = elim (Option-cases (nx.node g user)) [
    | inl k ↦ rw (ap (is_node nx) k) (0, refl)
    | inr (a, k) ↦ rw (ap (is_node nx) k) (
        search_ends (length (nx.nodes g)) (user ∷ []) ((user, 0) ∷ []) 0 (
          omega (
            arith,
            unvisited-less user [] (nx.nodes g) (lawful.nodes-node g user a k) refl,
            length-filter-le (is_unvisited []) (nx.nodes g),
          )))
  ]
