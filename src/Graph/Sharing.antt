-- ===== src/Graph/Sharing.antt =====
-- engine/graph_builder.py, `extract_device_sharing_depth`: a search in breadth from a user. Each round
-- of its loop takes one unit of fuel; Visits shows that one for each node is enough.
use pay_shield.Prelude.{
  ℕ, zero, suc, ◌+◌, String, Bool, ◌&&◌, Option, none, some, List, [], ◌∷◌, ◌++◌, any, filter,
  length, ltb, str_eq, if◌then◌else◌,
}
use pay_shield.Graph.Nx.{Nx}
use pay_shield.Graph.Live.{has_node}
use pay_shield.Graph.Kinds.{type_of}

-- the nodes that the search has seen, and those with their depths that it has still to expand
pub record Search : Type 0 where
  pub visited : List String
  pub queue : List (String × ℕ)

-- one neighbor
abbrev pub offer : ℕ → Search → String → Search
offer depth s n =
    if any (str_eq n) s.visited
    then s
    else record s { visited = n ∷ s.visited; queue = s.queue ++ (n, depth + 1) ∷ [] }

unfoldable pub offer_all : ℕ → Search → List String → Search
offer_all depth s [] = s
offer_all depth s (n ∷ ns) = offer_all depth (offer depth s n) ns

module _ {F G : Type 0} (nx : Nx F G) (g : G) where
  -- the users next to a device
  abbrev pub device_users : String → List String
  device_users n = filter (λ m. str_eq (type_of nx g m) "User") (nx.neighbors g n)

  -- a device that more than one user is next to
  abbrev pub is_shared_device : String → Bool
  is_shared_device n = str_eq (type_of nx g n) "Device" && ltb 1 (length (device_users n))

  -- `max(max_depth, depth)` where the device counts
  abbrev pub deepened : ℕ → String → ℕ → ℕ
  deepened old n depth =
      if ltb 0 depth && is_shared_device n then (if ltb old depth then depth else old) else old

  -- the loop; none is the end of the fuel
  unfoldable pub search : ℕ → List String → List (String × ℕ) → ℕ → Option ℕ
  unfolding offer_all
  search fuel visited [] max_depth = some max_depth
  search zero visited (_ ∷ _) max_depth = none
  search (suc fuel) visited ((n, depth) ∷ rest) max_depth =
      let s = offer_all depth (record { visited = visited; queue = rest }) (nx.neighbors g n) in
      search fuel s.visited s.queue (deepened max_depth n depth)

  unfoldable pub extract_device_sharing_depth : ℕ → String → Option ℕ
  unfolding search
  extract_device_sharing_depth fuel user =
      if has_node nx g user then search fuel (user ∷ []) ((user, 0) ∷ []) 0 else some 0
