-- ===== src/Graph/Patterns.antt =====
-- engine/graph_builder.py, `FraudGraphFeatureExtractor`: the concentration on one merchant and the
-- merchants that two users share.
use pay_shield.Prelude.{
  ℕ, ◌+◌, String, Bool, ◌&&◌, ◌||◌, Option, none, some, List, [], ◌∷◌, any, filter, find_key,
  put_key, get_or, ltb, str_eq, if◌then◌else◌,
}
use pay_shield.Prelude.Float.{Float, lit, of_ℕ, div}
use pay_shield.Graph.Nx.{Edge, Nx}
use pay_shield.Graph.Live.{has_node}
use pay_shield.Graph.Kinds.{type_of}

-- `d[key] = d.get(key, 0) + 1`
abbrev tallied : String → List (String × ℕ) → List (String × ℕ)
tallied k d = put_key k (get_or (find_key k d) 0 + 1) d

abbrev total_of : List (String × ℕ) → ℕ
total_of [] = 0
total_of ((k, n) ∷ d) = n + total_of d

abbrev top_of : List (String × ℕ) → ℕ
top_of [] = 0
top_of ((k, n) ∷ d) = let m = top_of d in if ltb n m then m else n

module _ {F G : Type 0} (nx : Nx F G) where
  abbrev pub is_merchant : G → String → Bool
  is_merchant g n = str_eq (type_of nx g n) "Merchant"

  -- whether the loop counts an edge
  abbrev pub counts_edge : G → String → Edge → Bool
  counts_edge g user e =
      (str_eq e.src user && str_eq e.edge_type "performed" || str_eq e.dst user)
      && is_merchant g e.dst

  unfoldable pub merchant_txns : G → String → List Edge → List (String × ℕ) → List (String × ℕ)
  merchant_txns g user [] d = d
  merchant_txns g user (e ∷ es) d =
      merchant_txns g user es (if counts_edge g user e then tallied e.dst d else d)

  abbrev pub shared_by : List String → List String → List String
  shared_by ms ns = filter (λ m. any (str_eq m) ns) ms

  -- `get_merchants`, as the neighbors that it adds; none is the error for no node
  abbrev pub get_merchants : G → String → Option (List String)
  get_merchants g user =
      if has_node nx g user then some (filter (is_merchant g) (nx.neighbors g user)) else none

  abbrev pub shared_merchants : Option (List String) → Option (List String) → Option (List String)
  shared_merchants (some ms) (some ns) = some (shared_by ms ns)
  shared_merchants _ _ = none

  -- the merchants that `extract_mutual_transaction_partners` counts
  unfoldable pub mutual_partners : G → String → String → Option (List String)
  mutual_partners g a b = shared_merchants (get_merchants g a) (get_merchants g b)

  module _ ⦃f : Float F⦄ where
    abbrev pub concentration : List (String × ℕ) → F
    concentration [] = lit 0
    concentration d =
        if ltb 0 (total_of d) then f.round4 (div (of_ℕ (top_of d)) (of_ℕ (total_of d))) else lit 0

    unfoldable pub extract_merchant_concentration : G → String → F
    unfolding merchant_txns
    extract_merchant_concentration g user = concentration (merchant_txns g user (nx.edges g) [])
