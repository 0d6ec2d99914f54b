-- ===== src/Graph/Nx.antt =====
-- What engine/graph_builder.py calls of networkx: an undirected graph without parallel edges, as an
-- interface, and what its documentation says of these calls.
use pay_shield.Prelude.{
  ◌≡◌, String, Bool, true, false, ◌&&◌, ◌||◌, Option, none, some, List, [], any, str_eq, All,
  put_key, if◌then◌else◌,
}

-- the value of an attribute
pub data AttrValue (F : Type 0) : Type 0 where
  text_value : String → AttrValue F
  float_value : F → AttrValue F

abbrev pub Attrs : Type 0 → Type 0
Attrs F = List (String × AttrValue F)

-- an edge as `graph.edges(data=True)` gives it
pub record Edge : Type 0 where
  pub src : String
  pub dst : String
  pub edge_type : String

-- `nx.Graph`
pub record Nx (F G : Type 0) : Type 0 where
  pub empty : G
  pub nodes : G → List String
  pub node : G → String → Option (Attrs F)  -- `graph.nodes[n]`, none for no node
  pub add_node : G → String → Attrs F → G
  pub set_attr : G → String → String → AttrValue F → G  -- `graph.nodes[n][key] = value`
  pub edges : G → List Edge
  pub has_edge : G → String → String → Bool
  pub add_edge : G → String → String → String → G
  pub neighbors : G → String → List String

-- a node that an edge names is made without attributes
abbrev pub created : {F : Type 0} → Bool → Option (Attrs F) → Option (Attrs F)
created b (some a) = some a
created true none = some []
created false none = none

abbrev pub with_attr : {F : Type 0} → String → AttrValue F → Option (Attrs F) → Option (Attrs F)
with_attr k v none = none
with_attr k v (some a) = some (put_key k v a)

-- whether an edge joins two nodes
abbrev pub joins : String → String → Edge → Bool
joins n m e = str_eq e.src n && str_eq e.dst m || str_eq e.src m && str_eq e.dst n

pub record IsNx {F G : Type 0} (nx : Nx F G) : Type 1 where
  pub node-empty : (n : String) → nx.node nx.empty n ≡ none
  pub edges-empty : nx.edges nx.empty ≡ []
  pub node-add_node :
      (g : G) (n m : String) (a : Attrs F)
      → nx.node g n ≡ none
      → nx.node (nx.add_node g n a) m ≡ (if str_eq n m then some a else nx.node g m)
  pub edges-add_node :
      (g : G) (n : String) (a : Attrs F) → nx.edges (nx.add_node g n a) ≡ nx.edges g
  pub node-set_attr :
      (g : G) (n m k : String) (v : AttrValue F)
      → nx.node (nx.set_attr g n k v) m
        ≡ (if str_eq n m then with_attr k v (nx.node g m) else nx.node g m)
  pub edges-set_attr :
      (g : G) (n k : String) (v : AttrValue F) → nx.edges (nx.set_attr g n k v) ≡ nx.edges g
  pub node-add_edge :
      (g : G) (u v m t : String)
      → nx.node (nx.add_edge g u v t) m ≡ created (str_eq u m || str_eq v m) (nx.node g m)
  pub edges-add_edge :
      (P : Edge → Type 0) (g : G) (u v t : String)
      → All P (nx.edges g)
      → P (record { src = u; dst = v; edge_type = t })
      → P (record { src = v; dst = u; edge_type = t })
      → All P (nx.edges (nx.add_edge g u v t))
  pub neighbors-edges :
      (g : G) (n m : String)
      → any (str_eq m) (nx.neighbors g n) ≡ true
      → any (joins n m) (nx.edges g) ≡ true
  pub neighbors-nodes :
      (g : G) (n m : String)
      → any (str_eq m) (nx.neighbors g n) ≡ true
      → any (str_eq m) (nx.nodes g) ≡ true
  pub nodes-node :
      (g : G) (n : String) (a : Attrs F) → nx.node g n ≡ some a → any (str_eq n) (nx.nodes g) ≡ true
