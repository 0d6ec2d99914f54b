-- ===== src/Graph/Live.antt =====
-- engine/graph_builder.py, `build_from_live_transaction`.
use pay_shield.Prelude.{
  String, Bool, true, false, not, ◌&&◌, Option, none, some, List, [], ◌∷◌, ◌++◌, find_key, get_or,
  str_eq, if◌then◌else◌,
}
use pay_shield.Prelude.Float.{Float, lit}
use pay_shield.Graph.Nx.{AttrValue, text_value, float_value, Attrs, Nx}

-- the keys of the dict that the code asks for by name, and the others
pub record LiveTxn (F : Type 0) : Type 0 where
  pub txn_id : Option String
  pub user_id : Option String
  pub merchant_id : Option String
  pub device_fingerprint : Option String
  pub amount : Option F
  pub timestamp : Option String
  pub txn_type : Option String
  pub counterparty_user_id : Option String
  pub rest : List (String × AttrValue F)

abbrev pub is_empty : String → Bool
is_empty s = str_eq s ""

abbrev or_unknown : String → String
or_unknown s = if is_empty s then "UNKNOWN_DEVICE" else s

-- `str(txn.get("device_fingerprint") or "UNKNOWN_DEVICE")`
abbrev pub live_device : {F : Type 0} → LiveTxn F → String
live_device t = or_unknown (get_or t.device_fingerprint "")

abbrev pub txn_of : {F : Type 0} → LiveTxn F → String
txn_of t = get_or t.txn_id ""

abbrev pub user_of : {F : Type 0} → LiveTxn F → String
user_of t = get_or t.user_id ""

abbrev pub merchant_of : {F : Type 0} → LiveTxn F → String
merchant_of t = get_or t.merchant_id ""

abbrev pub counterparty_of : {F : Type 0} → LiveTxn F → String
counterparty_of t = get_or t.counterparty_user_id ""

abbrev pub is_known : String → Bool
is_known d = not (str_eq d "UNKNOWN_DEVICE")

module _ {F : Type 0} where
  abbrev present : String → Option (AttrValue F) → Attrs F
  present k none = []
  present k (some v) = (k, v) ∷ []

  abbrev position : Option (AttrValue F) → Option (AttrValue F) → Attrs F
  position (some lat) (some lon) = ("lat", lat) ∷ ("lon", lon) ∷ []
  position _ _ = []

  -- `LIVE_TXN_ATTRS`, with the position
  abbrev txn_attrs : List (String × AttrValue F) → Attrs F
  txn_attrs r =
      present "inter_arrival_gap_min" (find_key "inter_arrival_gap_min" r)
      ++ present "txn_count_5m" (find_key "txn_count_5m" r)
      ++ present "txn_count_1h" (find_key "txn_count_1h" r)
      ++ present "loc_dist_km" (find_key "loc_dist_km" r)
      ++ position (find_key "lat" r) (find_key "lon" r)

  abbrev pub typed : String → Attrs F → Attrs F
  typed t a = ("node_type", text_value t) ∷ a

  module _ {G : Type 0} (nx : Nx F G) where
    abbrev pub is_node : Option (Attrs F) → Bool
    is_node none = false
    is_node (some a) = true

    abbrev pub has_node : G → String → Bool
    has_node g n = is_node (nx.node g n)

    -- `if not graph.has_node(n): graph.add_node(n, **a)`
    unfoldable pub ensure_node : G → String → Attrs F → G
    ensure_node g n a = if has_node g n then g else nx.add_node g n a

    -- `if not graph.has_edge(u, v): graph.add_edge(u, v, edge_type=t)`
    unfoldable pub ensure_edge : G → String → String → String → G
    ensure_edge g u v t = if nx.has_edge g u v then g else nx.add_edge g u v t

    -- the merchant's share of round amounts, which is kept up to date
    abbrev pub update_share : G → String → Option (AttrValue F) → G
    update_share g m none = g
    update_share g m (some v) = nx.set_attr g m "round_amount_share" v

    abbrev pub merchant_attrs : String → Option (AttrValue F) → Attrs F
    merchant_attrs m r =
        typed "Merchant" (("merchant_id", text_value m) ∷ present "round_amount_share" r)

    unfoldable pub touch_merchant : G → String → Option (AttrValue F) → G
    touch_merchant g m r =
        if has_node g m then update_share g m r else nx.add_node g m (merchant_attrs m r)

    abbrev pub user_attrs : String → Attrs F
    user_attrs u = typed "User" (("user_id", text_value u) ∷ [])

    abbrev pub device_attrs : String → Attrs F
    device_attrs d = typed "Device" (("device_id", text_value d) ∷ [])

    abbrev pub share_of : LiveTxn F → Option (AttrValue F)
    share_of t = find_key "round_amount_share" t.rest

    -- a counterparty of a payment between persons
    abbrev pub add_counterparty : G → LiveTxn F → G
    add_counterparty g t =
        let c = counterparty_of t in
        let g1 = ensure_node g c (user_attrs c) in
        let g2 = ensure_edge g1 (user_of t) (txn_of t) "transferred_to" in
        ensure_edge g2 (txn_of t) c "transferred_to"

    abbrev pub is_p2p : LiveTxn F → Bool
    is_p2p t = str_eq (get_or t.txn_type "") "P2P" && not (is_empty (counterparty_of t))

    abbrev pub when : Bool → (G → G) → G → G
    when b k g = if b then k g else g

    module _ ⦃f : Float F⦄ where
      abbrev pub node_attrs : LiveTxn F → Attrs F
      node_attrs t = typed "Transaction" (
          ("amount", float_value (get_or t.amount (lit 0)))
          ∷ ("timestamp", text_value (get_or t.timestamp ""))
          ∷ txn_attrs t.rest)

      -- the nodes that are not there yet
      unfoldable pub add_nodes : G → LiveTxn F → G
      unfolding ensure_node touch_merchant
      add_nodes g t =
          let u = user_of t in
          let m = merchant_of t in
          let d = live_device t in
          let g1 = ensure_node g (txn_of t) (node_attrs t) in
          let g2 = when (not (is_empty u)) (λ g. ensure_node g u (user_attrs u)) g1 in
          let g3 = when (not (is_empty m)) (λ g. touch_merchant g m (share_of t)) g2 in
          when (is_known d) (λ g. ensure_node g d (device_attrs d)) g3

      -- the edges that are not there yet
      unfoldable pub add_edges : G → LiveTxn F → G
      unfolding ensure_edge
      add_edges g t =
          let n = txn_of t in
          let u = user_of t in
          let m = merchant_of t in
          let d = live_device t in
          let g1 = when (not (is_empty u)) (λ g. ensure_edge g u n "performed") g in
          let g2 = when (not (is_empty m)) (λ g. ensure_edge g n m "at") g1 in
          when (is_known d) (λ g. ensure_edge g n d "used") g2

      unfoldable pub build_from_live_transaction : G → LiveTxn F → G
      unfolding add_nodes add_edges
      build_from_live_transaction g t =
          when (is_p2p t) (λ g. add_counterparty g t) (add_edges (add_nodes g t) t)

      -- a graph that grows by transactions
      abbrev pub build_all : G → List (LiveTxn F) → G
      build_all g [] = g
      build_all g (t ∷ ts) = build_all (build_from_live_transaction g t) ts
