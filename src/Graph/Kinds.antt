-- ===== src/Graph/Kinds.antt =====
-- engine/graph_builder.py: the kinds of the nodes of a live graph, and the ends of its edges.
use pay_shield.Prelude.{
  ◌≡◌, refl, sym, ap, ◌∙◌, subst, String, Bool, true, false, false≢true, not, ◌||◌, ◌⊎◌, inl, inr,
  Option, none, some, List, [], ◌∷◌, All, Bool-cases, and_right, Option-cases, find_key, put_key,
  str_eq, eq_iff,
}
use pay_shield.Prelude.Float.{Float}
use pay_shield.Graph.Nx.{AttrValue, text_value, Attrs, Edge, Nx, IsNx, created, with_attr}
use pay_shield.Graph.Live.{
  LiveTxn, is_empty, live_device, txn_of, user_of, merchant_of, counterparty_of, is_node,
  ensure_node, ensure_edge, update_share, merchant_attrs, touch_merchant, add_counterparty, is_p2p,
  is_known, user_attrs, device_attrs, share_of, add_nodes, add_edges, when, node_attrs,
  build_from_live_transaction, build_all,
}

pub data NodeKind : Type 0 where
  transaction_node user_node merchant_node device_node : NodeKind

abbrev pub type_name : NodeKind → String
type_name transaction_node = "Transaction"
type_name user_node = "User"
type_name merchant_node = "Merchant"
type_name device_node = "Device"

-- a text, none for a number
abbrev text_of : {F : Type 0} → Option (AttrValue F) → String
text_of (some (text_value s)) = s
text_of _ = ""

-- `attrs.get("node_type", "")`
abbrev pub type_in : {F : Type 0} → Option (Attrs F) → String
type_in none = ""
type_in (some a) = text_of (find_key "node_type" a)

-- `graph.nodes[n].get("node_type", "")`
abbrev pub type_of : {F G : Type 0} → Nx F G → G → String → String
type_of nx g n = type_in (nx.node g n)

-- what the ids of a transaction name: its own node, its user, its merchant, its device and its
-- counterparty, the last four where they are given
abbrev pub IsTyped : {F : Type 0} → (String → NodeKind) → LiveTxn F → Type 0
IsTyped kind t =
    (kind (txn_of t) ≡ transaction_node)
    × ((is_empty (user_of t) ≡ true) ⊎ (kind (user_of t) ≡ user_node))
    × ((is_empty (merchant_of t) ≡ true) ⊎ (kind (merchant_of t) ≡ merchant_node))
    × ((str_eq (live_device t) "UNKNOWN_DEVICE" ≡ true) ⊎ (kind (live_device t) ≡ device_node))
    × ((is_empty (counterparty_of t) ≡ true) ⊎ (kind (counterparty_of t) ≡ user_node))

type_kept :
    {F : Type 0} (v : AttrValue F) (a : Attrs F)
    → find_key "node_type" (put_key "round_amount_share" v a) ≡ find_key "node_type" a
type_kept v [] = refl
type_kept v ((k, x) ∷ a) = elim (Bool-cases (str_eq k "round_amount_share")) [
  | inl e ↦
      subst
        (λ k.
          find_key "node_type" (put_key "round_amount_share" v ((k, x) ∷ a))
          ≡ find_key "node_type" ((k, x) ∷ a))
        (sym ((eq_iff k "round_amount_share").0 e)) refl
  | inr e ↦ rw (e, type_kept v a) refl
]

type_in-share :
    {F : Type 0} (v : AttrValue F) (o : Option (Attrs F))
    → type_in (with_attr "round_amount_share" v o) ≡ type_in o
type_in-share v none = refl
type_in-share v (some a) = ap text_of (type_kept v a)

type_in-created : {F : Type 0} (b : Bool) (o : Option (Attrs F)) → type_in (created b o) ≡ type_in o
type_in-created b (some a) = refl
type_in-created true none = refl
type_in-created false none = refl

module _ {F G : Type 0} {nx : Nx F G} (lawful : IsNx nx) (kind : String → NodeKind) where
  -- an edge with a transaction at one end
  abbrev pub IsCrossing : Edge → Type 0
  IsCrossing e = (kind e.src ≡ transaction_node) ⊎ (kind e.dst ≡ transaction_node)

  -- every node has the type of its kind or none, and a transaction is at one end of every edge
  abbrev pub IsLiveGraph : G → Type 0
  IsLiveGraph g =
      ((n : String) → (type_of nx g n ≡ "") ⊎ (type_of nx g n ≡ type_name (kind n)))
      × All IsCrossing (nx.edges g)

  pub live-empty : IsLiveGraph nx.empty
  live-empty = (
    λ n. inl (ap type_in (lawful.node-empty n)),
    subst (λ es. All IsCrossing es) (sym lawful.edges-empty) tt,
  )

  live-add_node :
      (g : G) (n : String) (a : Attrs F)
      → nx.node g n ≡ none
      → type_in (some a) ≡ type_name (kind n)
      → IsLiveGraph g
      → IsLiveGraph (nx.add_node g n a)
  live-add_node g n a fresh h (t, c) = (
    λ m.
        subst (λ o. (type_in o ≡ "") ⊎ (type_in o ≡ type_name (kind m)))
          (sym (lawful.node-add_node g n m a fresh))
          (elim (Bool-cases (str_eq n m)) [
            | inl e ↦ rw e (inr (h ∙ ap (λ n. type_name (kind n)) ((eq_iff n m).0 e)))
            | inr e ↦ rw e (t m)
          ]),
    subst (λ es. All IsCrossing es) (sym (lawful.edges-add_node g n a)) c,
  )

  live-share :
      (g : G) (n : String) (r : Option (AttrValue F))
      → IsLiveGraph g
      → IsLiveGraph (update_share nx g n r)
  live-share g n none h = h
  live-share g n (some v) (t, c) = (
    λ m.
        subst (λ o. (type_in o ≡ "") ⊎ (type_in o ≡ type_name (kind m)))
          (sym (lawful.node-set_attr g n m "round_amount_share" v))
          (elim (Bool-cases (str_eq n m)) [
            | inl e ↦ rw (e, type_in-share v (nx.node g m)) (t m)
            | inr e ↦ rw e (t m)
          ]),
    subst (λ es. All IsCrossing es) (sym (lawful.edges-set_attr g n "round_amount_share" v)) c,
  )

  live-ensure_edge :
      (g : G) (u v t : String)
      → IsCrossing (record { src = u; dst = v; edge_type = t })
      → IsLiveGraph g
      → IsLiveGraph (ensure_edge nx g u v t)
  unfolding ensure_edge
  live-ensure_edge g u v t x (k, c) = elim (Bool-cases (nx.has_edge g u v)) [
    | inl e ↦ rw e (k, c)
    | inr e ↦ rw e (
      λ m.
          subst (λ o. (type_in o ≡ "") ⊎ (type_in o ≡ type_name (kind m)))
            (sym (lawful.node-add_edge g u v m t))
            (rw (type_in-created (str_eq u m || str_eq v m) (nx.node g m)) (k m)),
      lawful.edges-add_edge IsCrossing g u v t c x (swap x),
    )
  ]
    where
      swap : {A B : Type 0} → A ⊎ B → B ⊎ A
      swap (inl a) = inr a
      swap (inr b) = inl b

  live-ensure_node :
      (g : G) (n : String) (a : Attrs F)
      → type_in (some a) ≡ type_name (kind n)
      → IsLiveGraph g
      → IsLiveGraph (ensure_node nx g n a)
  unfolding ensure_node
  live-ensure_node g n a e h = elim (Option-cases (nx.node g n)) [
    | inl k ↦ rw (ap (is_node nx) k) (live-add_node g n a k e h)
    | inr (x, k) ↦ rw (ap (is_node nx) k) h
  ]

  live-touch_merchant :
      (g : G) (m : String) (r : Option (AttrValue F))
      → kind m ≡ merchant_node
      → IsLiveGraph g
      → IsLiveGraph (touch_merchant nx g m r)
  unfolding touch_merchant
  live-touch_merchant g m r e h = elim (Option-cases (nx.node g m)) [
    | inl k ↦
        rw (ap (is_node nx) k)
          (live-add_node g m (merchant_attrs nx m r) k (sym (ap type_name e)) h)
    | inr (x, k) ↦ rw (ap (is_node nx) k) (live-share g m r h)
  ]

  live-when :
      (b : Bool) (k : G → G) (g : G)
      → (b ≡ true → (g : G) → IsLiveGraph g → IsLiveGraph (k g))
      → IsLiveGraph g
      → IsLiveGraph (when nx b k g)
  live-when true k g step h = step refl g h
  live-when false k g step h = h

  -- what holds of an id that is given
  given : {A : Type 0} (b : Bool) → (b ≡ true) ⊎ A → not b ≡ true → A
  given b (inr a) h = a
  given true (inl e) h = absurd (false≢true h)
  given false (inl e) h = absurd (false≢true e)

  module _ ⦃f : Float F⦄ where
    live-counterparty :
        (g : G) (t : LiveTxn F)
        → kind (txn_of t) ≡ transaction_node
        → kind (counterparty_of t) ≡ user_node
        → IsLiveGraph g
        → IsLiveGraph (add_counterparty nx g t)
    live-counterparty g t e c h =
        live-ensure_edge _ (txn_of t) (counterparty_of t) "transferred_to" (inl e) (
          live-ensure_edge _ (user_of t) (txn_of t) "transferred_to" (inr e)
            (live-ensure_node g (counterparty_of t) _ (sym (ap type_name c)) h))

    live-nodes :
        (g : G) (t : LiveTxn F) → IsTyped kind t → IsLiveGraph g → IsLiveGraph (add_nodes nx g t)
    unfolding add_nodes
    live-nodes g t (x, u, m, d, c) h =
        let user = user_of t in
        let merchant = merchant_of t in
        let device = live_device t in
        live-when (is_known device) (λ g. ensure_node nx g device (device_attrs nx device)) _
          (λ e g h.
            live-ensure_node g device (device_attrs nx device)
              (sym (ap type_name (given (str_eq device "UNKNOWN_DEVICE") d e))) h)
          (live-when (not (is_empty merchant)) (λ g. touch_merchant nx g merchant (share_of nx t)) _
            (λ e g h.
              live-touch_merchant g merchant (share_of nx t) (given (is_empty merchant) m e) h)
            (live-when (not (is_empty user)) (λ g. ensure_node nx g user (user_attrs nx user)) _
              (λ e g h.
                live-ensure_node g user (user_attrs nx user)
                  (sym (ap type_name (given (is_empty user) u e))) h)
              (live-ensure_node g (txn_of t) (node_attrs nx t) (sym (ap type_name x)) h)))

    live-edges :
        (g : G) (t : LiveTxn F)
        → kind (txn_of t) ≡ transaction_node
        → IsLiveGraph g
        → IsLiveGraph (add_edges nx g t)
    unfolding add_edges
    live-edges g t x h =
        let n = txn_of t in
        let user = user_of t in
        let merchant = merchant_of t in
        let device = live_device t in
        live-when (is_known device) (λ g. ensure_edge nx g n device "used") _
          (λ e g h. live-ensure_edge g n device "used" (inl x) h)
          (live-when (not (is_empty merchant)) (λ g. ensure_edge nx g n merchant "at") _
            (λ e g h. live-ensure_edge g n merchant "at" (inl x) h)
            (live-when (not (is_empty user)) (λ g. ensure_edge nx g user n "performed") _
              (λ e g h. live-ensure_edge g user n "performed" (inr x) h) h))

    live-build :
        (g : G) (t : LiveTxn F)
        → IsTyped kind t
        → IsLiveGraph g
        → IsLiveGraph (build_from_live_transaction nx g t)
    unfolding build_from_live_transaction
    live-build g t (x, u, m, d, c) h =
        live-when (is_p2p nx t) (λ g. add_counterparty nx g t) (add_edges nx (add_nodes nx g t) t)
          (λ e g h.
            live-counterparty g t x (given (is_empty (counterparty_of t)) c (and_right _ _ e)) h)
          (live-edges (add_nodes nx g t) t x (live-nodes g t (x, u, m, d, c) h))

    pub build_all-IsLiveGraph :
        (g : G) (ts : List (LiveTxn F))
        → All (IsTyped kind) ts
        → IsLiveGraph g
        → IsLiveGraph (build_all nx g ts)
    build_all-IsLiveGraph g [] k h = h
    build_all-IsLiveGraph g (t ∷ ts) (k, ks) h =
        build_all-IsLiveGraph (build_from_live_transaction nx g t) ts ks (live-build g t k h)
