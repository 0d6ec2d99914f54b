-- ===== src/Graph/Blind.antt =====
-- engine/graph_builder.py: the features of fraud on a graph of live transactions. They look for
-- merchants next to users and for users next to devices, but there the neighbors of both are
-- transactions.
use pay_shield.Prelude.{
  ◌≡◌, refl, sym, ap, ap₂, ◌∙◌, subst, String, Bool, true, false, false≢true, ◌&&◌, ◌||◌, ◌⊎◌, inl,
  inr, none, some, List, [], ◌∷◌, All, any, filter, length, ltb, Bool-cases, and_left, and_right,
  or_true, str_eq, eq_iff, if◌then◌else◌,
}
use pay_shield.Prelude.Float.{Float, lit}
use pay_shield.Graph.Nx.{Edge, Nx, IsNx, joins}
use pay_shield.Graph.Live.{LiveTxn, has_node, build_all}
use pay_shield.Graph.Kinds.{
  NodeKind, transaction_node, user_node, merchant_node, device_node, type_name, type_of, IsTyped,
  IsCrossing, IsLiveGraph, live-empty, build_all-IsLiveGraph,
}
use pay_shield.Graph.Patterns.{
  counts_edge, merchant_txns, get_merchants, mutual_partners, concentration, shared_merchants,
  extract_merchant_concentration,
}
use pay_shield.Graph.Sharing.{is_shared_device, extract_device_sharing_depth}
use pay_shield.Graph.Walks.{extract_device_sharing_depth-IsDepth}

abbrev is_transaction : NodeKind → Bool
is_transaction transaction_node = true
is_transaction _ = false

-- the kind that a type names
abbrev names : String → NodeKind → Bool
names t k = str_eq (type_name k) t

-- a node of one of the types that the features look for is no transaction
other_kind :
    (t : String) (k : NodeKind)
    → str_eq "Transaction" t ≡ false
    → names t k ≡ true
    → is_transaction k ≡ false
other_kind t transaction_node h e = absurd (false≢true (sym h ∙ e))
other_kind t user_node h e = refl
other_kind t merchant_node h e = refl
other_kind t device_node h e = refl

filter_none :
    {A : Type 0} (p : A → Bool) (xs : List A) → All (λ x. p x ≡ false) xs → filter p xs ≡ []
filter_none p [] h = refl
filter_none p (x ∷ xs) (e, h) = rw (e, filter_none p xs h) refl

All-any :
    (P : String → Type 0) (xs : List String)
    → ((x : String) → any (str_eq x) xs ≡ true → P x)
    → All P xs
All-any P [] h = tt
All-any P (x ∷ xs) h =
    (h x (rw ((eq_iff x x).1 refl) refl), All-any P xs (λ y k. h y (rw k (or_true (str_eq y x)))))

module _ {F G : Type 0} {nx : Nx F G} (lawful : IsNx nx) (kind : String → NodeKind) (g : G) where
  module _ (h : IsLiveGraph lawful kind g) where
    kind_of :
        (t n : String)
        → str_eq "" t ≡ false
        → str_eq (type_of nx g n) t ≡ true
        → names t (kind n) ≡ true
    kind_of t n e k = elim (h.0 n) [
      | inl x ↦ absurd (false≢true (sym e ∙ subst (λ s. str_eq s t ≡ true) x k))
      | inr x ↦ subst (λ s. str_eq s t ≡ true) x k
    ]

    ends :
        (n m a b : String)
        → (kind a ≡ transaction_node) ⊎ (kind b ≡ transaction_node)
        → str_eq a n ≡ true
        → str_eq b m ≡ true
        → is_transaction (kind n) ≡ false
        → kind m ≡ transaction_node
    ends n m a b (inl t) p q x =
        let e : kind n ≡ transaction_node = ap kind (sym ((eq_iff a n).0 p)) ∙ t in
        absurd (false≢true (sym x ∙ ap is_transaction e))
    ends n m a b (inr t) p q x = ap kind (sym ((eq_iff b m).0 q)) ∙ t

    swapped : {A B : Type 0} → A ⊎ B → B ⊎ A
    swapped (inl a) = inr a
    swapped (inr b) = inl b

    -- a neighbor of a node that is no transaction is one
    across :
        (n m : String) (es : List Edge)
        → All (IsCrossing lawful kind) es
        → is_transaction (kind n) ≡ false
        → any (joins n m) es ≡ true
        → kind m ≡ transaction_node
    across n m [] c x e = absurd (false≢true e)
    across n m (d ∷ es) (c, cs) x e = elim (Bool-cases (joins n m d)) [
      | inl k ↦ elim (Bool-cases (str_eq d.src n && str_eq d.dst m)) [
        | inl i ↦ ends n m d.src d.dst c (and_left _ _ i) (and_right (str_eq d.src n) _ i) x
        | inr i ↦
            let j : str_eq d.src m && str_eq d.dst n ≡ true = rw i at k in
            ends n m d.dst d.src (swapped c) (and_right (str_eq d.src m) _ j) (and_left _ _ j) x
      ]
      | inr k ↦ across n m es cs x (rw k at e)
    ]

    -- no neighbor of such a node has a type other than that of transactions
    no_neighbor :
        (t n : String)
        → str_eq "" t ≡ false
        → str_eq "Transaction" t ≡ false
        → is_transaction (kind n) ≡ false
        → filter (λ m. str_eq (type_of nx g m) t) (nx.neighbors g n) ≡ []
    no_neighbor t n e i x =
        filter_none (λ m. str_eq (type_of nx g m) t) (nx.neighbors g n)
          (All-any (λ m. str_eq (type_of nx g m) t ≡ false) (nx.neighbors g n)
            (λ m k. elim (Bool-cases (str_eq (type_of nx g m) t)) [
              | inl j ↦
                  let c = across n m (nx.edges g) h.1 x (lawful.neighbors-edges g n m k) in
                  absurd (
                    false≢true (sym i ∙ ap (λ k. str_eq (type_name k) t) (sym c) ∙ kind_of t m e j))
              | inr j ↦ j
            ]))

    -- no edge counts for a user
    uncounted :
        (user : String) (d : Edge)
        → kind user ≡ user_node
        → IsCrossing lawful kind d
        → counts_edge nx g user d ≡ true
        → false ≡ true
    uncounted user d u c k =
        let by = str_eq d.src user && str_eq d.edge_type "performed" in
        let m = kind_of "Merchant" d.dst refl (and_right (by || str_eq d.dst user) _ k) in
        let p : by || str_eq d.dst user ≡ true = and_left _ _ k in
        elim (Bool-cases (str_eq d.dst user)) [
          | inl e ↦ ap (names "Merchant") (sym (ap kind ((eq_iff d.dst user).0 e) ∙ u)) ∙ m
          | inr e ↦ elim (Bool-cases by) [
            | inl b ↦
                let t =
                  ends user d.dst d.src d.dst c (and_left _ _ b) ((eq_iff d.dst d.dst).1 refl)
                    (ap is_transaction u) in
                ap (names "Merchant") (sym t) ∙ m
            | inr b ↦ rw (b, e) at p
          ]
        ]

    no_merchant_txn :
        (user : String) (es : List Edge)
        → kind user ≡ user_node
        → All (IsCrossing lawful kind) es
        → merchant_txns nx g user es [] ≡ []
    unfolding merchant_txns
    no_merchant_txn user [] u c = refl
    no_merchant_txn user (d ∷ es) u (c, cs) = elim (Bool-cases (counts_edge nx g user d)) [
      | inl k ↦ absurd (false≢true (uncounted user d u c k))
      | inr k ↦ rw k (no_merchant_txn user es u cs)
    ]

    IsSharedDevice-not : (n : String) → is_shared_device nx g n ≡ true → false ≡ true
    IsSharedDevice-not n k =
        let device = str_eq (type_of nx g n) "Device" in
        let d = other_kind "Device" (kind n) refl (kind_of "Device" n refl (and_left device _ k)) in
        let none = no_neighbor "User" n refl refl d in
        ap (λ us. ltb 1 (length us)) (sym none) ∙ and_right device _ k

    found :
        (user : String)
        → kind user ≡ user_node
        → get_merchants nx g user ≡ (if has_node nx g user then some [] else none)
    found user u =
        ap (λ ms. if has_node nx g user then some ms else none)
          (no_neighbor "Merchant" user refl refl (ap is_transaction u))

    nothing_shared :
        (a b : String)
        → kind a ≡ user_node
        → kind b ≡ user_node
        → (mutual_partners nx g a b ≡ none) ⊎ (mutual_partners nx g a b ≡ some [])
    unfolding mutual_partners
    nothing_shared a b u v =
        subst (λ o. (o ≡ none) ⊎ (o ≡ some []))
          (sym (ap₂ (shared_merchants nx) (found a u) (found b v)))
          (both (has_node nx g a) (has_node nx g b))
      where
        both :
            (p q : Bool)
            → let o =
                shared_merchants nx (if p then some [] else none) (if q then some [] else none) in
              (o ≡ none) ⊎ (o ≡ some [])
        both true true = inr refl
        both true false = inl refl
        both false q = inl refl

    no_depth :
        (user : String) → extract_device_sharing_depth nx g (length (nx.nodes g)) user ≡ some 0
    no_depth user =
        let (d, e, k) = extract_device_sharing_depth-IsDepth nx g user lawful in
        elim k [
          | inl z ↦ e ∙ ap some z
          | inr (n, w, x) ↦ absurd (false≢true (IsSharedDevice-not n x))
        ]

    module _ ⦃f : Float F⦄ where
      no_concentration :
          (user : String)
          → kind user ≡ user_node
          → let x : F = extract_merchant_concentration nx g user in x ≡ lit 0
      unfolding extract_merchant_concentration
      no_concentration user u = ap (concentration nx) (no_merchant_txn user (nx.edges g) u h.1)

module _ {F G : Type 0} ⦃f : Float F⦄ (nx : Nx F G) (lawful : IsNx nx) where
  -- On a graph that grew from an empty one by live transactions whose ids name nodes of one kind
  -- each, a user has no concentration on a merchant, shares no merchant with another, and has the
  -- depth 0 of shared devices.
  pub build_all-blind :
      (kind : String → NodeKind) (ts : List (LiveTxn F)) (a b : String)
      → All (IsTyped kind) ts
      → kind a ≡ user_node
      → kind b ≡ user_node
      → let g = build_all nx nx.empty ts in
        (extract_merchant_concentration nx g a ≡ lit 0)
        × ((mutual_partners nx g a b ≡ none) ⊎ (mutual_partners nx g a b ≡ some []))
        × (extract_device_sharing_depth nx g (length (nx.nodes g)) a ≡ some 0)
  build_all-blind kind ts a b typed u v =
      let g = build_all nx nx.empty ts in
      let h = build_all-IsLiveGraph lawful kind nx.empty ts typed (live-empty lawful kind) in
      (
        no_concentration lawful kind g h a u,
        nothing_shared lawful kind g h a b u v,
        no_depth lawful kind g h a,
      )
