-- ===== src/Graph/Listed.antt =====
-- A graph as lists of nodes and of edges, which meets what is asked of networkx.
use pay_shield.Prelude.{
  ◌≡◌, refl, sym, ap, ◌∙◌, subst, String, Bool, true, false, false≢true, not, ◌||◌, inl, inr,
  Option, none, some, List, [], ◌∷◌, All, any, filter, map, Bool-cases, Option-cases, or_true,
  find_key, put_key, str_eq, eq_iff, if◌then◌else◌,
}
use pay_shield.Graph.Nx.{AttrValue, Attrs, Edge, Nx, IsNx, created, with_attr, joins}

pub record Listed (F : Type 0) : Type 0 where
  pub items : List (String × Attrs F)
  pub links : List Edge

apart : (k n m : String) → str_eq k n ≡ false → str_eq k m ≡ true → str_eq n m ≡ false
apart k n m e i = elim (Bool-cases (str_eq n m)) [
  | inl j ↦ absurd (false≢true (sym e ∙ ap (str_eq k) ((eq_iff n m).0 j) ∙ i))
  | inr j ↦ j
]

find_key-put_key_at :
    {A : Type 0} (n m : String) (a : A) (xs : List (String × A))
    → find_key m (put_key n a xs) ≡ (if str_eq n m then some a else find_key m xs)
find_key-put_key_at n m a [] = refl
find_key-put_key_at n m a ((k, x) ∷ xs) = elim (Bool-cases (str_eq k n)) [
  | inl e ↦
      rw (e, (eq_iff k n).0 e)
        (elim (Bool-cases (str_eq n m)) [ inl i ↦ rw i refl | inr i ↦ rw i refl ])
  | inr e ↦ elim (Bool-cases (str_eq k m)) [
    | inl i ↦ let j : str_eq n m ≡ false = apart k n m e i in rw (e, i, j) refl
    | inr i ↦ rw (e, i) (find_key-put_key_at n m a xs)
  ]
]

abbrev ends : String → List Edge → List String
ends n [] = []
ends n (e ∷ es) =
    let rest = ends n es in
    if str_eq e.src n then e.dst ∷ rest else if str_eq e.dst n then e.src ∷ rest else rest

All-filter : (P : Edge → Type 0) (p : Edge → Bool) (es : List Edge) → All P es → All P (filter p es)
All-filter P p [] h = tt
All-filter P p (e ∷ es) (h, hs) = elim (Bool-cases (p e)) [
  | inl k ↦ rw k (h, All-filter P p es hs)
  | inr k ↦ rw k (All-filter P p es hs)
]

filter-holds :
    (q : String → Bool) (m : String) (xs : List String)
    → any (str_eq m) (filter q xs) ≡ true
    → q m ≡ true
filter-holds q m [] h = absurd (false≢true h)
filter-holds q m (x ∷ xs) h = elim (Bool-cases (q x)) [
  | inl k ↦ elim (Bool-cases (str_eq m x)) [
    | inl i ↦ subst (λ x. q x ≡ true) (sym ((eq_iff m x).0 i)) k
    | inr i ↦ filter-holds q m xs (rw (k, i) at h)
  ]
  | inr k ↦ filter-holds q m xs (rw k at h)
]

any-filter_less :
    (p q : String → Bool) (xs : List String) → any p (filter q xs) ≡ true → any p xs ≡ true
any-filter_less p q [] h = h
any-filter_less p q (x ∷ xs) h = elim (Bool-cases (p x)) [
  | inl i ↦ rw i refl
  | inr i ↦ elim (Bool-cases (q x)) [
    | inl k ↦ rw i (any-filter_less p q xs (rw (k, i) at h))
    | inr k ↦ rw i (any-filter_less p q xs (rw k at h))
  ]
]

flipped : (a b : String) → str_eq a b ≡ true → str_eq b a ≡ true
flipped a b h = (eq_iff b a).1 (sym ((eq_iff a b).0 h))

any-ends :
    (n m : String) (es : List Edge) → any (str_eq m) (ends n es) ≡ true → any (joins n m) es ≡ true
any-ends n m [] h = h
any-ends n m (e ∷ es) h = elim (Bool-cases (joins n m e)) [
  | inl j ↦ rw j refl
  | inr j ↦ rw j (
      any-ends n m es (elim (Bool-cases (str_eq e.src n)) [
        | inl p ↦ elim (Bool-cases (str_eq m e.dst)) [
          | inl i ↦ absurd (false≢true (sym j ∙ rw (p, flipped m e.dst i) refl))
          | inr i ↦ rw (p, i) at h
        ]
        | inr p ↦ elim (Bool-cases (str_eq e.dst n)) [
          | inl q ↦ elim (Bool-cases (str_eq m e.src)) [
            | inl i ↦ absurd (false≢true (sym j ∙ rw (p, flipped m e.src i, q) refl))
            | inr i ↦ rw (p, q, i) at h
          ]
          | inr q ↦ rw (p, q) at h
        ]
      ]))
]

created-false : {F : Type 0} (o : Option (Attrs F)) → created false o ≡ o
created-false none = refl
created-false (some a) = refl

created_twice :
    {F : Type 0} (b c : Bool) (o : Option (Attrs F)) → created c (created b o) ≡ created (b || c) o
created_twice b c (some a) = refl
created_twice true c none = refl
created_twice false true none = refl
created_twice false false none = refl

module _ {F : Type 0} where
  abbrev ensured : String → List (String × Attrs F) → Option (Attrs F) → List (String × Attrs F)
  ensured n xs none = put_key n [] xs
  ensured n xs (some a) = xs

  abbrev ensure : String → List (String × Attrs F) → List (String × Attrs F)
  ensure n xs = ensured n xs (find_key n xs)

  abbrev attributed :
      String
      → String
      → AttrValue F
      → List (String × Attrs F)
      → Option (Attrs F)
      → List (String × Attrs F)
  attributed n k v xs none = xs
  attributed n k v xs (some a) = put_key n (put_key k v a) xs

  abbrev names : List (String × Attrs F) → List String
  names = map (λ x. x.0)

  abbrev pub listed : Nx F (Listed F)
  listed = record {
    empty = record { items = []; links = [] };
    nodes = λ g. names g.items;
    node = λ g n. find_key n g.items;
    add_node = λ g n a. record g { items = put_key n a g.items };
    set_attr = λ g n k v. record g { items = attributed n k v g.items (find_key n g.items) };
    edges = λ g. g.links;
    has_edge = λ g u v. any (joins u v) g.links;
    add_edge = λ g u v t. record {
      items = ensure v (ensure u g.items);
      links =
          (record { src = u; dst = v; edge_type = t }) ∷ filter (λ e. not (joins u v e)) g.links;
    };
    neighbors = λ g n. filter (λ m. any (str_eq m) (names g.items)) (ends n g.links);
  }

  find_key-ensure :
      (n m : String) (xs : List (String × Attrs F))
      → find_key m (ensure n xs) ≡ created (str_eq n m) (find_key m xs)
  find_key-ensure n m xs = elim (Option-cases (find_key n xs)) [
    | inl e ↦
        ap (λ o. find_key m (ensured n xs o)) e
        ∙ find_key-put_key_at n m [] xs
        ∙ elim (Bool-cases (str_eq n m)) [
          | inl i ↦
              let z : find_key m xs ≡ none =
                subst (λ k. find_key k xs ≡ none) ((eq_iff n m).0 i) e in
              rw (i, z) refl
          | inr i ↦ rw i (sym (created-false (find_key m xs)))
        ]
    | inr (a, e) ↦ ap (λ o. find_key m (ensured n xs o)) e ∙ elim (Bool-cases (str_eq n m)) [
      | inl i ↦
          let z : find_key m xs ≡ some a =
            subst (λ k. find_key k xs ≡ some a) ((eq_iff n m).0 i) e in
          rw (i, z) refl
      | inr i ↦ rw i (sym (created-false (find_key m xs)))
    ]
  ]

  node-attributed :
      (n m k : String) (v : AttrValue F) (xs : List (String × Attrs F))
      → find_key m (attributed n k v xs (find_key n xs))
        ≡ (if str_eq n m then with_attr k v (find_key m xs) else find_key m xs)
  node-attributed n m k v xs = elim (Option-cases (find_key n xs)) [
    | inl e ↦ ap (λ o. find_key m (attributed n k v xs o)) e ∙ elim (Bool-cases (str_eq n m)) [
      | inl i ↦
          let z : find_key m xs ≡ none = subst (λ k. find_key k xs ≡ none) ((eq_iff n m).0 i) e in
          rw (i, z) refl
      | inr i ↦ rw i refl
    ]
    | inr (a, e) ↦
        ap (λ o. find_key m (attributed n k v xs o)) e
        ∙ find_key-put_key_at n m (put_key k v a) xs
        ∙ elim (Bool-cases (str_eq n m)) [
          | inl i ↦
              let z : find_key m xs ≡ some a =
                subst (λ k. find_key k xs ≡ some a) ((eq_iff n m).0 i) e in
              rw (i, z) refl
          | inr i ↦ rw i refl
        ]
  ]

  any-names :
      (n : String) (xs : List (String × Attrs F)) (a : Attrs F)
      → find_key n xs ≡ some a
      → any (str_eq n) (names xs) ≡ true
  any-names n [] a h = absurd (cc h)
  any-names n ((k, x) ∷ xs) a h = elim (Bool-cases (str_eq k n)) [
    | inl e ↦ rw (flipped k n e) refl
    | inr e ↦ rw (any-names n xs a (rw e at h)) (or_true (str_eq n k))
  ]

  -- The lists meet what the documentation says.
  pub listed-IsNx : IsNx listed
  listed-IsNx = record {
    node-empty = λ n. refl;
    edges-empty = refl;
    node-add_node = λ g n m a h. find_key-put_key_at n m a g.items;
    edges-add_node = λ g n a. refl;
    node-set_attr = λ g n m k v. node-attributed n m k v g.items;
    edges-set_attr = λ g n k v. refl;
    node-add_edge = λ g u v m t.
        find_key-ensure v m (ensure u g.items)
        ∙ ap (created (str_eq v m)) (find_key-ensure u m g.items)
        ∙ created_twice (str_eq u m) (str_eq v m) (find_key m g.items);
    edges-add_edge = λ P g u v t h p q. (p, All-filter P (λ e. not (joins u v e)) g.links h);
    neighbors-edges =
        λ g n m h. any-ends n m g.links (any-filter_less (str_eq m) _ (ends n g.links) h);
    neighbors-nodes =
        λ g n m h. filter-holds (λ m. any (str_eq m) (names g.items)) m (ends n g.links) h;
    nodes-node = λ g n a h. any-names n g.items a h;
  }
