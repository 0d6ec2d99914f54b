-- ===== src/Graph/Walks.antt =====
-- engine/graph_builder.py, `extract_device_sharing_depth`: what its result says.
use mathlib.Core.Option.{some-injective}
use pay_shield.Prelude.{
  ℕ, zero, suc, ◌+◌, ◌≡◌, refl, sym, subst, String, Bool, true, false, ◌&&◌, ◌⊎◌, inl, inr, some,
  List, [], ◌∷◌, All, All-append, any, length, ltb, Bool-cases, or_true, and_right, str_eq, eq_iff,
  if◌then◌else◌,
}
use pay_shield.Graph.Nx.{Nx, IsNx}
use pay_shield.Graph.Live.{has_node}
use pay_shield.Graph.Sharing.{
  Search, offer, offer_all, is_shared_device, deepened, search, extract_device_sharing_depth,
}
use pay_shield.Graph.Visits.{extract_device_sharing_depth_total}

module _ {F G : Type 0} (nx : Nx F G) (g : G) (user : String) where
  -- a node that so many steps along edges lead to from the user
  pub data Walk : String → ℕ → Type 0 where
    stay : Walk user 0
    step :
        {n m : String} {d : ℕ}
        → Walk n d
        → any (str_eq m) (nx.neighbors g n) ≡ true
        → Walk m (d + 1)

  -- a depth that is none, or that of a device with more than one user
  abbrev pub IsDepth : ℕ → Type 0
  IsDepth d = (d ≡ 0) ⊎ ((n : String) × Walk n d × (is_shared_device nx g n ≡ true))

  abbrev IsWalked : String × ℕ → Type 0
  IsWalked (n, d) = Walk n d

  IsWalked-offer_all :
      (n : String) (d : ℕ) (s : Search) (ns : List String)
      → Walk n d
      → ((m : String) → any (str_eq m) ns ≡ true → any (str_eq m) (nx.neighbors g n) ≡ true)
      → All IsWalked s.queue
      → All IsWalked (offer_all d s ns).queue
  unfolding offer_all
  IsWalked-offer_all n d s [] w h q = q
  IsWalked-offer_all n d s (m ∷ ns) w h q =
      IsWalked-offer_all n d (offer d s m) ns w (λ x k. h x (rw k (or_true _)))
        (elim (Bool-cases (any (str_eq m) s.visited)) [
          | inl e ↦ rw e q
          | inr e ↦ rw e (
              All-append IsWalked s.queue ((m, d + 1) ∷ []) q
                (step w (h m (rw ((eq_iff m m).1 refl) refl)), tt))
        ])

  IsDepth-deepened :
      (old d : ℕ) (n : String) → IsDepth old → Walk n d → IsDepth (deepened nx g old n d)
  IsDepth-deepened old d n h w =
      deeper (ltb 0 d && is_shared_device nx g n) (λ e. inr (n, w, and_right (ltb 0 d) _ e))
    where
      deeper :
          (b : Bool)
          → (b ≡ true → IsDepth d)
          → IsDepth (if b then (if ltb old d then d else old) else old)
      deeper false k = h
      deeper true k = elim (Bool-cases (ltb old d)) [ inl e ↦ rw e (k refl) | inr e ↦ rw e h ]

  search-IsDepth :
      (fuel : ℕ) (vs : List String) (q : List (String × ℕ)) (old d : ℕ)
      → All IsWalked q
      → IsDepth old
      → search nx g fuel vs q old ≡ some d
      → IsDepth d
  unfolding search
  search-IsDepth fuel vs [] old d q h e = subst IsDepth (some-injective _ _ e) h
  search-IsDepth zero vs ((n, depth) ∷ r) old d q h e = absurd (cc e)
  search-IsDepth (suc fuel) vs ((n, depth) ∷ r) old d (w, q) h e =
      let s = offer_all depth (record { visited = vs; queue = r }) (nx.neighbors g n) in
      search-IsDepth fuel s.visited s.queue (deepened nx g old n depth) d
        (IsWalked-offer_all n depth (record { visited = vs; queue = r }) (nx.neighbors g n) w
          (λ m k. k) q)
        (IsDepth-deepened old depth n h w) e

  extract-IsDepth : (fuel d : ℕ) → extract_device_sharing_depth nx g fuel user ≡ some d → IsDepth d
  unfolding extract_device_sharing_depth
  extract-IsDepth fuel d e = elim (Bool-cases (has_node nx g user)) [
    | inl k ↦ search-IsDepth fuel (user ∷ []) ((user, 0) ∷ []) 0 d (stay, tt) (inl refl) (rw k at e)
    | inr k ↦ inl (sym (some-injective _ _ (rw k at e)))
  ]

  -- With one unit of fuel for each node of the graph the search ends, and its depth is 0 or that of a
  -- walk from the user to a device that more than one user is next to.
  pub extract_device_sharing_depth-IsDepth :
      IsNx nx
      → (d : ℕ) × (extract_device_sharing_depth nx g (length (nx.nodes g)) user ≡ some d)
        × IsDepth d
  extract_device_sharing_depth-IsDepth lawful =
      let (d, e) = extract_device_sharing_depth_total lawful g user in
      (d, e, extract-IsDepth (length (nx.nodes g)) d e)
