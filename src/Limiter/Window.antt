-- ===== src/Limiter/Window.antt =====
-- api/security.py: the local sliding window.
use pay_shield.Prelude.{
  ℕ, ◌+◌, ◌-◌, ◌<◌, ◌≡◌, refl, ◌∙◌, ap, String, false, none, List, [], ◌∷◌, ◌++◌, arith,
  filter-append, length-append, ltb, lt→ltb, str_eq, eq_iff, Bool-cases, inl, inr,
}
use pay_shield.Limiter.{Store, recent, is_allowed, get_remaining, reset}

recent-recent : (now w : ℕ) (ts : List ℕ) → recent now w (recent now w ts) ≡ recent now w ts
unfolding recent
recent-recent now w [] = refl
recent-recent now w (t ∷ ts) = elim (Bool-cases (ltb now (t + w))) [
  | inl e ↦ rw (e, e) (ap (λ us. t ∷ us) (recent-recent now w ts))
  | inr e ↦ rw e (recent-recent now w ts)
]

recent-snoc :
    (now w : ℕ) (ts : List ℕ)
    → 0 < w
    → recent now w (recent now w ts ++ now ∷ []) ≡ recent now w ts ++ now ∷ []
unfolding recent
recent-snoc now w ts h =
    filter-append (λ t. ltb now (t + w)) (recent now w ts) (now ∷ [])
    ∙ rw (lt→ltb now (now + w) (omega arith)) (ap (λ us. us ++ now ∷ []) (recent-recent now w ts))

-- Without Redis and with a window of at least one second, a request is allowed exactly if some
-- requests remain; it leaves one less for its key, and the timestamps of every other key alone; and
-- after a reset the whole limit remains.
pub is_allowed-get_remaining :
    (now : ℕ) (key : String) (limit window : ℕ) (s : Store)
    → 0 < window
    → let before = get_remaining none now key limit window s in
      let (allowed, s') = is_allowed none now key limit window s in
      (allowed ≡ ltb 0 before)
      × (get_remaining none now key limit window s' ≡ before - 1)
      × ((k : String) → str_eq key k ≡ false → s' k ≡ s k)
      × (get_remaining none now key limit window (reset key s') ≡ limit)
unfolding is_allowed get_remaining reset
is_allowed-get_remaining now key limit window s h =
    let same = (eq_iff key key).1 refl in
    let kept = recent now window (s key) in
    let grown = length-append kept (now ∷ []) in
    (
      rw grown (ground arith),
      rw (same, recent-snoc now window (s key) h, grown) (omega arith),
      (λ k e. rw e refl),
      rw same (unfold recent in omega arith),
    )
