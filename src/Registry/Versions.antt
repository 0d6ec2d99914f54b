-- ===== src/Registry/Versions.antt =====
-- ml/registry.py, `_next_version`: the new version comes after all that there are.
use pay_shield.Prelude.{
  ◌+◌, ◌≡◌, refl, sym, ap, subst, ◌∙◌, true, false, Bool-cases, inl, inr, some, List, [], ◌∷◌, All,
  if◌then◌else◌, arith, false≢true,
}
use pay_shield.Registry.{Version, before, latest_version, bumped, next_version}

before_trans : (a b c : Version) → before a b ≡ true → before b c ≡ true → before a c ≡ true
unfolding before
before_trans [] [] c h k = absurd (false≢true h)
before_trans [] (y ∷ b) [] h k = absurd (false≢true k)
before_trans [] (y ∷ b) (z ∷ c) h k = refl
before_trans (x ∷ a) [] c h k = absurd (false≢true h)
before_trans (x ∷ a) (y ∷ b) [] h k = absurd (false≢true k)
before_trans (x ∷ a) (y ∷ b) (z ∷ c) h k = ground (arith, before_trans a b c)

before_irrefl : (a : Version) → before a a ≡ false
unfolding before
before_irrefl [] = refl
before_irrefl (x ∷ a) = ground (arith, before_irrefl a)

-- an entry that is not after v is not after the latest of v and others
latest_version-keeps :
    (v w : Version) (ws : List Version)
    → before v w ≡ false
    → before (latest_version v ws) w ≡ false
unfolding latest_version
latest_version-keeps v w [] h = h
latest_version-keeps v w (x ∷ ws) h = elim (Bool-cases (before v x)) [
  | inl e ↦ rw e (latest_version-keeps x w ws (up e))
  | inr e ↦ rw e (latest_version-keeps v w ws h)
]
  where
    up : before v x ≡ true → before x w ≡ false
    up e = elim (Bool-cases (before x w)) [
      | inl k ↦ absurd (false≢true (sym h ∙ before_trans v x w e k))
      | inr k ↦ k
    ]

latest_version-max :
    (v : Version) (ws : List Version) → All (λ w. before (latest_version v ws) w ≡ false) ws
unfolding latest_version
latest_version-max v [] = tt
latest_version-max v (x ∷ ws) = elim (Bool-cases (before v x)) [
  | inl e ↦
      from (ap (λ b. latest_version (if b then x else v) ws) e)
        (latest_version-keeps x x ws (before_irrefl x), latest_version-max x ws)
  | inr e ↦
      from (ap (λ b. latest_version (if b then x else v) ws) e)
        (latest_version-keeps v x ws e, latest_version-max v ws)
]
  where
    from :
        {m : Version}
        → latest_version v (x ∷ ws) ≡ m
        → All (λ w. before m w ≡ false) (x ∷ ws)
        → All (λ w. before (latest_version v (x ∷ ws)) w ≡ false) (x ∷ ws)
    from e h = subst (λ m. All (λ w. before m w ≡ false) (x ∷ ws)) (sym e) h

below_bumped : (m v w : Version) → bumped m ≡ some v → before m w ≡ false → before w v ≡ true
unfolding before
below_bumped [] v w h k = absurd (cc h)
below_bumped (a ∷ []) v w h k = absurd (cc h)
below_bumped (a ∷ b ∷ r) v w h k = ap (before w) (cc (sym h)) ∙ below w k
  where
    below : (w : Version) → before (a ∷ b ∷ r) w ≡ false → before w (a ∷ (b + 1) ∷ 0 ∷ []) ≡ true
    below [] k = refl
    below (x ∷ []) k = ground arith
    below (x ∷ y ∷ ys) k = ground arith

-- A version that is given out comes after every version there is, so that it is none of them.
pub next_version-before :
    (vs : List Version) (v : Version) → next_version vs ≡ some v → All (λ w. before w v ≡ true) vs
unfolding next_version
next_version-before [] v h = tt
next_version-before (w ∷ ws) v h =
    each (w ∷ ws) (latest_version-keeps w w ws (before_irrefl w), latest_version-max w ws)
  where
    each :
        (us : List Version)
        → All (λ u. before (latest_version w ws) u ≡ false) us
        → All (λ u. before u v ≡ true) us
    each [] k = tt
    each (u ∷ us) (k, ks) = (below_bumped (latest_version w ws) v u h k, each us ks)
