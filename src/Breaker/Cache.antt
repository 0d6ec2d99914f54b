-- ===== src/Breaker/Cache.antt =====
-- store/connection_pool.py: the fallback cache of the breaker.
use pay_shield.Prelude.{
  ℕ, ◌+◌, ◌-◌, ◌≤◌, ◌<◌, ◌≡◌, refl, String, Bool, true, false, Option, none, some, List, [], ◌∷◌,
  arith, ltb, leb, lt→ltb, length, if◌then◌else◌, str_eq, eq_iff, Bool-cases, inl, inr, any, ◌||◌,
  false≢true,
}
use native.Mathlib.Nat.{le_trans}
use pay_shield.Breaker.{
  opened, Cached, Config, CircuitBreaker, Call, Reply, lookup, delete, if_recent, get_from_fallback,
  fall_back, enter, oldest, evict, put, update_fallback_cache, call, recovered,
}

str_refl : (s : String) → str_eq s s ≡ true
str_refl s = (eq_iff s s).1 refl

or_true : (a : Bool) {b : Bool} → b ≡ true → (a || b) ≡ true
or_true true h = refl
or_true false h = h

or_middle : (a b c : Bool) → (a || c) ≡ true → (a || (b || c)) ≡ true
or_middle true b c h = refl
or_middle false b c h = or_true b h

length-delete-le : (es : List Cached) (k : String) → length (delete es k) ≤ length es
length-delete-le [] k = omega arith
length-delete-le (e ∷ es) k = ground (arith, length-delete-le es k)

pub length-fallback-le :
    (c : Config) (now : ℕ) (k : String) (es : List Cached)
    → length (get_from_fallback c now k es).1 ≤ length es
unfolding get_from_fallback
length-fallback-le c now k es = at (lookup es k)
  where
    at : (o : Option Cached) → length (if_recent c now es o).1 ≤ length es
    at none = omega arith
    at (some e) = elim (Bool-cases (ltb (now - e.stored_at) c.fallback_age)) [
      | inl p ↦ rw p (omega arith)
      | inr p ↦ rw p (length-delete-le es e.key)
    ]

-- some entry has the key
abbrev has : String → List Cached → Bool
has k es = any (λ e. str_eq e.key k) es

length-delete-lt :
    (es : List Cached) (k : String) → has k es ≡ true → length (delete es k) < length es
length-delete-lt [] k h = absurd (false≢true h)
length-delete-lt (e ∷ es) k h = ground (arith, length-delete-lt es k, length-delete-le es k)

or_if :
    (b : Bool) (e m : Cached) (es : List Cached)
    → has (oldest e es).key (e ∷ es) ≡ true
    → has (oldest m es).key (m ∷ es) ≡ true
    → has (oldest (if b then e else m) es).key (m ∷ e ∷ es) ≡ true
or_if true e m es h k = or_true (str_eq m.key (oldest e es).key) h
or_if false e m es h k =
    or_middle (str_eq m.key (oldest m es).key) (str_eq e.key (oldest m es).key) _ k

has-oldest : (m : Cached) (es : List Cached) → has (oldest m es).key (m ∷ es) ≡ true
has-oldest m [] = ground (arith, str_refl m.key)
has-oldest m (e ∷ es) =
    or_if (ltb e.stored_at m.stored_at) e m es (has-oldest e es) (has-oldest m es)

length-evict-lt : (e : Cached) (es : List Cached) → length (evict (e ∷ es)) < length (e ∷ es)
length-evict-lt e es = length-delete-lt (e ∷ es) (oldest e es).key (has-oldest e es)

length-put-le : (x : Cached) (es : List Cached) → length (put x es) ≤ length es + 1
length-put-le x [] = omega arith
length-put-le x (e ∷ es) = ground (arith, length-put-le x es)

lookup-put : (x : Cached) (es : List Cached) → lookup (put x es) x.key ≡ some x
lookup-put x [] = rw (str_refl x.key) refl
lookup-put x (e ∷ es) = elim (Bool-cases (str_eq e.key x.key)) [
  | inl p ↦ rw (p, str_refl x.key) refl
  | inr p ↦ rw (p, p) (lookup-put x es)
]

pub length-update-le :
    (c : Config) (now : ℕ) (k v : String) (b : CircuitBreaker)
    → 1 ≤ c.fallback_max_entries
    → length b.fallback_cache ≤ c.fallback_max_entries
    → length (update_fallback_cache c now k v b).fallback_cache ≤ c.fallback_max_entries
unfolding update_fallback_cache
length-update-le c now k v b h l =
    le_trans (length-put-le _ (room b.fallback_cache)) (room-lt b.fallback_cache l)
  where
    room : List Cached → List Cached
    room es = if leb c.fallback_max_entries (length es) then evict es else es

    room-lt :
        (es : List Cached)
        → length es ≤ c.fallback_max_entries
        → length (room es) + 1 ≤ c.fallback_max_entries
    room-lt [] l = ground arith
    room-lt (e ∷ es) l = ground (arith, length-evict-lt e es)

-- A value cached under a key is what a call with that key returns while the breaker is open and has
-- not recovered, until the value is too old.
pub call-update_fallback_cache :
    (c : Config) (now : ℕ) (v : String) (k : Call) (b : CircuitBreaker)
    → b.state ≡ opened
    → recovered c k.now b ≡ false
    → k.now - now < c.fallback_age
    → (call c k (update_fallback_cache c now k.key v b)).0 ≡ Reply.cached v
unfolding call enter fall_back get_from_fallback update_fallback_cache
call-update_fallback_cache c now v k b o r h =
    let x : Cached = record { key = k.key; stored_at = now; value = v } in
    rw
      (
        o,
        r,
        lookup-put x (
            if leb c.fallback_max_entries (length b.fallback_cache)
            then evict b.fallback_cache
            else b.fallback_cache),
        lt→ltb _ _ h,
      )
      refl
