-- ===== src/Breaker/States.antt =====
-- store/connection_pool.py: the states of the breaker, over every run of calls that overlap.
use pay_shield.Prelude.{
  ℕ, suc, ◌+◌, ◌≤◌, ◌<◌, ◌≡◌, refl, sym, ◌∙◌, ap, String, Bool, true, false, arith, leb, length,
  if◌then◌else◌, inl, inr, Bool-cases, false≢true,
}
use native.Mathlib.Nat.{le_trans}
use pay_shield.Breaker.{
  State, closed, opened, half_open, Config, CircuitBreaker, Outcome, returns, fails, raises, Call,
  fresh, fall_back, attempt, enter, call, recovered, update_fallback_cache, Reachable, start,
  begins, ends, caches,
}
use pay_shield.Breaker.Cache.{length-fallback-le, length-update-le}

-- CLOSED only while the failures are below the threshold, and the cache within its bound
abbrev pub IsValid : Config → CircuitBreaker → Type 0
IsValid c b =
    (b.state ≡ closed → b.failure_count < c.failure_threshold)
    × (length b.fallback_cache ≤ c.fallback_max_entries)

abbrev is_closed : State → Bool
is_closed closed = true
is_closed _ = false

not_closed : {A : Type 0} {s : State} → is_closed s ≡ false → s ≡ closed → A
not_closed h e = absurd (false≢true (sym h ∙ ap is_closed e))

attempt-IsValid :
    (c : Config) (k : Call) (b : CircuitBreaker)
    → 1 ≤ c.failure_threshold
    → IsValid c b
    → IsValid c (attempt c k b).1
unfolding attempt fall_back
attempt-IsValid c k b h (s, l) = at k.outcome
  where
    failed :
        (if leb c.failure_threshold (b.failure_count + 1) then opened else b.state) ≡ closed
        → b.failure_count + 1 < c.failure_threshold
    failed = elim (Bool-cases (leb c.failure_threshold (b.failure_count + 1))) [
      | inl e ↦ rw e (λ q. not_closed refl q)
      | inr e ↦ rw e (λ q. ground arith)
    ]

    at : (o : Outcome) → IsValid c (attempt c (record k { outcome = o }) b).1
    at (returns v) = (λ q. h, l)
    at fails = (failed, le_trans (length-fallback-le c k.later k.key b.fallback_cache) l)
    at raises = (s, l)

enter-IsValid :
    (c : Config) (k : Call) (b : CircuitBreaker) → IsValid c b → IsValid c (enter c k b).1
unfolding enter fall_back
enter-IsValid c k b (s, l) = at b.state refl
  where
    at : (t : State) → b.state ≡ t → IsValid c (enter c k b).1
    at closed e = rw e (λ q. s e, l)
    at half_open e = rw e (λ q. not_closed refl q, l)
    at opened e = elim (Bool-cases (recovered c k.now b)) [
      | inl r ↦ rw (e, r) (λ q. not_closed refl q, l)
      | inr r ↦
          rw (e, r)
            (λ q. not_closed refl q, le_trans (length-fallback-le c k.now k.key b.fallback_cache) l)
    ]

-- In every state that a breaker reaches by calls that may overlap and by filling its cache, it is
-- CLOSED only if the count of failures is below the threshold, and the cache has no more than the
-- maximum number of entries, if both bounds are at least 1.
pub Reachable-IsValid :
    (c : Config) (n : ℕ) (b : CircuitBreaker)
    → 1 ≤ c.failure_threshold
    → 1 ≤ c.fallback_max_entries
    → Reachable c n b
    → IsValid c b
unfolding fresh update_fallback_cache
Reachable-IsValid c n b h m start = (λ q. h, omega arith)
Reachable-IsValid c n b h m (begins {n = i} {b = a} r k) =
    enter-IsValid c k a (Reachable-IsValid c i a h m r)
Reachable-IsValid c n b h m (ends {b = a} r k) =
    attempt-IsValid c k a h (Reachable-IsValid c (suc n) a h m r)
Reachable-IsValid c n b h m (caches {b = a} r now k v) =
    let (s, l) = Reachable-IsValid c n a h m r in (s, length-update-le c now k v a m l)

-- While the breaker is OPEN and has not recovered, a call does not depend on the coroutine, and
-- leaves the state, the count and the time of the last failure alone.
pub call_open :
    (c : Config) (k : Call) (o : Outcome) (b : CircuitBreaker)
    → b.state ≡ opened
    → recovered c k.now b ≡ false
    → (call c (record k { outcome = o }) b ≡ call c k b)
      × ((call c k b).1.state ≡ opened)
      × ((call c k b).1.failure_count ≡ b.failure_count)
      × ((call c k b).1.last_failure_time ≡ b.last_failure_time)
unfolding call enter fall_back
call_open c k o b h r = rw (h, r) (refl, refl, refl, refl)

-- Let a breaker be OPEN while a call still waits for its coroutine, and let the threshold be 2 or
-- more. If that coroutine returns, the breaker stays OPEN with a count of 0, and the first call after
-- the recovery does not open it again when it fails, but leaves it HALF_OPEN.
pub late_success :
    (c : Config) (n : ℕ) (b : CircuitBreaker) (late probe : Call) (v : String)
    → 2 ≤ c.failure_threshold
    → Reachable c (suc n) b
    → b.state ≡ opened
    → recovered c probe.now b ≡ true
    → let b1 = (attempt c (record late { outcome = returns v }) b).1 in
      Reachable c n b1
      × (b1.state ≡ opened)
      × (b1.failure_count ≡ 0)
      × ((call c (record probe { outcome = fails }) b1).1.state ≡ half_open)
unfolding call enter attempt fall_back
late_success c n b late probe v h reached e r =
    let below : leb c.failure_threshold 1 ≡ false = ground arith in
    (ends reached (record late { outcome = returns v }), rw e refl, refl, rw (e, r, below) refl)
