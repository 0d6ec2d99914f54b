-- ===== src/Breaker.antt =====
-- store/connection_pool.py: `CircuitBreaker`. A call is described by its key, the outcome of the
-- wrapped coroutine and the clock readings; times are whole numbers in one unit, of which
-- `recovery_timeout` and the 60 s of a cached value are given. Other calls run while one awaits its
-- coroutine, so the part before the `await` and the part after it are steps of their own. An exception that is none of the three
-- caught kinds leaves the breaker as the entry made it.
pub mod States
pub mod Cache
mod Tests
use pay_shield.Prelude.{
  ℕ, suc, ◌+◌, ◌-◌, ◌≤◌, String, Bool, true, false, not, ◌&&◌, Option, none, some, List, [], ◌∷◌,
  ◌++◌, ltb, leb, length, if◌then◌else◌, str_eq,
}

pub data State : Type 0 where
  closed opened half_open : State

pub record Cached : Type 0 where
  pub key : String
  pub stored_at : ℕ
  pub value : String

pub record Config : Type 0 where
  pub failure_threshold : ℕ
  pub recovery_timeout : ℕ
  pub fallback_max_entries : ℕ
  pub fallback_age : ℕ

pub record CircuitBreaker : Type 0 where
  pub state : State
  pub failure_count : ℕ
  pub last_failure_time : ℕ
  pub fallback_cache : List Cached

-- what the wrapped coroutine does: it returns, raises a caught error, or raises another one
pub data Outcome : Type 0 where
  returns : String → Outcome
  fails raises : Outcome

pub data Reply : Type 0 where
  result cached : String → Reply
  unavailable raised : Reply

pub record Call : Type 0 where
  pub key : String
  pub now : ℕ
  pub later : ℕ
  pub outcome : Outcome

unfoldable pub fresh : CircuitBreaker
fresh = record { state = closed; failure_count = 0; last_failure_time = 0; fallback_cache = [] }

abbrev pub lookup : List Cached → String → Option Cached
lookup [] k = none
lookup (e ∷ es) k = let rest = lookup es k in if str_eq e.key k then some e else rest

-- `del d[key]`
abbrev pub delete : List Cached → String → List Cached
delete [] k = []
delete (e ∷ es) k = let rest = delete es k in if str_eq e.key k then rest else e ∷ rest

-- `_get_from_fallback` on the entry found
abbrev pub if_recent : Config → ℕ → List Cached → Option Cached → Option String × List Cached
if_recent c now es none = (none, es)
if_recent c now es (some e) =
    if ltb (now - e.stored_at) c.fallback_age then (some e.value, es) else (none, delete es e.key)

unfoldable pub get_from_fallback : Config → ℕ → String → List Cached → Option String × List Cached
get_from_fallback c now k es = if_recent c now es (lookup es k)

abbrev pub reply_of : Option String → Reply
reply_of none = unavailable
reply_of (some v) = cached v

-- `return cached` or `raise RedisUnavailableError`
unfoldable pub fall_back : Config → ℕ → String → CircuitBreaker → Reply × CircuitBreaker
fall_back c now k b =
    let (r, es) = get_from_fallback c now k b.fallback_cache in
    (reply_of r, record b { fallback_cache = es })

-- what follows `await func()`, and the handler, on the breaker as it is when the coroutine ends
unfoldable pub attempt : Config → Call → CircuitBreaker → Reply × CircuitBreaker
unfolding fall_back
attempt c call b = elim call.outcome [
  | returns v ↦ (
    result v,
    record b { state = elim b.state [ half_open ↦ closed | s ↦ s ]; failure_count = 0 },
  )
  | fails ↦ fall_back c call.later call.key (record b {
    state = if leb c.failure_threshold (b.failure_count + 1) then opened else b.state;
    failure_count = b.failure_count + 1;
    last_failure_time = call.later;
  })
  | raises ↦ (raised, b)
]

abbrev pub recovered : Config → ℕ → CircuitBreaker → Bool
recovered c now b = ltb c.recovery_timeout (now - b.last_failure_time)

-- `call` up to its `await`: a reply at once, or none where the coroutine is awaited
unfoldable pub enter : Config → Call → CircuitBreaker → Option Reply × CircuitBreaker
unfolding fall_back
enter c k b = elim b.state [
  | opened ↦
      if recovered c k.now b
      then (none, record b { state = half_open })
      else let (r, b2) = fall_back c k.now k.key b in (some r, b2)
  | _ ↦ (none, b)
]

abbrev pub go_on : Config → Call → Option Reply × CircuitBreaker → Reply × CircuitBreaker
go_on c k (none, b) = attempt c k b
go_on c k (some r, b) = (r, b)

-- a call during whose `await` no other runs
unfoldable pub call : Config → Call → CircuitBreaker → Reply × CircuitBreaker
unfolding enter attempt
call c k b = go_on c k (enter c k b)

-- the entry with the least time, the first of them
abbrev pub oldest : Cached → List Cached → Cached
oldest m [] = m
oldest m (e ∷ es) = oldest (if ltb e.stored_at m.stored_at then e else m) es

abbrev pub evict : List Cached → List Cached
evict [] = []
evict (e ∷ es) = delete (e ∷ es) (oldest e es).key

-- `d[key] = entry`
abbrev pub put : Cached → List Cached → List Cached
put x [] = x ∷ []
put x (e ∷ es) = let rest = put x es in if str_eq e.key x.key then x ∷ es else e ∷ rest

unfoldable pub update_fallback_cache :
    Config → ℕ → String → String → CircuitBreaker → CircuitBreaker
update_fallback_cache c now k v b =
    let es =
      if leb c.fallback_max_entries (length b.fallback_cache)
      then evict b.fallback_cache
      else b.fallback_cache in
    record b { fallback_cache = put (record { key = k; stored_at = now; value = v }) es }

-- one more waits, where the coroutine is awaited
abbrev pub waiting_after : Option Reply → ℕ → ℕ
waiting_after none n = suc n
waiting_after (some r) n = n

-- the life of a breaker with so many calls that wait for their coroutines: they begin and end in any
-- order, and each meets the breaker as it is then
pub data Reachable (c : Config) : ℕ → CircuitBreaker → Type 0 where
  start : Reachable c 0 fresh
  begins :
      {n : ℕ} {b : CircuitBreaker}
      → Reachable c n b
      → (k : Call) → Reachable c (waiting_after (enter c k b).0 n) (enter c k b).1
  ends :
      {n : ℕ} {b : CircuitBreaker}
      → Reachable c (suc n) b
      → (k : Call) → Reachable c n (attempt c k b).1
  caches :
      {n : ℕ} {b : CircuitBreaker}
      → Reachable c n b
      → (now : ℕ) (k v : String) → Reachable c n (update_fallback_cache c now k v b)
