-- ===== src/Limiter.antt =====
-- api/security.py, `RateLimiter`. Times are whole numbers. What Redis answers to a pipeline or a count
-- is a parameter, `none` where there is no client or the call raises; the local store is a function of
-- the key.
pub mod Window
mod Tests
use pay_shield.Prelude.{
  ℕ, ◌+◌, ◌-◌, String, Bool, true, false, Option, none, some, List, [], ◌∷◌, ◌++◌, filter, length,
  ltb, leb, str_eq, if◌then◌else◌,
}

abbrev pub Store : Type 0
Store = String → List ℕ

-- the timestamps `t > now - window_seconds`
unfoldable pub recent : ℕ → ℕ → List ℕ → List ℕ
recent now window ts = filter (λ t. ltb now (t + window)) ts

abbrev pub put : String → List ℕ → Store → Store
put key ts s k = if str_eq key k then ts else s k

unfoldable pub is_allowed : Option ℕ → ℕ → String → ℕ → ℕ → Store → Bool × Store
unfolding recent
is_allowed (some count) now key limit window s = (leb count limit, s)
is_allowed none now key limit window s =
    let timestamps = recent now window (s key) ++ now ∷ [] in
    (leb (length timestamps) limit, put key timestamps s)

-- the same without Redis; with it, the answer is that of INCR
unfoldable pub is_allowed_fixed_window : Option ℕ → ℕ → String → ℕ → ℕ → Store → Bool × Store
unfolding recent
is_allowed_fixed_window (some count) now key limit window s = (leb count limit, s)
is_allowed_fixed_window none now key limit window s =
    let timestamps = recent now window (s key) ++ now ∷ [] in
    (leb (length timestamps) limit, put key timestamps s)

-- `max(0, limit - count)`
unfoldable pub get_remaining : Option ℕ → ℕ → String → ℕ → ℕ → Store → ℕ
unfolding recent
get_remaining (some count) now key limit window s = limit - count
get_remaining none now key limit window s = limit - length (recent now window (s key))

unfoldable pub reset : String → Store → Store
reset key s = put key [] s
