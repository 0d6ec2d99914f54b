-- ===== src/Agents/Kept.antt =====
-- agents/state.py, `OrchestratorState`: dictionaries under keys of Redis, with a local store that
-- takes over where a call of Redis raises. Times to live are not negative, and Redis refuses 0; the
-- expiry of keys in Redis is left out, and the JSON of a dictionary is the dictionary.
use pay_shield.Prelude.{
  ℕ, Bool, true, false, String, ◌&&◌, ◌||◌, not, ◌≡◌, refl, inl, inr, Option, none, some, List, [],
  ◌∷◌, ltb, str_eq, if◌then◌else◌, Bool-cases, find_key, put_key, find_key-put_key,
}
use pay_shield.Prelude.Float.{Float, lit, of_ℕ, add, flt}

-- a value and its expiry
pub record LocalEntry (F V : Type 0) : Type 0 where
  pub value : V
  pub expiry : F

pub record StateStore (F V : Type 0) : Type 0 where
  pub redis : List (String × V)
  pub local_store : List (String × LocalEntry F V)

abbrev pub drop_key : {A : Type 0} → String → List (String × A) → List (String × A)
drop_key k [] = []
drop_key k ((j, x) ∷ xs) = let rest = drop_key k xs in if str_eq j k then rest else (j, x) ∷ rest

find_key-drop_key :
    {A : Type 0} (k : String) (xs : List (String × A)) → find_key k (drop_key k xs) ≡ none
find_key-drop_key k [] = refl
find_key-drop_key k ((j, x) ∷ xs) = elim (Bool-cases (str_eq j k)) [
  | inl e ↦ rw e (find_key-drop_key k xs)
  | inr e ↦ rw (e, e) (find_key-drop_key k xs)
]

-- what a call of Redis gives, where it is answered
abbrev redis_answer : {V : Type 0} → Bool → Option V → Option V
redis_answer up v = if up then v else none

module _ {F V : Type 0} ⦃f : Float F⦄ (empty : V) where
  -- `expiry == 0 or time.time() < expiry`
  abbrev lives : F → F → Bool
  lives now expiry = not (flt expiry (lit 0) || flt (lit 0) expiry) || flt now expiry

  -- the local part of `get_state`, which deletes an entry that has expired
  abbrev get_local : StateStore F V → String → F → Option (LocalEntry F V) → StateStore F V × V
  get_local s k now none = (s, empty)
  get_local s k now (some e) =
      if lives now e.expiry
      then (s, e.value)
      else (record s { local_store = drop_key k s.local_store }, empty)

  abbrev get_with : StateStore F V → String → F → Option V → StateStore F V × V
  get_with s k now (some v) = (s, v)
  get_with s k now none = get_local s k now (find_key k s.local_store)

  -- `get_state`; the Boolean says whether Redis answers the call
  unfoldable pub get_state : Bool → StateStore F V → String → F → StateStore F V × V
  get_state up s k now = get_with s k now (redis_answer up (find_key k s.redis))

  abbrev expiry_of : F → ℕ → F
  expiry_of now ttl = if ltb 0 ttl then add now (of_ℕ ttl) else lit 0

  -- `set_state`
  unfoldable pub set_state : Bool → StateStore F V → String → V → ℕ → F → StateStore F V
  set_state up s k v ttl now =
      if up && ltb 0 ttl then record s { redis = put_key k v s.redis } else record s {
        local_store = put_key k (record { value = v; expiry = expiry_of now ttl }) s.local_store;
      }

  -- `delete_state`
  unfoldable pub delete_state : Bool → StateStore F V → String → StateStore F V
  delete_state up s k = record {
    redis = if up then drop_key k s.redis else s.redis;
    local_store = drop_key k s.local_store;
  }

  -- what is set in Redis is what Redis gives
  get_state-set_state :
      (s : StateStore F V) (k : String) (v : V) (ttl : ℕ) (now later : F)
      → ltb 0 ttl ≡ true
      → (get_state true (set_state true s k v ttl now) k later).1 ≡ v
  unfolding get_state set_state
  get_state-set_state s k v ttl now later h = rw (h, find_key-put_key k v s.redis) refl

  -- without Redis it is what the local store gives, until it expires
  get_state-set_state_local :
      (s : StateStore F V) (k : String) (v : V) (ttl : ℕ) (now later : F)
      → lives later (expiry_of now ttl) ≡ true
      → (get_state false (set_state false s k v ttl now) k later).1 ≡ v
  unfolding get_state set_state
  get_state-set_state_local s k v ttl now later h =
      rw (find_key-put_key k (record { value = v; expiry = expiry_of now ttl }) s.local_store, h)
        refl

  -- what is set while Redis does not answer is hidden by an older value, once Redis answers again
  get_state-set_state_lost :
      (s : StateStore F V) (k : String) (old v : V) (ttl : ℕ) (now later : F)
      → find_key k s.redis ≡ some old
      → (get_state true (set_state false s k v ttl now) k later).1 ≡ old
  unfolding get_state set_state
  get_state-set_state_lost s k old v ttl now later h = rw h refl

  -- a key that Redis deletes is empty, whether or not Redis answers afterwards
  get_state-delete_state :
      (up : Bool) (s : StateStore F V) (k : String) (later : F)
      → (get_state up (delete_state true s k) k later).1 ≡ empty
  unfolding get_state delete_state
  get_state-delete_state false s k later = rw (find_key-drop_key k s.local_store) refl
  get_state-delete_state true s k later =
      rw (find_key-drop_key k s.redis, find_key-drop_key k s.local_store) refl
