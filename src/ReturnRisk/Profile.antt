-- ===== src/ReturnRisk/Profile.antt =====
-- return_risk/feature_engine.py, `update_user_profile`: its calls of Redis in order. A call that the
-- client refuses writes nothing, and the update goes on; one that raises ends the update.
use pay_shield.Client.{CallResult, taken, refused, raises}
use pay_shield.Prelude.{
  find_key, put_key, ℕ, ◌+◌, ◌-◌, String, Bool, true, false, Option, none, some, List, [], ◌∷◌,
  ◌++◌, get_or, str_eq, if◌then◌else◌,
}
use pay_shield.Prelude.Float.{Float, lit, of_ℕ, add, mul, div}
use pay_shield.ReturnRisk.Store.{UserHash, UserKeys, no_hash}

-- an update, with the clock's reading
pub record Update (F : Type 0) : Type 0 where
  pub order_id : String
  pub amount : F
  pub cod_flag : Bool
  pub returned : Bool
  pub return_reason : Option String
  pub now : ℕ
  pub utcnow : String

-- the calls that write, `average` with the call that reads the profile before it
pub data ProfileCall (F : Type 0) : Type 0 where
  bump_orders bump_cod_orders bump_returns : ProfileCall F
  add_return : Update F → ProfileCall F
  bump_reason : String → ProfileCall F
  average : Update F → ProfileCall F
  set_last_activity : Update F → ProfileCall F

abbrev pub hash_of : {F : Type 0} → UserKeys F → UserHash F
hash_of k = get_or k.hash no_hash

abbrev incremented : Option ℕ → Option ℕ
incremented n = some (get_or n 0 + 1)

module _ {F : Type 0} ⦃f : Float F⦄ where
  -- the running average of the returned amounts
  abbrev pub new_avg : UserHash F → F → F
  new_avg h amount =
      let n = get_or h.total_returns 1 in
      let old = get_or h.avg_return_value (lit 0) in
      div (add (mul old (of_ℕ (n - 1))) amount) (of_ℕ n)

  -- from the profile that was read
  abbrev pub set_avg : UserHash F → Update F → UserKeys F → UserKeys F
  set_avg read u k = record k {
    hash = some (record (hash_of k) { avg_return_value = some (f.round2 (new_avg read u.amount)) });
  }

  -- what each call does where Redis takes it: `hincrby`, `zadd` and `hmset`
  abbrev pub effect : ProfileCall F → UserKeys F → UserKeys F
  effect bump_orders k =
      let h = hash_of k in
      record k { hash = some (record h { total_orders = incremented h.total_orders }) }
  effect bump_cod_orders k =
      let h = hash_of k in
      record k { hash = some (record h { cod_orders = incremented h.cod_orders }) }
  effect bump_returns k =
      let h = hash_of k in
      record k { hash = some (record h { total_returns = incremented h.total_returns }) }
  effect (add_return u) k = record k { returns = put_key u.order_id u.now k.returns }
  effect (bump_reason r) k = record k {
    reasons = put_key r (get_or (find_key r k.reasons) 0 + 1) k.reasons;
  }
  effect (average u) k = set_avg (hash_of k) u k
  effect (set_last_activity u) k = record k {
    hash = some (record (hash_of k) { last_activity = some u.utcnow });
  }

  -- `if return_reason`
  abbrev pub reason_calls : Option String → List (ProfileCall F)
  reason_calls none = []
  reason_calls (some r) = if str_eq r "" then [] else bump_reason r ∷ []

  abbrev pub return_calls : Update F → List (ProfileCall F)
  return_calls u = bump_returns ∷ add_return u ∷ reason_calls u.return_reason ++ average u ∷ []

  abbrev pub profile_calls : Update F → List (ProfileCall F)
  profile_calls u =
      bump_orders ∷ (if u.cod_flag then bump_cod_orders ∷ [] else [])
      ++ (if u.returned then return_calls u else [])
      ++ set_last_activity u ∷ []

  -- where Redis takes every call
  unfoldable pub run_whole : List (ProfileCall F) → UserKeys F → UserKeys F
  run_whole [] k = k
  run_whole (c ∷ cs) k = run_whole cs (effect c k)

  -- `update_user_profile`, where Redis takes every call
  unfoldable pub update_user_profile : Update F → UserKeys F → UserKeys F
  unfolding run_whole
  update_user_profile u k = run_whole (profile_calls u) k

  -- the results that are left, the keys, and whether the update goes on; where there are no more
  -- results the process has ended
  abbrev pub write_call :
      List CallResult → UserKeys F → UserKeys F → List CallResult × (UserKeys F × Bool)
  write_call [] k written = ([], (k, false))
  write_call (taken ∷ rs) k written = (rs, (written, true))
  write_call (refused ∷ rs) k written = (rs, (k, true))
  write_call (raises ∷ rs) k written = (rs, (k, false))

  -- where `hgetall` is refused, the average is that of an empty profile
  abbrev pub attempt_call :
      ProfileCall F → List CallResult → UserKeys F → List CallResult × (UserKeys F × Bool)
  attempt_call (average u) [] k = ([], (k, false))
  attempt_call (average u) (taken ∷ rs) k = write_call rs k (effect (average u) k)
  attempt_call (average u) (refused ∷ rs) k = write_call rs k (set_avg no_hash u k)
  attempt_call (average u) (raises ∷ rs) k = (rs, (k, false))
  attempt_call c rs k = write_call rs k (effect c k)

  -- with a result for each call: the keys, and whether the update came to its end
  unfoldable pub run_calls : List CallResult → List (ProfileCall F) → UserKeys F → UserKeys F × Bool
  run_calls rs [] k = (k, true)
  run_calls rs (c ∷ cs) k =
      let (left, (k2, on)) = attempt_call c rs k in
      let rest = run_calls left cs k2 in if on then rest else (k2, false)

  -- `update_user_profile`, with what the client makes of its calls
  unfoldable pub try_update : List CallResult → Update F → UserKeys F → UserKeys F × Bool
  unfolding run_calls
  try_update rs u k = run_calls rs (profile_calls u) k
