-- ===== src/Experiments.antt =====
-- ml/ab_testing.py, `ABTestFramework`. Experiments are kept in the order of the dict; the active one is
-- the same object as one of them, so it is kept by its id. A new id is a parameter, as is the answer of
-- the model registry, `false` for an exception. Dates are numbers.
pub mod Single
mod Tests
use pay_shield.Prelude.{
  ◌≡◌, ℕ, String, Bool, true, false, ◌&&◌, ◌||◌, Option, none, some, List, [], ◌∷◌, ◌++◌, ◌⊎◌, inl,
  inr, str_eq, if◌then◌else◌,
}
use pay_shield.Prelude.Float.{Float, lit, flt}

pub data Status : Type 0 where
  shadow canary a_b promoted rolled_back failed : Status

pub record Experiment (F : Type 0) : Type 0 where
  pub experiment_id : String
  pub champion_version : String
  pub challenger_version : String
  pub traffic_split : F
  pub status : Status
  pub start_date : ℕ
  pub end_date : Option ℕ

pub record Framework (F : Type 0) : Type 0 where
  pub experiments : List (Experiment F)
  pub active_experiment : Option String

pub data Error : Type 0 where
  in_progress bad_split not_found bad_status registry_error : Error

abbrev pub is_terminal : Status → Bool
is_terminal promoted = true
is_terminal rolled_back = true
is_terminal failed = true
is_terminal _ = false

-- the statuses that `promote` accepts
abbrev pub is_promotable : Status → Bool
is_promotable a_b = true
is_promotable canary = true
is_promotable _ = false

abbrev pub is_some : Option String → Bool
is_some none = false
is_some (some i) = true

abbrev pub is_id : Option String → String → Bool
is_id none i = false
is_id (some j) i = str_eq j i

unfoldable pub fresh : {F : Type 0} → Framework F
fresh = record { experiments = []; active_experiment = none }

module _ {F : Type 0} where
  abbrev pub get_experiment : List (Experiment F) → String → Option (Experiment F)
  get_experiment [] i = none
  get_experiment (e ∷ es) i =
      let rest = get_experiment es i in if str_eq e.experiment_id i then some e else rest

  abbrev pub with_status : ℕ → Status → Experiment F → Experiment F
  with_status now s e = record e {
    status = s;
    end_date = if is_terminal s then some now else e.end_date;
  }

  abbrev pub set_status : ℕ → String → Status → List (Experiment F) → List (Experiment F)
  set_status now i s [] = []
  set_status now i s (e ∷ es) =
      let rest = set_status now i s es in
      (if str_eq e.experiment_id i then with_status now s e else e) ∷ rest

  abbrev pub update_found : ℕ → Status → Framework F → Option (Experiment F) → Framework F
  update_found now s m none = m
  update_found now s m (some e) = record {
    experiments = set_status now e.experiment_id s m.experiments;
    active_experiment =
        if is_terminal s && is_id m.active_experiment e.experiment_id
        then none
        else m.active_experiment;
  }

  unfoldable pub update_status : ℕ → String → Status → Framework F → Framework F
  update_status now i s m = update_found now s m (get_experiment m.experiments i)

  abbrev pub promote_found : Bool → ℕ → Framework F → Option (Experiment F) → Error ⊎ Framework F
  promote_found answer now m none = inl not_found
  promote_found answer now m (some e) =
      if is_promotable e.status
      then if answer then inr (update_status now e.experiment_id promoted m) else inl registry_error
      else inl bad_status

  unfoldable pub promote : Bool → ℕ → String → Framework F → Error ⊎ Framework F
  promote answer now i m = promote_found answer now m (get_experiment m.experiments i)

  abbrev pub rollback_found : Bool → ℕ → Framework F → Option (Experiment F) → Error ⊎ Framework F
  rollback_found answer now m none = inl not_found
  rollback_found answer now m (some e) =
      if answer then inr (update_status now e.experiment_id rolled_back m) else inl registry_error

  unfoldable pub rollback : Bool → ℕ → String → Framework F → Error ⊎ Framework F
  rollback answer now i m = rollback_found answer now m (get_experiment m.experiments i)

module _ {F : Type 0} ⦃f : Float F⦄ where
  -- whether the experiment takes traffic
  abbrev pub has_traffic : F → Bool
  has_traffic x = flt (lit 0) x

  abbrev pub registered : String → ℕ → String → String → F → Experiment F
  registered i now champion challenger split = record {
    experiment_id = i;
    champion_version = champion;
    challenger_version = challenger;
    traffic_split = split;
    status = if has_traffic split then canary else shadow;
    start_date = now;
    end_date = none;
  }

  unfoldable pub register_experiment :
      String → ℕ → String → String → F → Framework F → Error ⊎ Framework F
  register_experiment i now champion challenger split m =
      if is_some m.active_experiment && has_traffic split
      then inl in_progress
      else if flt split (lit 0) || flt (lit 10_000) split
      then inl bad_split
      else inr (record {
        experiments = m.experiments ++ registered i now champion challenger split ∷ [];
        active_experiment = if has_traffic split then some i else m.active_experiment;
      })

-- the lives of a framework by registrations, promotions, rollbacks and failures
pub data Reachable {F : Type 0} ⦃f : Float F⦄ : Framework F → Type 0 where
  start : Reachable fresh
  registers :
      {m m' : Framework F}
      → Reachable m
      → (i : String) (now : ℕ) (a b : String) (x : F) → register_experiment i now a b x m ≡ inr m'
      → Reachable m'
  promotes :
      {m m' : Framework F}
      → Reachable m
      → (r : Bool) (now : ℕ) (i : String) → promote r now i m ≡ inr m'
      → Reachable m'
  rolls_back :
      {m m' : Framework F}
      → Reachable m
      → (r : Bool) (now : ℕ) (i : String) → rollback r now i m ≡ inr m'
      → Reachable m'
  fails :
      {m : Framework F}
      → Reachable m
      → (now : ℕ) (i : String) → Reachable (update_status now i failed m)
