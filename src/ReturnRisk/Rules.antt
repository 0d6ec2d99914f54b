-- ===== src/ReturnRisk/Rules.antt =====
-- return_risk/rules_engine.py, `RulesEngine.evaluate`. `eval` stands for Python's `eval` of a
-- condition in the restricted scope, with `none` for an exception.
use pay_shield.Prelude.{
  ℕ, String, Bool, true, false, not, Option, none, some, List, [], ◌∷◌, leb, starts_with, str_eq,
  get_or, if◌then◌else◌,
}

-- the raw value of a feature
pub data Raw (F : Type 0) : Type 0 where
  number : F → Raw F
  flag : Bool → Raw F
  text : String → Raw F
  object : String → Raw F  -- a dict, by its JSON text
  null : Raw F

-- a `{"value", "source"}` dict
pub record Feature (F : Type 0) : Type 0 where
  pub value : Raw F
  pub source : String

abbrev pub Features : Type 0 → Type 0
Features F = List (String × Feature F)

-- `features.get(name)`
abbrev pub get_feature : {F : Type 0} → String → Features F → Option (Feature F)
get_feature k [] = none
get_feature k ((j, x) ∷ fs) = let rest = get_feature k fs in if str_eq j k then some x else rest

pub record ReturnRule : Type 0 where
  pub rule_id : String
  pub condition : String
  pub action : String
  pub severity : ℕ
  pub enabled : Bool

-- an entry of the result: a rule that fired, or one that could not be evaluated
pub record Trigger : Type 0 where
  pub rule_id : String
  pub action : Option String
  pub severity : Option ℕ
  pub triggered : Bool

abbrev pub fired : ReturnRule → Trigger
fired r = record {
  rule_id = r.rule_id;
  action = some r.action;
  severity = some r.severity;
  triggered = true;
}

abbrev pub errored : ReturnRule → Trigger
errored r = record { rule_id = r.rule_id; action = none; severity = none; triggered = false }

-- `t.get("severity", 0)`
abbrev pub sort_key : Trigger → ℕ
sort_key t = get_or t.severity 0

-- one place of the stable sort by falling key: before the later entries of the same key
unfoldable pub insert : Trigger → List Trigger → List Trigger
insert t [] = t ∷ []
insert t (u ∷ us) =
    let rest = insert t us in if leb (sort_key u) (sort_key t) then t ∷ u ∷ us else u ∷ rest

unfoldable pub sort : List Trigger → List Trigger
unfolding insert
sort [] = []
sort (t ∷ ts) = insert t (sort ts)

-- what one enabled rule adds
abbrev pub outcome : ReturnRule → Option Bool → List Trigger → List Trigger
outcome r none ts = errored r ∷ ts
outcome r (some true) ts = fired r ∷ ts
outcome r (some false) ts = ts

module _ {F : Type 0} where
  -- `_flatten_features`
  abbrev pub flatten : Features F → List (String × Raw F)
  flatten [] = []
  flatten ((k, x) ∷ fs) =
      let rest = flatten fs in if starts_with k "_" then rest else (k, x.value) ∷ rest

  module _ (eval : String → List (String × Raw F) → Option Bool) where
    unfoldable pub triggers : List ReturnRule → List (String × Raw F) → List Trigger
    triggers [] flat = []
    triggers (r ∷ rs) flat =
        let rest = triggers rs flat in
        if not r.enabled then rest else outcome r (eval r.condition flat) rest

    unfoldable pub evaluate : List ReturnRule → Features F → List Trigger
    unfolding triggers sort
    evaluate rs fs = sort (triggers rs (flatten fs))
