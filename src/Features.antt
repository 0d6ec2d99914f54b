-- ===== src/Features.antt =====
-- store/feature_registry.py: the definitions of features, the check of a value against its definition,
-- and the shift of a feature's values from an expected distribution. Python's `str` is a parameter;
-- the logs of one day are a list, and their keys and times to live in Redis are left out.
use pay_shield.Prelude.{
  ℕ, ◌+◌, Bool, true, false, String, ◌&&◌, not, ◌≡◌, refl, Option, none, some, List, [], ◌∷◌, any,
  str_eq, if◌then◌else◌, find_key, put_key, find_key-put_key, length, Bool-cases, inl, inr, arith,
}
use pay_shield.Prelude.Float.{Float, lit, of_ℕ, add, sub, mul, div, flt}

pub data FeatureType : Type 0 where
  numeric : FeatureType
  categorical : FeatureType
  boolean : FeatureType
  string : FeatureType
  vector : FeatureType

pub data FeatureSource : Type 0 where
  velocity : FeatureSource
  device : FeatureSource
  baseline : FeatureSource
  graph : FeatureSource
  transaction : FeatureSource
  derived : FeatureSource

pub record FeatureDefinition (F : Type 0) : Type 0 where
  pub name : String
  pub feature_type : FeatureType
  pub source : FeatureSource
  pub version : ℕ
  pub description : String
  pub nullable : Bool
  pub min_val : Option F
  pub max_val : Option F
  pub categories : Option (List String)
  pub production : Bool
  pub monitoring : Bool
  pub drift_key : Option String

-- a value that is not None
pub data FeatureValue (F : Type 0) : Type 0 where
  float : F → FeatureValue F
  text : String → FeatureValue F
  bool : Bool → FeatureValue F

abbrev is_category : Option (List String) → String → Bool
is_category none s = true
is_category (some []) s = true
is_category (some (c ∷ cs)) s = any (str_eq s) (c ∷ cs)

module _ {F : Type 0} ⦃f : Float F⦄ where
  -- `register_definition`
  unfoldable pub register_definition :
      List (String × FeatureDefinition F)
      → FeatureDefinition F
      → List (String × FeatureDefinition F)
  register_definition ds d = put_key d.name d ds

  -- a number, as which Python reads a Boolean too
  abbrev number_of : FeatureValue F → Option F
  number_of (float x) = some x
  number_of (text s) = none
  number_of (bool b) = some (if b then lit 10_000 else lit 0)

  abbrev below_min : Option F → F → Bool
  below_min none x = false
  below_min (some a) x = flt x a

  abbrev above_max : Option F → F → Bool
  above_max none x = false
  above_max (some b) x = flt b x

  abbrev in_range : FeatureDefinition F → Option F → Bool
  in_range d none = false
  in_range d (some x) = not (below_min d.min_val x) && not (above_max d.max_val x)

  module _ (str : Option (FeatureValue F) → String) where
    abbrev valid_as : FeatureType → FeatureDefinition F → FeatureValue F → Bool
    valid_as numeric d v = in_range d (number_of v)
    valid_as categorical d v = is_category d.categories (str (some v))
    valid_as boolean d v = true
    valid_as string d v = true
    valid_as vector d v = true

    abbrev valid_value : FeatureDefinition F → Option (FeatureValue F) → Bool
    valid_value d none = d.nullable
    valid_value d (some v) = valid_as d.feature_type d v

    abbrev valid_for : Option (FeatureDefinition F) → Option (FeatureValue F) → Bool
    valid_for none v = true
    valid_for (some d) v = valid_value d v

    -- `validate_value`
    unfoldable pub validate_value :
        List (String × FeatureDefinition F) → String → Option (FeatureValue F) → Bool
    validate_value ds name v = valid_for (find_key name ds) v

    -- a value is checked against the definition that was registered last
    validate_value-register_definition :
        (ds : List (String × FeatureDefinition F)) (d : FeatureDefinition F)
        (v : Option (FeatureValue F))
        → validate_value (register_definition ds d) d.name v ≡ valid_value d v
    unfolding validate_value register_definition
    validate_value-register_definition ds d v = rw (find_key-put_key d.name d ds) refl

    -- `observed_counts` and `total`
    abbrev count_one : String → List (String × ℕ) → List (String × ℕ)
    count_one k [] = (k, 1) ∷ []
    count_one k ((j, n) ∷ xs) =
        let rest = count_one k xs in if str_eq j k then (k, n + 1) ∷ xs else (j, n) ∷ rest

    abbrev counts_of : List (String × ℕ) → List (Option (FeatureValue F)) → List (String × ℕ)
    counts_of seen [] = seen
    counts_of seen (v ∷ vs) = counts_of (count_one (str v) seen) vs

    abbrev times_seen : Option ℕ → ℕ
    times_seen none = 0
    times_seen (some n) = n

    -- the first loop of `compute_psi`
    abbrev expected_part : List (String × ℕ) → ℕ → F → List (String × F) → F
    expected_part seen total psi [] = psi
    expected_part seen total psi ((k, e) ∷ es) =
        let o = div (of_ℕ (times_seen (find_key k seen))) (of_ℕ total) in
        let psi2 =
          if flt (lit 0) o && flt (lit 0) e then add psi (mul (sub o e) (div o e)) else psi in
        expected_part seen total psi2 es

    abbrev is_expected : Option F → Bool
    is_expected none = false
    is_expected (some e) = true

    -- the second
    abbrev unexpected_part : List (String × F) → ℕ → F → List (String × ℕ) → F
    unexpected_part es total psi [] = psi
    unexpected_part es total psi ((k, n) ∷ seen) =
        let o = div (of_ℕ n) (of_ℕ total) in
        let psi2 = if is_expected (find_key k es) then psi else add psi (mul o (div o (lit 1))) in
        unexpected_part es total psi2 seen

    -- `compute_psi` on the logs of a day, before the sum is rounded
    unfoldable pub compute_psi : List (Option (FeatureValue F)) → List (String × F) → F
    compute_psi [] es = lit 0
    compute_psi (v ∷ vs) es =
        let total = length (v ∷ vs) in
        let seen = counts_of [] (v ∷ vs) in
        unexpected_part es total (expected_part seen total (lit 0) es) seen

    abbrev counted_in_all : List (String × ℕ) → ℕ
    counted_in_all [] = 0
    counted_in_all ((k, n) ∷ xs) = n + counted_in_all xs

    counted_in_all-count_one :
        (k : String) (xs : List (String × ℕ))
        → counted_in_all (count_one k xs) ≡ counted_in_all xs + 1
    counted_in_all-count_one k [] = refl
    counted_in_all-count_one k ((j, n) ∷ xs) = elim (Bool-cases (str_eq j k)) [
      | inl e ↦ rw e (omega arith)
      | inr e ↦ rw e (omega (arith, counted_in_all-count_one k xs))
    ]

    -- the observed counts add up to the total that divides them
    counted_in_all-counts_of :
        (seen : List (String × ℕ)) (vs : List (Option (FeatureValue F)))
        → counted_in_all (counts_of seen vs) ≡ counted_in_all seen + length vs
    counted_in_all-counts_of seen [] = omega arith
    counted_in_all-counts_of seen (v ∷ vs) = omega (
      arith,
      counted_in_all-counts_of (count_one (str v) seen) vs,
      counted_in_all-count_one (str v) seen,
    )
