-- ===== src/Registry.antt =====
-- ml/registry.py, `ModelRegistry`. A version directory is known by the numbers of its name, and one
-- whose name has no such form is passed over, as in `_next_version`. A link `current.pt` is the version
-- that it leads to. Metrics, parameters and dates of a manifest are one value, `M`; `A` is the type of
-- model files. The model card is left out.
pub mod Versions
pub mod Stages
mod Tests
use pay_shield.Prelude.{
  ℕ, ◌+◌, Bool, true, false, Option, none, some, List, [], ◌∷◌, map, ltb, ◌==◌, ◌||◌, ◌&&◌,
  if◌then◌else◌, ◌>>=◌,
}

abbrev pub Version : Type 0
Version = List ℕ

-- the order of tuples
unfoldable pub before : Version → Version → Bool
before [] [] = false
before [] (y ∷ ys) = true
before (x ∷ xs) [] = false
before (x ∷ xs) (y ∷ ys) = let rest = before xs ys in ltb x y || (x == y && rest)

abbrev pub same_version : Version → Version → Bool
same_version [] [] = true
same_version (x ∷ xs) (y ∷ ys) = let rest = same_version xs ys in x == y && rest
same_version _ _ = false

-- `max(versions)`
unfoldable pub latest_version : Version → List Version → Version
unfolding before
latest_version v [] = v
latest_version v (w ∷ ws) = latest_version (if before v w then w else v) ws

-- the version after the latest; `none` is the `IndexError` of a name with one number
abbrev pub bumped : Version → Option Version
bumped (a ∷ b ∷ rest) = some (a ∷ (b + 1) ∷ 0 ∷ [])
bumped _ = none

-- `_next_version`
unfoldable pub next_version : List Version → Option Version
unfolding latest_version
next_version [] = some (1 ∷ 0 ∷ 0 ∷ [])
next_version (v ∷ vs) = bumped (latest_version v vs)

pub record Manifest (M : Type 0) : Type 0 where
  pub version : Version
  pub details : M

pub record Stored (A M : Type 0) : Type 0 where
  pub version : Version
  pub model : Option A
  pub manifest : Option (Manifest M)

-- the directory of a stage
pub record StageDir (M : Type 0) : Type 0 where
  pub current : Option Version
  pub manifest : Option (Manifest M)

pub data StageName : Type 0 where
  staging production : StageName

pub record Registry (A M : Type 0) : Type 0 where
  pub versions : List (Stored A M)
  pub staging_dir : StageDir M
  pub production_dir : StageDir M

module _ {M : Type 0} where
  -- the manifest is copied if the version has one
  abbrev pub linked : StageDir M → Version → Option (Manifest M) → StageDir M
  linked d v none = record d { current = some v }
  linked d v (some x) = record { current = some v; manifest = some x }

abbrev pub first_of : {A : Type 0} → Option A → Option A → Option A
first_of none b = b
first_of (some a) b = some a

module _ {A M : Type 0} where
  abbrev pub find : List (Stored A M) → Version → Option (Stored A M)
  find [] v = none
  find (s ∷ ss) v = let rest = find ss v in if same_version s.version v then some s else rest

  abbrev pub stored : Version → A → M → Stored A M
  stored v a m = record {
    version = v;
    model = some a;
    manifest = some (record { version = v; details = m });
  }

  abbrev pub with_version : Registry A M → A → M → Option Version → Option (Version × Registry A M)
  with_version r a m none = none
  with_version r a m (some v) = some (v, record r { versions = stored v a m ∷ r.versions })

  -- `register`, with the file at the given path, if there is one; `none` is an exception
  unfoldable pub register : Registry A M → Option A → M → Option (Version × Registry A M)
  unfolding next_version
  register r none m = none
  register r (some a) m = with_version r a m (next_version (map (λ s. s.version) r.versions))

  abbrev pub put_stage : Registry A M → StageName → Version → Option (Manifest M) → Registry A M
  put_stage r staging v x = record r { staging_dir = linked r.staging_dir v x }
  put_stage r production v x = record r { production_dir = linked r.production_dir v x }

  -- a version whose directory and model file exist
  abbrev pub usable : Registry A M → Version → Option (Stored A M)
  usable r v = find r.versions v >>= λ s. (s.model >>= λ a. some s)

  -- `promote` and `rollback`; `none` is a `FileNotFoundError`
  unfoldable pub promote : Registry A M → Version → StageName → Option (Registry A M)
  promote r v stage = usable r v >>= λ s. some (put_stage r stage v s.manifest)

  unfoldable pub rollback : Registry A M → Version → Option (Registry A M)
  rollback r v =
      usable r v >>= λ s. some (record r { production_dir = linked r.production_dir v none })

  -- the file that a link leads to; a link to nothing does not exist
  abbrev pub linked_model : Registry A M → Option Version → Option A
  linked_model r none = none
  linked_model r (some v) = find r.versions v >>= λ s. s.model

  unfoldable pub get_staging_model : Registry A M → Option A
  get_staging_model r = linked_model r r.staging_dir.current

  unfoldable pub get_production_model : Registry A M → Option A
  unfolding get_staging_model
  get_production_model r = first_of (linked_model r r.production_dir.current) (get_staging_model r)
