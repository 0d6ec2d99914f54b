-- ===== src/Agents/Profile.antt =====
-- agents/profile_agent.py: the profiles and the histories of users, and the drift. The mean of
-- `statistics` is an argument. The dates of a profile are left out.
use pay_shield.Prelude.{
  ℕ, ◌+◌, ◌-◌, String, Bool, Option, none, some, List, [], ◌∷◌, ◌++◌, map, any, ltb, leb, length,
  take, drop, str_eq, if◌then◌else◌, ◌&&◌, ◌||◌,
}
use pay_shield.Prelude.Float.{Float, lit, of_ℕ, add, sub, div, fle, fmin, fmax, fabs}

-- what an event says of its user and order, with the defaults of `.get`
pub record Sighting (F : Type 0) : Type 0 where
  pub user_id : String
  pub amount : F
  pub score : F
  pub cod_flag : Bool
  pub category : String

pub record Profile (F : Type 0) : Type 0 where
  pub order_count : ℕ
  pub total_amount : F
  pub avg_amount : F
  pub categories : List String
  pub cod_count : ℕ
  pub score_sum : F
  pub avg_score : F

pub record Profiles (F : Type 0) : Type 0 where
  pub profiles : String → Option (Profile F)
  pub history : String → List (Sighting F)

-- `xs[-n:]`, and `xs[:-n]`
abbrev pub take_last : {A : Type 0} → ℕ → List A → List A
take_last n xs = drop (length xs - n) xs

abbrev pub drop_last : {A : Type 0} → ℕ → List A → List A
drop_last n xs = take (length xs - n) xs

-- an item is put into a dict
abbrev pub set_key : {A : Type 0} → (String → A) → String → A → String → A
set_key m k v k' = if str_eq k k' then v else m k'

-- `set.add`, for a category that is not empty
abbrev with_category : List String → String → List String
with_category cs c = if str_eq c "" || any (str_eq c) cs then cs else c ∷ cs

module _ {F : Type 0} where
  -- a new profile starts a new history
  abbrev pub history_or_new : Option (Profile F) → List (Sighting F) → List (Sighting F)
  history_or_new none xs = []
  history_or_new (some p) xs = xs

  -- the history with one more item, cut to the last 100
  abbrev pub pushed : List (Sighting F) → Sighting F → List (Sighting F)
  pushed xs x = let ys = xs ++ x ∷ [] in if ltb 100 (length ys) then take_last 100 ys else ys

module _ {F : Type 0} ⦃f : Float F⦄ where
  abbrev no_profile : Profile F
  no_profile = record {
    order_count = 0;
    total_amount = lit 0;
    avg_amount = lit 0;
    categories = [];
    cod_count = 0;
    score_sum = lit 0;
    avg_score = lit 0;
  }

  abbrev pub profile_or_new : Option (Profile F) → Profile F
  profile_or_new none = no_profile
  profile_or_new (some p) = p

  abbrev pub counted : Profile F → Sighting F → Profile F
  counted p x =
      let n = p.order_count + 1 in
      let total = add p.total_amount x.amount in
      let score = add p.score_sum x.score in
      record {
        order_count = n;
        total_amount = total;
        avg_amount = div total (of_ℕ n);
        categories = with_category p.categories x.category;
        cod_count = if x.cod_flag then p.cod_count + 1 else p.cod_count;
        score_sum = score;
        avg_score = div score (of_ℕ n);
      }

  -- `_update_profile`
  unfoldable pub update_profile : Profiles F → Sighting F → Profiles F
  update_profile s x =
      let old = s.profiles x.user_id in
      record {
        profiles = set_key s.profiles x.user_id (some (counted (profile_or_new old) x));
        history = set_key s.history x.user_id (pushed (history_or_new old (s.history x.user_id)) x);
      }

  unfoldable pub update_all : Profiles F → List (Sighting F) → Profiles F
  unfolding update_profile
  update_all s [] = s
  update_all s (x ∷ xs) = update_all (update_profile s x) xs

  abbrev pub scores : List (Sighting F) → List F
  scores = map (λ x. x.score)

  abbrev pub older : List (Sighting F) → List (Sighting F)
  older xs = if ltb 20 (length xs) then drop_last 10 xs else drop_last 5 xs

  -- the drift from the two means, where the older one is not 0
  abbrev pub drift : F → F → F
  drift recent old =
      f.round4
        (fmin (lit 10_000) (div (div (fabs (sub recent old)) (fmax old (lit 100))) (lit 30_000)))

  -- `_detect_drift`, on the user's history
  unfoldable pub detect_drift : (List F → F) → List (Sighting F) → F
  detect_drift mean xs =
      let recent = mean (scores (take_last 10 xs)) in
      let old = mean (scores (older xs)) in
      if ltb (length xs) 10
      then lit 0
      else if leb (length (older xs)) 0
      then lit 0
      else if fle old (lit 0) && fle (lit 0) old
      then lit 0
      else drift recent old
