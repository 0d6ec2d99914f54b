-- ===== src/Agents/History.antt =====
-- agents/profile_agent.py: what a profile keeps of the orders of its user.
use pay_shield.Prelude.{
  ℕ, suc, zero, ◌+◌, ◌-◌, ◌≤◌, ◌<◌, ◌≡◌, refl, sym, ap, subst, ◌∙◌, String, true, false, Bool-cases,
  inl, inr, Option, none, some, List, [], ◌∷◌, ◌++◌, filter, filter-append, eq_iff, ltb, leb,
  length, length-append, drop, str_eq, if◌then◌else◌, arith,
}
use mathlib.Core.List.{append-nil, append_assoc}
use pay_shield.Prelude.Float.{Float}
use pay_shield.Agents.Profile.{
  Sighting, Profile, Profiles, take_last, history_or_new, pushed, update_profile, update_all,
  counted, profile_or_new,
}

module _ {A : Type 0} where
  drop-append : (n : ℕ) (xs ys : List A) → n ≤ length xs → drop n (xs ++ ys) ≡ drop n xs ++ ys
  drop-append zero xs ys h = refl
  drop-append (suc n) [] ys h = absurd (omega arith)
  drop-append (suc n) (x ∷ xs) ys h = drop-append n xs ys (omega arith)

  drop_one : (n : ℕ) (xs : List A) → drop 1 (drop n xs) ≡ drop (suc n) xs
  drop_one zero xs = refl
  drop_one (suc n) [] = refl
  drop_one (suc n) (x ∷ xs) = drop_one n xs

  length-drop : (n : ℕ) (xs : List A) → length (drop n xs) ≡ length xs - n
  length-drop zero xs = omega arith
  length-drop (suc n) [] = omega arith
  length-drop (suc n) (x ∷ xs) = length-drop n xs ∙ omega arith

  take_last_all : (n : ℕ) (xs : List A) → length xs ≤ n → take_last n xs ≡ xs
  take_last_all n xs h = ap (λ k. drop k xs) none_over
    where
      none_over : length xs - n ≡ 0
      none_over = omega arith

  -- cutting before an item is added makes no difference
  take_last-append :
      (n : ℕ) (xs : List A) (x : A)
      → take_last n (take_last n xs ++ x ∷ []) ≡ take_last n (xs ++ x ∷ [])
  take_last-append n xs x = elim (Bool-cases (leb (length xs) n)) [
    | inl e ↦ ap (λ ys. take_last n (ys ++ x ∷ [])) (take_last_all n xs (ground arith))
    | inr e ↦ cut (ground arith)
  ]
    where
      one_over : n < length xs → length (drop (length xs - n) (xs ++ x ∷ [])) - n ≡ 1
      one_over h =
          ap (λ j. j - n)
            (length-drop (length xs - n) (xs ++ x ∷ [])
              ∙ ap (λ j. j - (length xs - n)) (length-append xs (x ∷ [])))
          ∙ omega arith

      all_over : n < length xs → suc (length xs - n) ≡ length (xs ++ x ∷ []) - n
      all_over h = sym (ap (λ j. j - n) (length-append xs (x ∷ [])) ∙ omega arith)

      cut : n < length xs → take_last n (take_last n xs ++ x ∷ []) ≡ take_last n (xs ++ x ∷ [])
      cut h =
          let k = length xs - n in
          let moved = sym (drop-append k xs (x ∷ []) (omega arith)) in
          ap (take_last n) moved
          ∙ ap (λ j. drop j (drop k (xs ++ x ∷ []))) (one_over h)
          ∙ drop_one k (xs ++ x ∷ [])
          ∙ ap (λ j. drop j (xs ++ x ∷ [])) (all_over h)

pushed-take_last :
    {F : Type 0} (xs : List (Sighting F)) (x : Sighting F)
    → pushed (take_last 100 xs) x ≡ take_last 100 (xs ++ x ∷ [])
pushed-take_last xs x = elim (Bool-cases (ltb 100 (length (take_last 100 xs ++ x ∷ [])))) [
  | inl e ↦ rw e (take_last-append 100 xs x)
  | inr e ↦ rw e (
      sym (take_last_all 100 (take_last 100 xs ++ x ∷ []) (ground arith))
      ∙ take_last-append 100 xs x)
]

-- the orders of one user
abbrev pub orders_of : {F : Type 0} → String → List (Sighting F) → List (Sighting F)
orders_of u = filter (λ x. str_eq x.user_id u)

abbrev pub count_of : {F : Type 0} → Option (Profile F) → ℕ
count_of none = 0
count_of (some p) = p.order_count

-- the profiles stand for the orders seen: of each user the last 100, and their number
abbrev pub Represents : {F : Type 0} → Profiles F → List (Sighting F) → Type 0
Represents s xs =
    (u : String)
    → (s.history u ≡ take_last 100 (orders_of u xs))
      × (count_of (s.profiles u) ≡ length (orders_of u xs))

no_orders : {A : Type 0} (xs : List A) → 0 ≡ length xs → [] ≡ xs
no_orders [] h = refl
no_orders (x ∷ xs) h = absurd (omega arith)

module _ {F : Type 0} where
  history_or_new-Represents :
      (p : Option (Profile F)) (h xs : List (Sighting F))
      → h ≡ take_last 100 xs
      → count_of p ≡ length xs
      → history_or_new p h ≡ take_last 100 xs
  history_or_new-Represents none h xs e c = ap (take_last 100) (no_orders xs c)
  history_or_new-Represents (some p) h xs e c = e

module _ {F : Type 0} ⦃f : Float F⦄ where
  count_of-counted :
      (p : Option (Profile F)) (x : Sighting F)
      → count_of (some (counted (profile_or_new p) x)) ≡ count_of p + 1
  count_of-counted none x = refl
  count_of-counted (some p) x = refl

  update_profile-Represents :
      (s : Profiles F) (xs : List (Sighting F)) (x : Sighting F)
      → Represents s xs
      → Represents (update_profile s x) (xs ++ x ∷ [])
  unfolding update_profile
  update_profile-Represents s xs x r u = elim (Bool-cases (str_eq x.user_id u)) [
    | inl e ↦
        let same = (eq_iff x.user_id u).0 e in
        let (h, c) = r x.user_id in
        let grown = own e ∙ ap (λ v. orders_of v xs ++ x ∷ []) (sym same) in
        let old = s.profiles x.user_id in
        (
          rw e (
              ap (λ ys. pushed ys x)
                (history_or_new-Represents old (s.history x.user_id) (orders_of x.user_id xs) h c)
              ∙ pushed-take_last (orders_of x.user_id xs) x
              ∙ ap (take_last 100) (sym grown)),
          rw e (
              count_of-counted old x
              ∙ ap (λ n. n + 1) c
              ∙ sym (length-append (orders_of x.user_id xs) (x ∷ []))
              ∙ ap length (sym grown)),
        )
    | inr e ↦
        let (h, c) = r u in
        (rw e (h ∙ ap (take_last 100) (sym (others e))), rw e (c ∙ ap length (sym (others e))))
  ]
    where
      own : str_eq x.user_id u ≡ true → orders_of u (xs ++ x ∷ []) ≡ orders_of u xs ++ x ∷ []
      own e =
          filter-append (λ y. str_eq y.user_id u) xs (x ∷ [])
          ∙ ap (λ b. orders_of u xs ++ (if b then x ∷ [] else [])) e

      others : str_eq x.user_id u ≡ false → orders_of u (xs ++ x ∷ []) ≡ orders_of u xs
      others e =
          filter-append (λ y. str_eq y.user_id u) xs (x ∷ [])
          ∙ ap (λ b. orders_of u xs ++ (if b then x ∷ [] else [])) e
          ∙ append-nil (orders_of u xs)

  -- The agent's state stands for the orders it has seen: if it does before any events, it does after
  -- them. For every user the history is the last 100 of the user's orders, oldest first, and the
  -- profile, where there is one, counts all of them.
  pub update_all-Represents :
      (s : Profiles F) (xs ys : List (Sighting F))
      → Represents s xs
      → Represents (update_all s ys) (xs ++ ys)
  unfolding update_all
  update_all-Represents s xs [] r = subst (Represents s) (sym (append-nil xs)) r
  update_all-Represents s xs (y ∷ ys) r =
      subst (Represents (update_all (update_profile s y) ys)) (append_assoc xs (y ∷ []) ys) (
        update_all-Represents (update_profile s y) (xs ++ y ∷ []) ys
          (update_profile-Represents s xs y r))
