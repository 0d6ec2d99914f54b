-- ===== src/Agents/Feed.antt =====
-- agents/worker.py: what the rounds of the feed loop deliver.
use pay_shield.Prelude.{
  ℕ, ◌≤◌, ◌≡◌, refl, ap, ap₂, ◌∙◌, true, false, Option, none, some, List, [], ◌∷◌, ◌++◌, filter,
  filter-append, ltb, arith,
}
use pay_shield.Agents.Worker.{ScoredEntry, is_new, last_timestamp}

-- entries whose timestamps strictly rise, from above l on
abbrev pub IsAfter : {F : Type 0} → Option ℕ → List (ScoredEntry F) → Type 0
IsAfter l [] = Unit
IsAfter l (e ∷ es) = (is_new l e.timestamp ≡ true) × IsAfter (some e.timestamp) es

-- the last timestamp, or l
abbrev pub last_of : {F : Type 0} → Option ℕ → List (ScoredEntry F) → Option ℕ
last_of l [] = l
last_of l (e ∷ es) = last_of (some e.timestamp) es

is_new_trans :
    (l : Option ℕ) (m n : ℕ) → is_new l m ≡ true → is_new (some m) n ≡ true → is_new l n ≡ true
is_new_trans none m n h k = refl
is_new_trans (some l) m n h k = ground arith

module _ {F : Type 0} where
  IsAfter-widen :
      (l : Option ℕ) (m : ℕ) (es : List (ScoredEntry F))
      → is_new l m ≡ true
      → IsAfter (some m) es
      → IsAfter l es
  IsAfter-widen l m [] h k = tt
  IsAfter-widen l m (e ∷ es) h (p, k) = (is_new_trans l m e.timestamp h p, k)

  -- entries after l are all new to l, and none is new to the last of them
  filter_new :
      (l : Option ℕ) (es : List (ScoredEntry F))
      → IsAfter l es
      → filter (λ e. is_new l e.timestamp) es ≡ es
  filter_new l [] h = refl
  filter_new l (e ∷ es) (p, h) = rw (p, filter_new l es (IsAfter-widen l e.timestamp es p h)) refl

  last-le :
      (m : ℕ) (es : List (ScoredEntry F))
      → IsAfter (some m) es
      → (n : ℕ) × ((last_of (some m) es ≡ some n) × (m ≤ n))
  last-le m [] h = (m, (refl, omega arith))
  last-le m (e ∷ es) (p, h) = let (n, (q, k)) = last-le e.timestamp es h in (n, (q, ground arith))

  filter_old :
      (l : Option ℕ) (es : List (ScoredEntry F))
      → IsAfter l es
      → filter (λ e. is_new (last_of l es) e.timestamp) es ≡ []
  filter_old l [] h = refl
  filter_old l (e ∷ es) (p, h) =
      let (n, (q, k)) = last-le e.timestamp es h in
      let old : ltb n e.timestamp ≡ false = ground arith in
      rw (ap (λ x. is_new x e.timestamp) q ∙ old, filter_old (some e.timestamp) es h) refl

  pub last_of-append :
      (l : Option ℕ) (xs ys : List (ScoredEntry F))
      → last_of l (xs ++ ys) ≡ last_of (last_of l xs) ys
  last_of-append l [] ys = refl
  last_of-append l (x ∷ xs) ys = last_of-append (some x.timestamp) xs ys

  pub IsAfter-split :
      (l : Option ℕ) (xs ys : List (ScoredEntry F))
      → IsAfter l (xs ++ ys)
      → IsAfter l xs × IsAfter (last_of l xs) ys
  IsAfter-split l [] ys h = (tt, h)
  IsAfter-split l (x ∷ xs) ys (p, h) =
      let (a, b) = IsAfter-split (some x.timestamp) xs ys h in ((p, a), b)

  pub last_timestamp-last_of :
      (t : ℕ) (es : List (ScoredEntry F)) → some (last_timestamp t es) ≡ last_of (some t) es
  last_timestamp-last_of t [] = refl
  last_timestamp-last_of t (e ∷ es) = last_timestamp-last_of e.timestamp es

  -- the new entries of a log that has grown by ds
  pub new_entries :
      (log ds : List (ScoredEntry F))
      → IsAfter none (log ++ ds)
      → filter (λ e. is_new (last_of none log) e.timestamp) (log ++ ds) ≡ ds
  new_entries log ds h =
      let (a, b) = IsAfter-split none log ds h in
      let p = λ (e : ScoredEntry F). is_new (last_of none log) e.timestamp in
      filter-append p log ds
      ∙ ap₂ (λ xs ys. xs ++ ys) (filter_old none log a) (filter_new (last_of none log) ds b)
