-- ===== src/ReturnRisk/Sorted.antt =====
-- return_risk/rules_engine.py: the order of the triggers, and which there are.
use native.Mathlib.Nat.{le_trans}
use pay_shield.Prelude.{
  ℕ, ◌≤◌, ◌≡◌, refl, ◌∙◌, ap, String, Bool, ◌||◌, Option, List, [], ◌∷◌, arith, leb, ◌==◌, filter,
  All, any, Bool-cases, inl, inr, if◌then◌else◌,
}
use pay_shield.ReturnRisk.Rules.{
  Raw, Features, ReturnRule, Trigger, sort_key, insert, sort, flatten, triggers, evaluate,
}

-- no later trigger has a higher severity
abbrev pub IsSorted : List Trigger → Type 0
IsSorted [] = Unit
IsSorted (t ∷ ts) = All (λ u. sort_key u ≤ sort_key t) ts × IsSorted ts

abbrev IsUpTo : ℕ → List Trigger → Type 0
IsUpTo n = All (λ u. sort_key u ≤ n)

IsUpTo-mono : (m n : ℕ) (ts : List Trigger) → m ≤ n → IsUpTo m ts → IsUpTo n ts
IsUpTo-mono m n [] h a = tt
IsUpTo-mono m n (t ∷ ts) h (p, a) = (le_trans p h, IsUpTo-mono m n ts h a)

insert-IsUpTo :
    (n : ℕ) (t : Trigger) (ts : List Trigger)
    → sort_key t ≤ n
    → IsUpTo n ts
    → IsUpTo n (insert t ts)
unfolding insert
insert-IsUpTo n t [] h a = (h, tt)
insert-IsUpTo n t (u ∷ us) h (p, a) = elim (Bool-cases (leb (sort_key u) (sort_key t))) [
  | inl e ↦ rw e (h, (p, a))
  | inr e ↦ rw e (p, insert-IsUpTo n t us h a)
]

insert-IsSorted : (t : Trigger) (ts : List Trigger) → IsSorted ts → IsSorted (insert t ts)
unfolding insert
insert-IsSorted t [] s = (tt, tt)
insert-IsSorted t (u ∷ us) (a, s) = elim (Bool-cases (leb (sort_key u) (sort_key t))) [
  | inl e ↦
      let h : sort_key u ≤ sort_key t = ground arith in
      rw e ((h, IsUpTo-mono (sort_key u) (sort_key t) us h a), (a, s))
  | inr e ↦
      let h : sort_key t ≤ sort_key u = ground arith in
      rw e (insert-IsUpTo (sort_key u) t us h a, insert-IsSorted t us s)
]

sort-IsSorted : (ts : List Trigger) → IsSorted (sort ts)
unfolding sort
sort-IsSorted [] = tt
sort-IsSorted (t ∷ ts) = insert-IsSorted t (sort ts) (sort-IsSorted ts)

abbrev pub of_severity : ℕ → List Trigger → List Trigger
of_severity n = filter (λ t. sort_key t == n)

of_severity-insert :
    (n : ℕ) (t : Trigger) (ts : List Trigger) → of_severity n (insert t ts) ≡ of_severity n (t ∷ ts)
unfolding insert
of_severity-insert n t [] = refl
of_severity-insert n t (u ∷ us) = ground (arith, of_severity-insert n t us)

of_severity-sort : (n : ℕ) (ts : List Trigger) → of_severity n (sort ts) ≡ of_severity n ts
unfolding sort
of_severity-sort n [] = refl
of_severity-sort n (t ∷ ts) =
    of_severity-insert n t (sort ts) ∙ step (sort_key t == n) (of_severity-sort n ts)
  where
    step :
        {xs ys : List Trigger} (b : Bool)
        → xs ≡ ys
        → (if b then t ∷ xs else xs) ≡ (if b then t ∷ ys else ys)
    step b h = ap (λ zs. if b then t ∷ zs else zs) h

-- For every catalogue and every set of features, the result of `evaluate` is ordered by falling
-- severity, and for each severity it holds the triggers of that severity, an error counting 0, in
-- the order of the catalogue.
pub evaluate_lem :
    {F : Type 0} (eval : String → List (String × Raw F) → Option Bool) (rs : List ReturnRule)
    (fs : Features F)
    → IsSorted (evaluate eval rs fs)
      × ((n : ℕ)
          → of_severity n (evaluate eval rs fs) ≡ of_severity n (triggers eval rs (flatten fs)))
unfolding evaluate
evaluate_lem eval rs fs = (
  sort-IsSorted (triggers eval rs (flatten fs)),
  λ n. of_severity-sort n (triggers eval rs (flatten fs)),
)

any-insert :
    (p : Trigger → Bool) (t : Trigger) (ts : List Trigger) → any p (insert t ts) ≡ any p (t ∷ ts)
unfolding insert
any-insert p t [] = refl
any-insert p t (u ∷ us) = ground (arith, any-insert p t us)

pub any-sort : (p : Trigger → Bool) (ts : List Trigger) → any p (sort ts) ≡ any p ts
unfolding sort
any-sort p [] = refl
any-sort p (t ∷ ts) = any-insert p t (sort ts) ∙ ap (λ b. p t || b) (any-sort p ts)
