-- ===== src/Experiments/Single.antt =====
-- ml/ab_testing.py: at most one experiment takes traffic at a time.
use pay_shield.Prelude.{
  ℕ, ◌≡◌, refl, sym, ◌∙◌, ap, subst, String, Bool, true, false, not, ◌&&◌, ◌||◌, Option, none, some,
  List, [], ◌∷◌, ◌++◌, ◌⊎◌, inl, inr, All, All-append, Bool-cases, str_eq, false≢true,
  if◌then◌else◌,
}
use pay_shield.Prelude.Float.{Float, lit, flt}
use pay_shield.Experiments.{
  Status, promoted, rolled_back, failed, Experiment, Framework, Error, is_terminal, is_promotable,
  is_id, is_some, get_experiment, with_status, set_status, update_found, update_status,
  promote_found, promote, rollback_found, rollback, has_traffic, registered, register_experiment,
  fresh, Reachable, start, registers, promotes, rolls_back, fails,
}

module _ {F : Type 0} ⦃f : Float F⦄ where
  -- an experiment that takes traffic and has not ended
  abbrev pub is_running : Experiment F → Bool
  is_running e = has_traffic e.traffic_split && not (is_terminal e.status)

  -- every running experiment is the active one
  abbrev pub IsSingle : Framework F → Type 0
  IsSingle m =
      All (λ e. is_running e ≡ true → m.active_experiment ≡ some e.experiment_id) m.experiments

module _ (F : Type 0) ⦃f : Float F⦄ where
  ended :
      (now : ℕ) (i : String) (s : Status) (a : Option String) (es : List (Experiment F))
      → is_terminal s ≡ true
      → All (λ e. is_running e ≡ true → a ≡ some e.experiment_id) es
      → All
          (λ e.
            is_running e ≡ true
            → (if is_terminal s && is_id a i then none else a) ≡ some e.experiment_id)
          (set_status now i s es)
  ended now i s a [] t h = tt
  ended now i s a (e ∷ es) t (h, hs) = (first, ended now i s a es t hs)
    where
      and_false : (b : Bool) → (b && false) ≡ false
      and_false true = refl
      and_false false = refl

      first :
          is_running (if str_eq e.experiment_id i then with_status now s e else e) ≡ true
          → (if is_terminal s && is_id a i then none else a)
            ≡ some (if str_eq e.experiment_id i then with_status now s e else e).experiment_id
      first = elim (Bool-cases (str_eq e.experiment_id i)) [
        | inl p ↦
            rw (p, t) (λ r. absurd (false≢true (sym (and_false (has_traffic e.traffic_split)) ∙ r)))
        | inr p ↦ rw (p, t) (λ r. rw (h r, p) refl)
      ]

  update_status-IsSingle :
      (now : ℕ) (i : String) (s : Status) (m : Framework F)
      → is_terminal s ≡ true
      → IsSingle m
      → IsSingle (update_status now i s m)
  unfolding update_status
  update_status-IsSingle now i s m t h = at (get_experiment m.experiments i)
    where
      at : (o : Option (Experiment F)) → IsSingle (update_found now s m o)
      at none = h
      at (some e) = ended now e.experiment_id s m.active_experiment m.experiments t h

  right : Framework F → Error ⊎ Framework F → Framework F
  right d (inl e) = d
  right d (inr m) = m

  kept :
      (m' : Framework F) (r : Error ⊎ Framework F) (m : Framework F)
      → r ≡ inr m
      → r ≡ inr m'
      → IsSingle m
      → IsSingle m'
  unfolding right
  kept m' r m e h s = subst IsSingle (ap (right m') (sym e ∙ h)) s

  promote-IsSingle :
      (r : Bool) (now : ℕ) (i : String) (m m' : Framework F)
      → IsSingle m
      → promote r now i m ≡ inr m'
      → IsSingle m'
  unfolding promote
  promote-IsSingle r now i m m' s h = at r (get_experiment m.experiments i) h
    where
      at : (r : Bool) (o : Option (Experiment F)) → promote_found r now m o ≡ inr m' → IsSingle m'
      at r none h = absurd (cc h)
      at false (some e) h = elim (Bool-cases (is_promotable e.status)) [
        | inl p ↦ absurd (cc (h, p))
        | inr p ↦ absurd (cc (h, p))
      ]
      at true (some e) h = elim (Bool-cases (is_promotable e.status)) [
        | inl p ↦
            kept m' _ (update_status now e.experiment_id promoted m) (rw p refl) h
              (update_status-IsSingle now e.experiment_id promoted m refl s)
        | inr p ↦ absurd (cc (h, p))
      ]

  rollback-IsSingle :
      (r : Bool) (now : ℕ) (i : String) (m m' : Framework F)
      → IsSingle m
      → rollback r now i m ≡ inr m'
      → IsSingle m'
  unfolding rollback
  rollback-IsSingle r now i m m' s h = at r (get_experiment m.experiments i) h
    where
      at : (r : Bool) (o : Option (Experiment F)) → rollback_found r now m o ≡ inr m' → IsSingle m'
      at r none h = absurd (cc h)
      at false (some e) h = absurd (cc h)
      at true (some e) h =
          kept m' _ (update_status now e.experiment_id rolled_back m) refl h
            (update_status-IsSingle now e.experiment_id rolled_back m refl s)

  none_running :
      (a : Option String) (es : List (Experiment F))
      → All (λ e. is_running e ≡ true → none ≡ some e.experiment_id) es
      → All (λ e. is_running e ≡ true → a ≡ some e.experiment_id) es
  none_running a [] h = tt
  none_running a (e ∷ es) (h, hs) = ((λ r. absurd (cc (h r))), none_running a es hs)

  not_running : (e : Experiment F) → has_traffic e.traffic_split ≡ false → is_running e ≡ false
  not_running e h = rw h refl

  grown :
      (i : String) (now : ℕ) (a b : String) (x : F) (o : Option String) (es : List (Experiment F))
      (t : Bool)
      → has_traffic x ≡ t
      → (is_some o && t) ≡ false
      → All (λ e. is_running e ≡ true → o ≡ some e.experiment_id) es
      → All
          (λ e. is_running e ≡ true → (if t then some i else o) ≡ some e.experiment_id)
          (es ++ registered i now a b x ∷ [])
  grown i now a b x none es true T q h =
      All-append (λ e. is_running e ≡ true → some i ≡ some e.experiment_id) es _
        (none_running (some i) es h) ((λ r. refl), tt)
  grown i now a b x (some j) es true T q h = absurd (false≢true (sym q))
  grown i now a b x o es false T q h =
      All-append (λ e. is_running e ≡ true → o ≡ some e.experiment_id) es _ h
        ((λ r. absurd (false≢true (sym (not_running (registered i now a b x) T) ∙ r))), tt)

  register-IsSingle :
      (i : String) (now : ℕ) (a b : String) (x : F) (m m' : Framework F)
      → IsSingle m
      → register_experiment i now a b x m ≡ inr m'
      → IsSingle m'
  unfolding register_experiment
  register-IsSingle i now a b x m m' s h =
      elim (Bool-cases (is_some m.active_experiment && has_traffic x)) [
        | inl q ↦ absurd (cc (h, q))
        | inr q ↦ elim (Bool-cases (flt x (lit 0) || flt (lit 10_000) x)) [
          | inl p ↦ absurd (cc (h, q, p))
          | inr p ↦
              kept m' _
                (record {
                  experiments = m.experiments ++ registered i now a b x ∷ [];
                  active_experiment = if has_traffic x then some i else m.active_experiment;
                })
                (rw (q, p) refl) h
                (grown i now a b x m.active_experiment m.experiments (has_traffic x) refl q s)
        ]
      ]

  -- Whatever is registered, promoted, rolled back or failed, in any order: every experiment that takes
  -- traffic and has not ended is the active one, so that no two of them have different ids.
  pub Reachable-IsSingle : (m : Framework F) → Reachable m → IsSingle m
  unfolding fresh
  Reachable-IsSingle m start = tt
  Reachable-IsSingle m' (registers {m = m} r i now a b x e) =
      register-IsSingle i now a b x m m' (Reachable-IsSingle m r) e
  Reachable-IsSingle m' (promotes {m = m} r k now i e) =
      promote-IsSingle k now i m m' (Reachable-IsSingle m r) e
  Reachable-IsSingle m' (rolls_back {m = m} r k now i e) =
      rollback-IsSingle k now i m m' (Reachable-IsSingle m r) e
  Reachable-IsSingle m' (fails {m = m} r now i) =
      update_status-IsSingle now i failed m refl (Reachable-IsSingle m r)
