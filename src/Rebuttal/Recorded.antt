-- ===== src/Rebuttal/Recorded.antt =====
-- api/routes/chargeback_webhook.py: what a verified event leaves, once and when it is sent again.
use pay_shield.Prelude.{
  ◌≡◌, refl, ap, String, ◌⊎◌, inl, inr, some, List, [], ◌∷◌, Bool-cases, find_key, put_key, str_eq,
  eq_iff,
}
use pay_shield.Client.{CallResult, taken, refused}
use pay_shield.Prelude.Float.{Float}
use pay_shield.Rebuttal.{Evidence, Document}
use pay_shield.Rebuttal.Webhook.{
  Chargeback, DisputeKeys, DisputeCalls, ChargebackEntry, Helpers, dispute_id_of, payment_id_of,
  rebuttal_of, generated, outcome_entry,
}

pub put_key_again :
    {A : Type 0} (k : String) (u v : A) (xs : List (String × A))
    → put_key k v (put_key k u xs) ≡ put_key k v xs
put_key_again k u v [] = rw ((eq_iff k k).1 refl) refl
put_key_again k u v ((j, x) ∷ xs) = elim (Bool-cases (str_eq j k)) [
  | inl e ↦ rw (e, (eq_iff k k).1 refl) refl
  | inr e ↦ rw (e, e) (ap (λ ys. (j, x) ∷ ys) (put_key_again k u v xs))
]

module _ {F : Type 0} ⦃f : Float F⦄ (py : Helpers F) where
  -- kept, where Redis takes it; where it is not there, the rebuttals are as before
  abbrev pub IsKept : CallResult → DisputeKeys F → Chargeback → Document F → DisputeKeys F → Type 0
  IsKept set k c d k2 =
      ((set ≡ taken) × (k2.rebuttals ≡ put_key (dispute_id_of c) d k.rebuttals))
      ⊎ ((set ≡ refused) × (k2.rebuttals ≡ k.rebuttals))

  -- nothing more, the outcome, or a rebuttal that is set and noted
  abbrev pub IsHandled :
      DisputeCalls
      → DisputeKeys F
      → Chargeback
      → F
      → DisputeKeys F × List (ChargebackEntry F)
      → Type 0
  IsHandled calls k c at (k2, entries) =
      ((entries ≡ []) × (k2.rebuttals ≡ k.rebuttals))
      ⊎ ((entries ≡ outcome_entry py c ∷ []) × (k2.rebuttals ≡ k.rebuttals))
      ⊎ ((txn : String) × (e : Evidence) × (find_key (payment_id_of c) k.payment_txns
            ≡ some (some txn))
          × (py.collect txn ≡ some e)
          × (entries ≡ generated py c e (rebuttal_of py c e at) ∷ [])
          × IsKept calls.set_rebuttal k c (rebuttal_of py c e at) k2)
