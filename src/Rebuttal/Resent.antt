-- ===== src/Rebuttal/Resent.antt =====
-- api/routes/chargeback_webhook.py: an event that is sent again.
use pay_shield.Prelude.{
  ◌≡◌, refl, sym, ap, ◌∙◌, String, inl, inr, Option, none, some, List, ◌∷◌, Bool-cases, find_key,
  put_key, str_eq,
}
use pay_shield.Client.{CallResult, taken, refused, raises}
use pay_shield.Prelude.Float.{Float}
use pay_shield.Rebuttal.{Evidence, Document, build_rebuttal}
use pay_shield.Rebuttal.Recorded.{put_key_again}
use pay_shield.Rebuttal.Webhook.{
  Chargeback, DisputeKeys, DisputeCalls, marked, ChargebackEntry, Helpers, dispute_id_of,
  payment_id_of, is_missing_text, received_entry, rebuttal_of, keep_rebuttal, rebut, look_up,
  created_dispute, handled, process_chargeback_event,
}

module _ {F : Type 0} ⦃f : Float F⦄ (py : Helpers F) where
  -- a second time hands over what a first does, and leaves the rebuttals of a lone time
  abbrev IsReplaced :
      DisputeKeys F × List (ChargebackEntry F)
      → DisputeKeys F × List (ChargebackEntry F)
      → DisputeKeys F × List (ChargebackEntry F)
      → Type 0
  IsReplaced first second lone = (second.0.rebuttals ≡ lone.0.rebuttals) × (second.1 ≡ first.1)

  IsReplaced-keep_rebuttal :
      (set : CallResult) (k k1 k2 : DisputeKeys F) (c : Chargeback) (x : Option Evidence)
      (at later : F)
      → k2.rebuttals ≡ k.rebuttals
      → k1.rebuttals ≡ (keep_rebuttal py set k c x at).0.rebuttals
      → IsReplaced
          (keep_rebuttal py set k c x at)
          (keep_rebuttal py set k1 c x later)
          (keep_rebuttal py set k2 c x later)
  unfolding build_rebuttal
  IsReplaced-keep_rebuttal set k k1 k2 c none at later g h = (h ∙ sym g, refl)
  IsReplaced-keep_rebuttal raises k k1 k2 c (some e) at later g h = (h ∙ sym g, refl)
  IsReplaced-keep_rebuttal refused k k1 k2 c (some e) at later g h = (h ∙ sym g, refl)
  IsReplaced-keep_rebuttal taken k k1 k2 c (some e) at later g h =
      let put : List (String × Document F) → List (String × Document F) =
        put_key (dispute_id_of c) (rebuttal_of py c e later) in
      (
        ap put h
            ∙ put_key_again (dispute_id_of c) (rebuttal_of py c e at) (rebuttal_of py c e later)
                k.rebuttals
            ∙ ap put (sym g),
        refl,
      )

  IsReplaced-rebut :
      (calls : DisputeCalls) (k k1 k2 : DisputeKeys F) (c : Chargeback) (o : Option (Option String))
      (at later : F)
      → k2.rebuttals ≡ k.rebuttals
      → k1.rebuttals ≡ (rebut py calls k c o at).0.rebuttals
      → IsReplaced
          (rebut py calls k c o at)
          (rebut py calls k1 c o later)
          (rebut py calls k2 c o later)
  IsReplaced-rebut calls k k1 k2 c none at later g h = (h ∙ sym g, refl)
  IsReplaced-rebut calls k k1 k2 c (some none) at later g h = (h ∙ sym g, refl)
  IsReplaced-rebut calls k k1 k2 c (some (some txn)) at later g h =
      elim (Bool-cases (is_missing_text txn)) [
        | inl m ↦ rw m ((rw m at h) ∙ sym g, refl)
        | inr m ↦ rw m (
            IsReplaced-keep_rebuttal calls.set_rebuttal k k1 k2 c (py.collect txn) at later g
              (rw m at h))
      ]

  payment_txns-rebut :
      (calls : DisputeCalls) (k : DisputeKeys F) (c : Chargeback) (o : Option (Option String))
      (at : F)
      → (rebut py calls k c o at).0.payment_txns ≡ k.payment_txns
  payment_txns-rebut calls k c none at = refl
  payment_txns-rebut calls k c (some none) at = refl
  payment_txns-rebut calls k c (some (some txn)) at = elim (Bool-cases (is_missing_text txn)) [
    | inl m ↦ rw m refl
    | inr m ↦ rw m (kept calls.set_rebuttal (py.collect txn))
  ]
    where
      kept :
          (set : CallResult) (x : Option Evidence)
          → (keep_rebuttal py set k c x at).0.payment_txns ≡ k.payment_txns
      kept set none = refl
      kept raises (some e) = refl
      kept refused (some e) = refl
      kept taken (some e) = refl

  payment_txns-look_up :
      (get : CallResult) (calls : DisputeCalls) (k : DisputeKeys F) (c : Chargeback) (at : F)
      → (look_up py get calls k c at).0.payment_txns ≡ k.payment_txns
  payment_txns-look_up raises calls k c at = refl
  payment_txns-look_up refused calls k c at = refl
  payment_txns-look_up taken calls k c at =
      payment_txns-rebut calls k c (find_key (payment_id_of c) k.payment_txns) at

  IsReplaced-look_up :
      (get : CallResult) (calls : DisputeCalls) (k k1 k2 : DisputeKeys F) (c : Chargeback)
      (at later : F)
      → k2.rebuttals ≡ k.rebuttals
      → k2.payment_txns ≡ k.payment_txns
      → k1.rebuttals ≡ (look_up py get calls k c at).0.rebuttals
      → k1.payment_txns ≡ k.payment_txns
      → IsReplaced
          (look_up py get calls k c at)
          (look_up py get calls k1 c later)
          (look_up py get calls k2 c later)
  IsReplaced-look_up raises calls k k1 k2 c at later g t h u = (h ∙ sym g, refl)
  IsReplaced-look_up refused calls k k1 k2 c at later g t h u = (h ∙ sym g, refl)
  IsReplaced-look_up taken calls k k1 k2 c at later g t h u =
      let find = find_key (payment_id_of c) in
      let o = find k.payment_txns in
      let (p, q) = IsReplaced-rebut calls k k1 k2 c o at later g h in
      (
        ap (λ x. (rebut py calls k1 c x later).0.rebuttals) (ap find u)
            ∙ p
            ∙ ap (λ x. (rebut py calls k2 c x later).0.rebuttals) (ap find (sym t)),
        ap (λ x. (rebut py calls k1 c x later).1) (ap find u) ∙ q,
      )

  IsReplaced-created_dispute :
      (set : CallResult) (calls : DisputeCalls) (k : DisputeKeys F) (c : Chargeback)
      (now after : String) (at later : F)
      → let first = created_dispute py set calls k c now at in
        IsReplaced first
          (created_dispute py set calls first.0 c after later)
          (created_dispute py set calls k c after later)
  IsReplaced-created_dispute raises calls k c now after at later = (refl, refl)
  IsReplaced-created_dispute refused calls k c now after at later =
      IsReplaced-look_up calls.get_payment_txn calls k _ k c at later refl refl refl
        (payment_txns-look_up calls.get_payment_txn calls k c at)
  IsReplaced-created_dispute taken calls k c now after at later =
      let k1 = (look_up py calls.get_payment_txn calls (marked py k c now) c at).0 in
      IsReplaced-look_up calls.get_payment_txn calls (marked py k c now) (marked py k1 c after)
        (marked py k c after) c at later refl refl refl
        (payment_txns-look_up calls.get_payment_txn calls (marked py k c now) c at)

  IsReplaced-handled :
      (calls : DisputeCalls) (k : DisputeKeys F) (event : String) (c : Chargeback)
      (now after : String) (at later : F)
      → let first = handled py calls k event c now at in
        IsReplaced first
          (handled py calls first.0 event c after later)
          (handled py calls k event c after later)
  IsReplaced-handled calls k event c now after at later =
      elim (Bool-cases (str_eq event "chargeback.created")) [
        | inl e ↦ rw e (IsReplaced-created_dispute calls.set_dispute calls k c now after at later)
        | inr e ↦ elim (Bool-cases (str_eq event "chargeback.closed")) [
          | inl i ↦ rw (e, i) (refl, refl)
          | inr i ↦ rw (e, i) (refl, refl)
        ]
      ]

  -- An event that is sent again, with the same results of Redis and the same evidence, leaves the
  -- rebuttals as if it had come only after, with the later time in the one that it replaces, and hands
  -- all its entries to the audit writer a second time.
  pub process_chargeback_event_twice :
      (calls : DisputeCalls) (k : DisputeKeys F) (event : String) (c : Option Chargeback)
      (now after : String) (at later : F)
      → let (k1, entries) = process_chargeback_event py calls k event c now at in
        let (k2, again) = process_chargeback_event py calls k1 event c after later in
        (k2.rebuttals ≡ (process_chargeback_event py calls k event c after later).0.rebuttals)
        × (again ≡ entries)
  unfolding process_chargeback_event
  process_chargeback_event_twice calls k event none now after at later = (refl, refl)
  process_chargeback_event_twice calls k event (some c) now after at later =
      let (h, e) = IsReplaced-handled calls k event c now after at later in
      (h, ap (λ es. received_entry py event c ∷ es) e)
