-- ===== src/Rebuttal/Signed.antt =====
-- chargeback/signatures.py and the route of api/routes/chargeback_webhook.py: who may send an event.
use mathlib.Core.Option.{some-injective}
use pay_shield.Prelude.{
  ◌≡◌, refl, String, Bool, true, false, false≢true, ◌||◌, inl, inr, Option, none, some, Bool-cases,
  eq_iff,
}
use pay_shield.Rebuttal.Webhook.{
  Chargeback, Helpers, is_missing_text, verify_signature, answer_of, razorpay_chargeback_webhook,
}

or_false_left : (a b : Bool) → a || b ≡ false → a ≡ false
or_false_left false b h = refl
or_false_left true b h = h

module _ {F : Type 0} (py : Helpers F) where
  verified :
      (secret payload signature : String)
      → verify_signature py secret payload signature ≡ some true
      → (py.hexdigest secret payload ≡ signature) × (is_missing_text secret ≡ false)
  unfolding verify_signature
  verified secret payload signature h =
      let blank = is_missing_text secret || is_missing_text signature in
      elim (Bool-cases blank) [
        | inl e ↦ absurd (false≢true (to_bool (rw e at h)))
        | inr e ↦ elim (Bool-cases (py.is_ascii signature)) [
          | inl a ↦ (
            (eq_iff (py.hexdigest secret payload) signature).0 (to_bool (rw (e, a) at h)),
            or_false_left (is_missing_text secret) (is_missing_text signature) e,
          )
          | inr a ↦ absurd (cc (rw (e, a) at h))
        ]
      ]
    where
      to_bool : {b : Bool} → some b ≡ some true → b ≡ true
      to_bool e = some-injective _ _ e

  -- An event is handed to the task only if the signature is the digest of the payload under a secret
  -- that is not empty.
  pub razorpay_chargeback_webhook_lem :
      (secret payload signature : String) (body : Option (String × Option Chargeback))
      (x : String × Option Chargeback)
      → (razorpay_chargeback_webhook py secret payload signature body).1 ≡ some x
      → (py.hexdigest secret payload ≡ signature)
        × (is_missing_text secret ≡ false)
        × (body ≡ some x)
  unfolding razorpay_chargeback_webhook
  razorpay_chargeback_webhook_lem secret payload signature body x h =
      let (v, b) = handed (verify_signature py secret payload signature) body x h in
      let (d, s) = verified secret payload signature v in (d, s, b)
    where
      handed :
          {A : Type 0} (v : Option Bool) (body : Option A) (x : A)
          → (answer_of v body).1 ≡ some x
          → (v ≡ some true) × (body ≡ some x)
      handed none body x h = absurd (cc h)
      handed (some false) body x h = absurd (cc h)
      handed (some true) none x h = absurd (cc h)
      handed (some true) (some e) x h = (refl, h)
