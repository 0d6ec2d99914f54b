-- ===== src/Rebuttal/WebhookTests.antt =====
-- Events of the chargeback webhook on small inputs, over numbers with four decimals.
use pay_shield.Prelude.{◌≡◌, true, false, none, some, List, [], ◌∷◌, String}
use pay_shield.Client.{taken, refused}
use pay_shield.Prelude.Int.{ℤ, pos}
use pay_shield.Prelude.Float.Fixed.{fixed}
use pay_shield.Rebuttal.{Evidence}
use pay_shield.Rebuttal.Webhook.{
  Chargeback, DisputeKeys, DisputeCalls, ChargebackEntry, Helpers, process_chargeback_event,
}
use pay_shield.Rebuttal.Resent.{process_chargeback_event_twice}

abbrev evidence : Evidence
evidence = record {
  transaction_proof = true;
  device_fingerprint = true;
  velocity_evidence = true;
  geo_evidence = false;
  benford_evidence = false;
  graph_evidence = false;
  investigation_report = false;
  delivery_proof = false;
}

-- a digest that is the payload, and evidence for every payment
abbrev helpers : Helpers ℤ
helpers = record {
  hexdigest = λ secret payload. payload;
  is_ascii = λ s. true;
  last_word = λ event. "CHARGEBACK_CREATED";
  collect = λ txn. some evidence;
}

abbrev answering : DisputeCalls
answering = record { set_dispute = taken; get_payment_txn = taken; set_rebuttal = refused }

abbrev filed : Chargeback
filed = record {
  id = some "d1";
  payment_id = some "p1";
  status = none;
  network = none;
  reason_code = some "FRAUD";
}

abbrev keys : DisputeKeys ℤ
keys = record { disputes = []; payment_txns = ("p1", some "t1") ∷ []; rebuttals = [] }

abbrev kept : DisputeCalls
kept = record answering { set_rebuttal = taken }

abbrev sent : DisputeKeys ℤ → String → ℤ → DisputeKeys ℤ × List (ChargebackEntry ℤ)
sent k now at = process_chargeback_event helpers kept k "chargeback.created" (some filed) now at

process_chargeback_event_twice_example :
    let (k1, entries) = sent keys "now" (pos 0) in
    let (k2, again) = sent k1 "later" (pos 20_000) in
    (k2.rebuttals ≡ (sent keys "later" (pos 20_000)).0.rebuttals) × (again ≡ entries)
process_chargeback_event_twice_example =
    process_chargeback_event_twice helpers kept keys "chargeback.created" (some filed) "now" "later"
      (pos 0) (pos 20_000)
