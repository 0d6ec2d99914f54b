-- ===== src/Rebuttal/Tests.antt =====
-- A rebuttal on small inputs, over numbers with four decimals.
use pay_shield.Prelude.{◌≤◌, true, false, none, arith}
use pay_shield.Prelude.Int.{ℤ, pos}
use pay_shield.Prelude.Float.Fixed.{fixed, ℤ-IsOrdered}
use pay_shield.Rebuttal.{Evidence, build_rebuttal}
use pay_shield.Rebuttal.Respond.{strength, build_rebuttal_mono}

abbrev some_evidence : Evidence
some_evidence = record {
  transaction_proof = true;
  device_fingerprint = false;
  velocity_evidence = true;
  geo_evidence = false;
  benford_evidence = false;
  graph_evidence = false;
  investigation_report = false;
  delivery_proof = false;
}

abbrev more_evidence : Evidence
more_evidence = record some_evidence { device_fingerprint = true }

build_rebuttal_mono_example :
    strength (build_rebuttal some_evidence "UPI" "FRAUD" none (pos 20_000)).response_type
    ≤ strength (build_rebuttal more_evidence "UPI" "FRAUD" none (pos 20_000)).response_type
build_rebuttal_mono_example =
    build_rebuttal_mono ℤ ℤ-IsOrdered some_evidence more_evidence "UPI" "FRAUD" none (pos 20_000) (
      omega arith,
      omega arith,
      omega arith,
      omega arith,
      omega arith,
      omega arith,
      omega arith,
      omega arith,
    )
