-- ===== src/Experiments/Tests.antt =====
-- A framework with one experiment, over numbers with four decimals.
use pay_shield.Prelude.{refl, some, [], ◌∷◌}
use pay_shield.Prelude.Int.{ℤ, pos}
use pay_shield.Prelude.Float.Fixed.{fixed}
use pay_shield.Experiments.{
  Framework, registered, register_experiment, fresh, Reachable, start, registers,
}
use pay_shield.Experiments.Single.{IsSingle, Reachable-IsSingle}

abbrev one_running : Framework ℤ
one_running = record {
  experiments = registered "e1" 1 "v1.0.0" "v1.1.0" (pos 1_000) ∷ [];
  active_experiment = some "e1";
}

one_running-Reachable : Reachable one_running
unfolding register_experiment fresh
one_running-Reachable = registers start "e1" 1 "v1.0.0" "v1.1.0" (pos 1_000) refl

Reachable-IsSingle_example : IsSingle one_running
Reachable-IsSingle_example = Reachable-IsSingle ℤ one_running one_running-Reachable
