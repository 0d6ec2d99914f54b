-- ===== src/Breaker/Tests.antt =====
-- Runs of the breaker on small inputs.
use pay_shield.Prelude.{ℕ, ◌≡◌, refl, arith}
use pay_shield.Breaker.{
  opened, Config, CircuitBreaker, fails, Call, fresh, attempt, enter, fall_back, get_from_fallback,
  Reachable, start, begins, ends,
}
use pay_shield.Breaker.States.{IsValid, Reachable-IsValid}

abbrev config : Config
config = record {
  failure_threshold = 2;
  recovery_timeout = 30;
  fallback_max_entries = 1_000;
  fallback_age = 60;
}

abbrev at : ℕ → Call
at t = record { key = "get:a"; now = t; later = t; outcome = fails }

-- three calls that overlap, of which two have failed
abbrev tripped : CircuitBreaker
tripped = (attempt config (at 101) (attempt config (at 100) fresh).1).1

tripped-Reachable : Reachable config 1 tripped
unfolding enter fresh
tripped-Reachable =
    ends (ends (begins (begins (begins start (at 97)) (at 98)) (at 99)) (at 100)) (at 101)

tripped_opened : tripped.state ≡ opened
unfolding attempt fall_back get_from_fallback fresh
tripped_opened = refl

Reachable-IsValid_example : IsValid config tripped
Reachable-IsValid_example =
    Reachable-IsValid config 1 tripped (omega arith) (omega arith) tripped-Reachable
