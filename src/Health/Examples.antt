-- ===== src/Health/Examples.antt =====
-- Runs of the health checks, and their theorems at concrete checks.
use edgeproxy.Prelude.{
  ◌≡◌, refl, display, ◌==◌, if◌then◌else◌, ℕ, true, false, ◌||◌, String, [], ◌∷◌, none, some, leb,
  ltb, lookup, insert, string_key, arith,
}
use edgeproxy.Health.{
  default_config, HealthStatus, failure, HealthChecker, entry_of, update_status, apply_result,
  changed,
}
use edgeproxy.Domain.{Backend}
use edgeproxy.Domain.Region.{south_america}
use edgeproxy.Health.Probing.{
  Network, connected, silent, responded, build_backend_addr, check_round, checked,
  check_round-settled,
}
use edgeproxy.Repository.{find_id}
use edgeproxy.Health.Outage.{fail_each, succeed_each, outage}

abbrev fresh : HealthStatus
fresh = record {
  healthy = true;
  last_check = 0;
  latency_ms = none;
  consecutive_failures = 0;
  consecutive_successes = 4;
  last_error = none;
}

two_failures :
    (fail_each default_config (("timeout", 5000) ∷ ("timeout", 5000) ∷ []) fresh).healthy ≡ true
unfolding fail_each apply_result
two_failures = refl

three_failures :
    (fail_each default_config
      (("timeout", 5000) ∷ ("timeout", 5000) ∷ ("refused", 3) ∷ [])
      fresh).healthy
    ≡ false
unfolding fail_each apply_result
three_failures = refl

outage_example :
    ((fail_each default_config
        (("timeout", 5000) ∷ ("timeout", 5000) ∷ ("refused", 3) ∷ [])
        fresh).healthy
      ≡ ltb 3 3)
    × ((succeed_each default_config (5 ∷ 6 ∷ []) (
          fail_each default_config
            (("timeout", 5000) ∷ ("timeout", 5000) ∷ ("refused", 3) ∷ [])
            fresh)).healthy
        ≡ (ltb 3 3 || leb 2 2))
outage_example =
    outage default_config ("timeout", 5000) (("timeout", 5000) ∷ ("refused", 3) ∷ []) (5 ∷ 6 ∷ [])
      fresh refl refl (omega arith) (omega arith) (omega arith) (omega arith)

abbrev checker : HealthChecker
checker = record {
  config = default_config;
  status = ("b1", record fresh { consecutive_failures = 2 }) ∷ [];
}

third_failure_is_told :
    (update_status checker 9 "b1" (failure "timeout" 5000)).1 ≡ some ("b1", false)
unfolding update_status entry_of apply_result changed lookup insert
third_failure_is_told = refl

abbrev b1 : String
b1 = "b1"

abbrev saopaulo : Backend
saopaulo = record {
  id = "sa-1";
  app = "app";
  region = south_america;
  country = "BR";
  wg_ip = "10.0.0.1";
  port = 8080;
  healthy = true;
  weight = 1;
  soft_limit = 10;
  hard_limit = 100;
}

abbrev rio : Backend
rio = record saopaulo { id = "sa-2"; wg_ip = "fd00::1" }

-- The address of a backend at an IPv6 address, which the TCP server writes as [fd00::1]:8080.
unbracketed : build_backend_addr rio ≡ "fd00::1:8080"
unfolding build_backend_addr display
unbracketed = refl

-- The network in which only sa-1 answers.
abbrev half_up : Backend → Network
half_up b = record {
  tcp_answer = λ addr. if addr == "10.0.0.1:8080" then connected else silent;
  http_answer = λ url. responded 503 "503 Service Unavailable";
  elapsed = 1_000_000;
}

abbrev at_nine : Backend → ℕ
at_nine b = 9

check_round-settled_example :
    lookup "sa-2" (check_round half_up at_nine (saopaulo ∷ rio ∷ []) checker).0.status
    ≡ some (checked half_up at_nine checker rio)
unfolding find_id
check_round-settled_example =
    check_round-settled half_up at_nine (saopaulo ∷ rio ∷ []) checker "sa-2" (refl, (refl, tt))
