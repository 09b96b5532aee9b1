-- ===== src/Discovery/Examples.antt =====
-- Runs of the registry, and its theorems at concrete calls.
use edgeproxy.Prelude.{
  ◌≡◌, refl, true, String, List, [], ◌∷◌, none, lookup, insert, remove, remove_all, from_secs,
  string_key, arith,
}
use edgeproxy.Discovery.{
  RegisterRequest, BackendStatus, new_state, new_server, cleanup_tick, health_handler,
  registered_by, register, cleanup_expired, is_expired, register_handler, get_backend_handler,
  found, default_weight, default_soft_limit, default_hard_limit,
}
use edgeproxy.Discovery.Registry.{
  Call, registers, heartbeats, cleans, call, call_all, entry_run, registry-entry,
}
use edgeproxy.Discovery.Beating.{InTime, beating-found}

abbrev request : RegisterRequest
request = record {
  id = "b1";
  app = "shop";
  region = "eu";
  country = none;
  ip = "10.0.0.1";
  port = 8080;
  weight = default_weight;
  soft_limit = default_soft_limit;
  hard_limit = default_hard_limit;
}

abbrev b1 : String
b1 = "b1"

abbrev two_calls : List Call
two_calls = heartbeats (from_secs 20) b1 ∷ cleans (from_secs 40) ∷ []

gone_after_the_ttl :
    lookup b1 (call_all (new_state 30) (registers 0 request ∷ cleans (from_secs 30) ∷ [])).backends
    ≡ none
unfolding call_all call register_handler register registered_by cleanup_expired is_expired lookup
    insert remove remove_all new_state
gone_after_the_ttl = refl

one_is_left :
    (health_handler "0.2.0"
      (cleanup_tick
        (record (new_server "0.0.0.0:8081" 30) {
          registry =
              call_all
                (new_state 30)
                (registers 0 request ∷ registers (from_secs 5) (record request { id = "b2" }) ∷ []);
        })
        (from_secs 30)).registry).registered_backends
    ≡ 1
unfolding health_handler cleanup_tick new_server call_all call register_handler register
    registered_by cleanup_expired is_expired lookup insert remove remove_all new_state
one_is_left = refl

registry-entry_example :
    lookup b1 (call_all (new_state 30) (registers 0 request ∷ two_calls)).backends
    ≡ entry_run (from_secs 30) b1 none (registers 0 request ∷ two_calls)
registry-entry_example = registry-entry 30 (registers 0 request ∷ two_calls) b1

two_calls-InTime : InTime (from_secs 30) b1 0 two_calls
two_calls-InTime = (omega arith, tt)

beating-found_example :
    (status : BackendStatus) × (get_backend_handler
        (call_all (register_handler (call_all (new_state 30) []) 0 request).0 two_calls)
        (from_secs 49)
        b1
      ≡ found status)
    × (status.healthy ≡ true)
beating-found_example =
    beating-found 30 [] two_calls 0 (from_secs 49) request two_calls-InTime (omega arith)
