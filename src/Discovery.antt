-- ===== src/Discovery.antt =====
-- src/adapters/inbound/api_server.rs: the registry in which backends announce themselves, and what the
-- API answers. `Instant::now()` is the argument `now`; a request comes parsed and a response goes out
-- as a value, so HTTP and JSON are left to the libraries.
pub mod Registry
pub mod Beating
mod Examples
use edgeproxy.Prelude.{
  ℕ, ◌-◌, ◌*◌, ◌/◌, Bool, true, false, String, List, [], ◌∷◌, Option, none, some, if◌then◌else◌,
  ltb, leb, lookup, insert, remove, length, retain, map, keys_where, remove_all, Duration,
  from_secs, string_key,
}
use edgeproxy.Domain.{Backend}
use edgeproxy.Domain.Region.{from_str, as_str, default_country}

pub record RegisterRequest : Type 0 where
  pub id : String
  pub app : String
  pub region : String
  pub country : Option String
  pub ip : String
  pub port : ℕ
  pub weight : ℕ
  pub soft_limit : ℕ
  pub hard_limit : ℕ

-- The values of fields that a request leaves out.
abbrev pub default_weight : ℕ
default_weight = 2

abbrev pub default_soft_limit : ℕ
default_soft_limit = 100

abbrev pub default_hard_limit : ℕ
default_hard_limit = 150

pub record RegisterResponse : Type 0 where
  pub id : String
  pub registered : Bool
  pub message : String

pub record BackendStatus : Type 0 where
  pub id : String
  pub app : String
  pub region : String
  pub ip : String
  pub port : ℕ
  pub healthy : Bool
  pub last_heartbeat_secs : ℕ
  pub registered_secs : ℕ

pub record RegisteredBackend : Type 0 where
  pub backend : Backend
  pub registered_at : ℕ
  pub last_heartbeat : ℕ

pub record ApiState : Type 0 where
  pub backends : List (String × RegisteredBackend)
  pub heartbeat_ttl : Duration

unfoldable pub new_state : ℕ → ApiState
new_state heartbeat_ttl_secs = record {
  backends = [];
  heartbeat_ttl = from_secs heartbeat_ttl_secs;
}

unfoldable pub as_secs : Duration → ℕ
as_secs d = d / 1000000000

unfoldable pub in_time : ApiState → ℕ → RegisteredBackend → Bool
in_time s now r = ltb (now - r.last_heartbeat) s.heartbeat_ttl

unfoldable pub get_healthy_backends : ApiState → ℕ → List Backend
unfolding in_time
get_healthy_backends s now =
    map (λ e. record e.1.backend { healthy = true }) (retain (λ e. in_time s now e.1) s.backends)

unfoldable pub status_of : ApiState → ℕ → RegisteredBackend → BackendStatus
unfolding in_time as_secs
status_of s now r = record {
  id = r.backend.id;
  app = r.backend.app;
  region = as_str r.backend.region;
  ip = r.backend.wg_ip;
  port = r.backend.port;
  healthy = in_time s now r;
  last_heartbeat_secs = as_secs (now - r.last_heartbeat);
  registered_secs = as_secs (now - r.registered_at);
}

unfoldable pub get_all_backends : ApiState → ℕ → List BackendStatus
unfolding status_of
get_all_backends s now = map (λ e. status_of s now e.1) s.backends

unfoldable pub registered_by : ℕ → RegisterRequest → RegisteredBackend
registered_by now req =
    let region = from_str req.region in
    record {
      backend = record {
        id = req.id;
        app = req.app;
        region = region;
        country = elim req.country [ none ↦ default_country region | some c ↦ c ];
        wg_ip = req.ip;
        port = req.port;
        healthy = true;
        weight = req.weight;
        soft_limit = req.soft_limit;
        hard_limit = req.hard_limit;
      };
      registered_at = now;
      last_heartbeat = now;
    }

unfoldable pub register : ApiState → ℕ → RegisterRequest → ApiState × RegisteredBackend
unfolding registered_by
register s now req =
    let r = registered_by now req in (record s { backends = insert req.id r s.backends }, r)

unfoldable pub heartbeat : ApiState → ℕ → String → ApiState × Bool
heartbeat s now id = elim (lookup id s.backends) [
  | none ↦ (s, false)
  | some r ↦
      (record s { backends = insert id (record r { last_heartbeat = now }) s.backends }, true)
]

unfoldable pub deregister : ApiState → String → ApiState × Bool
deregister s id = (
  record s { backends = remove id s.backends },
  elim (lookup id s.backends) [ none ↦ false | some _ ↦ true ],
)

unfoldable pub is_expired : ApiState → ℕ → RegisteredBackend → Bool
is_expired s now r = leb s.heartbeat_ttl (now - r.last_heartbeat)

unfoldable pub cleanup_expired : ApiState → ℕ → ApiState × ℕ
unfolding is_expired
cleanup_expired s now =
    let expired = keys_where (is_expired s now) s.backends in
    (record s { backends = remove_all expired s.backends }, length expired)

-- The server: its address and its registry.
pub record ApiServer : Type 0 where
  pub listen_addr : String
  pub registry : ApiState

unfoldable pub new_server : String → ℕ → ApiServer
unfolding new_state
new_server listen_addr heartbeat_ttl_secs = record {
  listen_addr = listen_addr;
  registry = new_state heartbeat_ttl_secs;
}

-- A tick of the task that `start_cleanup_task` spawns.
unfoldable pub cleanup_tick : ApiServer → ℕ → ApiServer
unfolding cleanup_expired
cleanup_tick server now = record server { registry = (cleanup_expired server.registry now).0 }

pub record HealthResponse : Type 0 where
  pub ok : String
  pub version : String
  pub registered_backends : ℕ

-- `version` is the one of Cargo.toml at build time.
unfoldable pub health_handler : String → ApiState → HealthResponse
health_handler version s = record {
  ok = "ok";
  version = version;
  registered_backends = length s.backends;
}

-- The status codes that the handlers use, with what they answer.
pub data Reply : Type 0 where
  created : RegisterResponse → Reply
  beating : String → Reply
  not_registered : String → Reply
  deregistered : String → Reply
  listed : List BackendStatus → ℕ → Reply
  found : BackendStatus → Reply
  not_found : Reply

unfoldable pub register_handler : ApiState → ℕ → RegisterRequest → ApiState × Reply
unfolding register
register_handler s now req = (
  (register s now req).0,
  created (record { id = req.id; registered = true; message = "Backend registered successfully" }),
)

unfoldable pub heartbeat_handler : ApiState → ℕ → String → ApiState × Reply
unfolding heartbeat
heartbeat_handler s now id =
    let (t, known) = heartbeat s now id in (t, if known then beating id else not_registered id)

unfoldable pub deregister_handler : ApiState → String → ApiState × Reply
unfolding deregister
deregister_handler s id =
    let (t, known) = deregister s id in (t, if known then deregistered id else not_found)

unfoldable pub list_backends_handler : ApiState → ℕ → Reply
unfolding get_all_backends
list_backends_handler s now = listed (get_all_backends s now) (length (get_all_backends s now))

unfoldable pub get_backend_handler : ApiState → ℕ → String → Reply
unfolding status_of
get_backend_handler s now id = elim (lookup id s.backends) [
  | none ↦ not_found
  | some r ↦ found (status_of s now r)
]
