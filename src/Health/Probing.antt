-- ===== src/Health/Probing.antt =====
-- src/infrastructure/health_checker.rs: the probes of a backend, and a round of the task that checks
-- every backend. What the network answers to a probe is an argument, and when.
use Prim.Native.String.{◌++◌ as append}
use edgeproxy.Prelude.{
  ℕ, ◌≡◌, refl, ap, ◌∙◌, Bool, true, false, ◌&&◌, String, List, [], ◌∷◌, Option, none, some,
  if◌then◌else◌, leb, ltb, Duration, as_millis, display, lookup, lookup-insert, string_key, ◌==◌,
}
use edgeproxy.Domain.{Backend}
use edgeproxy.Repository.{find_id, find_id-id}
use edgeproxy.Health.{
  tcp, http, HealthCheckConfig, HealthCheckResult, success, failure, HealthChecker, HealthStatus,
  update_status, entry_of, default_status, apply_result,
}

-- How a TCP connection to an address ends within the timeout.
pub data TcpAnswer : Type 0 where
  connected silent : TcpAnswer
  refused : String → TcpAnswer

-- How an HTTP request ends: a status code with its text, or an error of the client or the request.
pub data HttpAnswer : Type 0 where
  responded : ℕ → String → HttpAnswer
  client_error request_error : String → HttpAnswer

pub record Network : Type 0 where
  pub tcp_answer : String → TcpAnswer
  pub http_answer : String → HttpAnswer
  pub elapsed : Duration

-- An error, or none for `Ok(())`.
unfoldable pub tcp_check : Network → String → Option String
tcp_check net addr = elim (net.tcp_answer addr) [
  | connected ↦ none
  | refused e ↦ some (append "connection failed: " e)
  | silent ↦ some "connection timeout"
]

unfoldable pub http_check : Network → String → String → Option String
http_check net addr path = elim (net.http_answer (append (append "http://" addr) path)) [
  | responded code shown ↦
      if leb 200 code && ltb code 300 then none else some (append "unhealthy status: " shown)
  | client_error e ↦ some (append "client error: " e)
  | request_error e ↦ some (append "request failed: " e)
]

unfoldable pub build_backend_addr : Backend → String
build_backend_addr b = append (append b.wg_ip ":") (display b.port)

unfoldable pub check_backend : Network → HealthCheckConfig → Backend → HealthCheckResult
unfolding build_backend_addr tcp_check http_check
check_backend net cfg b =
    let addr = build_backend_addr b in
    let failed : Option String = elim cfg.check_type [
      | tcp ↦ tcp_check net addr
      | http path ↦ http_check net addr path
    ] in
    elim failed [
      | none ↦ success (as_millis net.elapsed)
      | some e ↦ failure e (as_millis net.elapsed)
    ]

-- The loop of a round, with the time at which each check ends: the checker afterwards, and the calls
-- of the callback.
unfoldable pub check_round :
    (Backend → Network)
    → (Backend → ℕ)
    → List Backend
    → HealthChecker
    → HealthChecker × List (String × Bool)
unfolding check_backend update_status
check_round net now [] c = (c, [])
check_round net now (b ∷ bs) c =
    let (d, told) = update_status c (now b) b.id (check_backend (net b) c.config b) in
    let (e, more) = check_round net now bs d in
    (e, elim told [ none ↦ more | some call ↦ call ∷ more ])

-- The ids of the backends differ.
abbrev pub DistinctIds : List Backend → Type 0
DistinctIds [] = Unit {0}
DistinctIds (b ∷ bs) = (find_id b.id bs ≡ none) × DistinctIds bs

-- What a check makes of the status of its backend.
abbrev pub checked : (Backend → Network) → (Backend → ℕ) → HealthChecker → Backend → HealthStatus
checked net now c b =
    record (apply_result c.config (check_backend (net b) c.config b) (entry_of c (now b) b.id)) {
      last_check = now b;
    }

-- The status under an id after a round, from the backend that has it.
abbrev pub settled :
    (Backend → Network)
    → (Backend → ℕ)
    → HealthChecker
    → String
    → Option Backend
    → Option HealthStatus
settled net now c id none = lookup id c.status
settled net now c id (some b) = some (checked net now c b)

lookup-update_status :
    (net : Backend → Network) (now : Backend → ℕ) (c : HealthChecker) (b : Backend) (j : String)
    → let d = (update_status c (now b) b.id (check_backend (net b) c.config b)).0 in
      lookup j d.status ≡ (if b.id == j then some (checked net now c b) else lookup j c.status)
unfolding update_status
lookup-update_status net now c b j = lookup-insert b.id j (checked net now c b) c.status

lookup_other :
    (net : Backend → Network) (now : Backend → ℕ) (c : HealthChecker) (b : Backend) (j : String)
    → (b.id == j) ≡ false
    → let d = (update_status c (now b) b.id (check_backend (net b) c.config b)).0 in
      lookup j d.status ≡ lookup j c.status
lookup_other net now c b j other = lookup-update_status net now c b j ∙ rw other

entry_of-update_status :
    (net : Backend → Network) (now : Backend → ℕ) (c : HealthChecker) (b : Backend) (j : String)
    (t : ℕ)
    → (b.id == j) ≡ false
    → entry_of (update_status c (now b) b.id (check_backend (net b) c.config b)).0 t j
      ≡ entry_of c t j
unfolding entry_of
entry_of-update_status net now c b j t other =
    ap
      (λ (o : Option HealthStatus). elim o as (λ _. HealthStatus) [
        | none ↦ default_status t
        | some s ↦ s
      ])
      {y = lookup j c.status} (lookup_other net now c b j other)

settled_later :
    (net : Backend → Network) (now : Backend → ℕ) (c : HealthChecker) (b : Backend) (j : String)
    (o : Option Backend)
    → (b.id == j) ≡ false
    → ((d : Backend) → o ≡ some d → d.id ≡ j)
    → settled net now (update_status c (now b) b.id (check_backend (net b) c.config b)).0 j o
      ≡ settled net now c j o
unfolding update_status
settled_later net now c b j none other known = lookup_other net now c b j other
settled_later net now c b j (some d) other known =
    ap
      (λ e. some (record (apply_result c.config (check_backend (net d) c.config d) e) {
        last_check = now d;
      }))
      {y = entry_of c (now d) d.id}
      (entry_of-update_status net now c b d.id (now d) (rw (known d refl) other))

-- After a round of checks of backends with different ids, the status under an id is what the probe of
-- its own backend makes of the status before the round, or the default one; an id that no backend has
-- keeps its status. The probes of the other backends do not change it.
pub check_round-settled :
    (net : Backend → Network) (now : Backend → ℕ) (bs : List Backend) (c : HealthChecker)
    (j : String)
    → DistinctIds bs
    → lookup j (check_round net now bs c).0.status ≡ settled net now c j (find_id j bs)
unfolding check_round find_id
check_round-settled net now [] c j distinct = refl
check_round-settled net now (b ∷ bs) c j distinct =
    let d = (update_status c (now b) b.id (check_backend (net b) c.config b)).0 in
    check_round-settled net now bs d j distinct.1 ∙ here_or_later (b.id == j) refl
  where
    here_or_later :
        (t : Bool)
        → (b.id == j) ≡ t
        → settled net now
            (update_status c (now b) b.id (check_backend (net b) c.config b)).0
            j
            (find_id j bs)
          ≡ settled net now c j (if t then some b else find_id j bs)
    here_or_later true same =
        let gone : find_id j bs ≡ none = rw (← string_key.eq_of_same b.id j same) distinct.0 in
        ap (settled net now (update_status c (now b) b.id (check_backend (net b) c.config b)).0 j)
          {y = none} gone
        ∙ lookup-update_status net now c b j
        ∙ rw same
    here_or_later false other =
        settled_later net now c b j (find_id j bs) other (λ e. find_id-id j bs e)
