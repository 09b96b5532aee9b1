-- ===== src/Shutdown.antt =====
-- src/infrastructure/shutdown.rs: the controller of a graceful shutdown. `fetch_add`, `fetch_sub` and
-- `swap` are one step each; `wait_for_drain` is the steps of a waiter, which others may come between:
-- it looks at the count, it makes the future of the notification, and it is notified or times out.
pub mod Draining
mod Examples
use edgeproxy.Prelude.{
  ℕ, zero, suc, ◌+◌, Bool, true, false, List, [], ◌∷◌, if◌then◌else◌, nat_beq, ◌&&◌, inc64, dec64,
}

-- `notify_waiters` reaches the futures that are there and leaves nothing for later ones.
pub data Waiter : Type 0 where
  idle : Waiter
  counted : Waiter
  registered : Waiter
  returned : Bool → Waiter

pub record ShutdownController : Type 0 where
  pub shutdown_initiated : Bool
  pub active_connections : ℕ
  pub signals_sent : ℕ
  pub waiter : Waiter

abbrev pub new_controller : ShutdownController
new_controller = record {
  shutdown_initiated = false;
  active_connections = 0;
  signals_sent = 0;
  waiter = idle;
}

unfoldable pub shutdown : ShutdownController → ShutdownController
shutdown c =
    if c.shutdown_initiated
    then c
    else record c { shutdown_initiated = true; signals_sent = c.signals_sent + 1 }

unfoldable pub connection_started : ShutdownController → ShutdownController
connection_started c = record c { active_connections = inc64 c.active_connections }

abbrev pub notified : Waiter → Waiter
notified registered = returned true
notified idle = idle
notified counted = counted
notified (returned b) = returned b

unfoldable pub connection_ended : ShutdownController → ShutdownController
connection_ended c =
    let d = record c { active_connections = dec64 c.active_connections } in
    if nat_beq c.active_connections 1 && c.shutdown_initiated
    then record d { waiter = notified c.waiter }
    else d

-- The first line of `wait_for_drain`.
unfoldable pub look : ShutdownController → ShutdownController
look c = record c { waiter = if nat_beq c.active_connections 0 then returned true else counted }

-- The `select!` of `wait_for_drain` makes the future of the notification.
unfoldable pub register : ShutdownController → ShutdownController
register c = record c { waiter = registered }

-- The timeout passes before a notification comes.
unfoldable pub time_out : ShutdownController → ShutdownController
time_out c = record c { waiter = returned false }

-- What happens around a controller; `guards` are the guards that are alive, which start and end a
-- connection each. A step that its waiter is not at changes nothing.
pub data Happening : Type 0 where
  guards_one drops_one shuts looks registers times_out : Happening

pub record World : Type 0 where
  pub controller : ShutdownController
  pub guards : ℕ

unfoldable pub waits : Happening → ShutdownController → ShutdownController
unfolding look register time_out
waits looks c = elim c.waiter [ idle ↦ look c | _ ↦ c ]
waits registers c = elim c.waiter [ counted ↦ register c | _ ↦ c ]
waits times_out c = elim c.waiter [ registered ↦ time_out c | _ ↦ c ]
waits _ c = c

-- A guard that is dropped was alive.
unfoldable pub drop_guard : ℕ → World → World
unfolding connection_ended
drop_guard zero w = w
drop_guard (suc n) w = record { controller = connection_ended w.controller; guards = n }

unfoldable pub happen : Happening → World → World
unfolding waits shutdown connection_started
happen guards_one w = record { controller = connection_started w.controller; guards = w.guards + 1 }
happen drops_one w = drop_guard w.guards w
happen shuts w = record w { controller = shutdown w.controller }
happen e w = record w { controller = waits e w.controller }

unfoldable pub happen_all : List Happening → World → World
happen_all [] w = w
happen_all (e ∷ es) w = happen_all es (happen e w)
