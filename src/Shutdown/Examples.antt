-- ===== src/Shutdown/Examples.antt =====
-- Runs of the shutdown controller, and its theorems at concrete histories.
use edgeproxy.Prelude.{◌≡◌, ◌≢◌, refl, true, false, List, [], ◌∷◌, if◌then◌else◌, nat_beq, arith}
use edgeproxy.Shutdown.{
  ShutdownController, counted, registered, returned, new_controller, World, Happening, guards_one,
  drops_one, shuts, looks, registers, times_out, happen_all, happen, connection_started, shutdown,
  waits, look, register,
}
use edgeproxy.Shutdown.Draining.{is_called, controller-counts, drops, drains, missed}

abbrev fresh : World
fresh = record { controller = new_controller; guards = 0 }

-- Two connections, and a shutdown that waits for them.
abbrev busy_history : List Happening
busy_history = guards_one ∷ guards_one ∷ shuts ∷ looks ∷ registers ∷ []

abbrev busy : World
busy = record {
  controller = record {
    shutdown_initiated = true;
    active_connections = 2;
    signals_sent = 1;
    waiter = registered;
  };
  guards = 2;
}

busy_reached : happen_all busy_history fresh ≡ busy
unfolding happen_all happen connection_started shutdown waits look register
busy_reached = refl

controller-counts_example :
    let w = happen_all (guards_one ∷ shuts ∷ guards_one ∷ drops_one ∷ shuts ∷ []) fresh in
    (w.controller.active_connections ≡ w.guards)
    × (w.controller.signals_sent
        ≡ (if is_called (guards_one ∷ shuts ∷ guards_one ∷ drops_one ∷ shuts ∷ []) then 1 else 0))
controller-counts_example =
    controller-counts (guards_one ∷ shuts ∷ guards_one ∷ drops_one ∷ shuts ∷ []) (omega arith)

drains_example :
    (happen_all (drops 2) busy).controller.waiter
    ≡ (if nat_beq 2 2 then returned true else registered)
drains_example = drains 2 2 busy refl refl refl refl (omega arith) (omega arith) (omega arith)

abbrev last_one : ShutdownController
last_one = record {
  shutdown_initiated = true;
  active_connections = 1;
  signals_sent = 1;
  waiter = counted;
}

-- The one connection ends between the look at the count and the registration.
late_history :
    (happen_all (guards_one ∷ shuts ∷ looks ∷ []) fresh)
    ≡ record { controller = record last_one { waiter = counted }; guards = 1 }
unfolding happen_all happen connection_started shutdown waits look
late_history = refl

missed_example :
    let looked : World = record { controller = record last_one { waiter = counted }; guards = 1 } in
    let waiting : World = record {
      controller = record last_one { waiter = registered; shutdown_initiated = false };
      guards = 1;
    } in
    ((happen_all (drops_one ∷ registers ∷ shuts ∷ times_out ∷ []) looked).controller.waiter
      ≢ returned true)
    × ((happen_all (drops_one ∷ shuts ∷ shuts ∷ times_out ∷ []) waiting).controller.waiter
        ≢ returned true)
missed_example = missed (shuts ∷ times_out ∷ []) last_one refl ((λ e. cc e), ((λ e. cc e), tt))
