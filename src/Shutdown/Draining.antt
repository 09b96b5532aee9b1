-- ===== src/Shutdown/Draining.antt =====
-- src/infrastructure/shutdown.rs: the count of connections, and when a waiter learns that they have
-- drained.
use edgeproxy.Prelude.{
  ℕ, zero, suc, ◌+◌, ◌<◌, ◌≤◌, ◌≡◌, ◌≢◌, refl, true, false, List, [], ◌∷◌, if◌then◌else◌, length,
  u64_mod, arith, nat_beq, All, ◌⊎◌, inl, inr, ◌∙◌, ap, Bool, ◌||◌,
}
use edgeproxy.Shutdown.{
  counted, registered, returned, ShutdownController, new_controller, World, Happening, guards_one,
  drops_one, shuts, looks, registers, times_out, happen, happen_all, drop_guard, connection_ended,
  connection_started, shutdown, waits, look, register, time_out,
}

-- The count is the number of guards alive, and the signal is sent once, by the first shutdown.
abbrev Counts : World → Type 0
Counts w =
    (w.controller.active_connections ≡ w.guards)
    × (w.controller.signals_sent ≡ (if w.controller.shutdown_initiated then 1 else 0))

drop_guard-Counts :
    (n k : ℕ) (w : World)
    → w.guards ≡ k
    → k < n
    → suc n < u64_mod
    → Counts w
    → Counts (drop_guard k w) × ((drop_guard k w).guards < suc n)
unfolding drop_guard connection_ended
drop_guard-Counts n zero w e few h c = (c, omega arith)
drop_guard-Counts n (suc k) w e few h c = ground arith

happen-Counts :
    (n : ℕ) (e : Happening) (w : World)
    → w.guards < n
    → suc n < u64_mod
    → Counts w
    → Counts (happen e w) × ((happen e w).guards < suc n)
unfolding happen connection_started drop_guard connection_ended shutdown waits look register
    time_out
happen-Counts n guards_one w few h c = ground arith
happen-Counts n drops_one w few h c = drop_guard-Counts n w.guards w refl few h c
happen-Counts n shuts w few h c = ground arith
happen-Counts n looks w few h c = ground arith
happen-Counts n registers w few h c = ground arith
happen-Counts n times_out w few h c = ground arith

happen_all-Counts :
    (n : ℕ) (es : List Happening) (w : World)
    → w.guards < n
    → n + length es < u64_mod
    → Counts w
    → Counts (happen_all es w)
unfolding happen_all
happen_all-Counts n [] w few h c = c
happen_all-Counts n (e ∷ es) w few h c =
    let (d, more) = happen-Counts n e w few (omega arith) c in
    happen_all-Counts (suc n) es (happen e w) more (omega arith) d

-- Whether `shutdown` is among the steps.
abbrev pub is_called : List Happening → Bool
is_called [] = false
is_called (shuts ∷ es) = true
is_called (guards_one ∷ es) = is_called es
is_called (drops_one ∷ es) = is_called es
is_called (looks ∷ es) = is_called es
is_called (registers ∷ es) = is_called es
is_called (times_out ∷ es) = is_called es

drop_guard-initiated :
    (k : ℕ) (w : World)
    → (drop_guard k w).controller.shutdown_initiated ≡ w.controller.shutdown_initiated
unfolding drop_guard connection_ended
drop_guard-initiated zero w = refl
drop_guard-initiated (suc k) w = ground arith

happen_all-initiated :
    (es : List Happening) (w : World)
    → (happen_all es w).controller.shutdown_initiated
      ≡ (w.controller.shutdown_initiated || is_called es)
unfolding happen_all happen connection_started shutdown waits look register time_out
happen_all-initiated [] w = ground arith
happen_all-initiated (guards_one ∷ es) w = happen_all-initiated es (happen guards_one w)
happen_all-initiated (drops_one ∷ es) w =
    ground (arith, happen_all-initiated es (drop_guard w.guards w), drop_guard-initiated w.guards w)
happen_all-initiated (shuts ∷ es) w = ground (arith, happen_all-initiated es (happen shuts w))
happen_all-initiated (looks ∷ es) w = ground (arith, happen_all-initiated es (happen looks w))
happen_all-initiated (registers ∷ es) w =
    ground (arith, happen_all-initiated es (happen registers w))
happen_all-initiated (times_out ∷ es) w =
    ground (arith, happen_all-initiated es (happen times_out w))

-- Through every history of fewer than 2^64 - 1 steps of a new controller, the count of active
-- connections is the number of guards that are alive, and the signal to shut down is sent once if
-- shutdown was called among the steps, however often, and else never.
pub controller-counts :
    (es : List Happening)
    → suc (length es) < u64_mod
    → let w = happen_all es (record { controller = new_controller; guards = 0 }) in
      (w.controller.active_connections ≡ w.guards)
      × (w.controller.signals_sent ≡ (if is_called es then 1 else 0))
controller-counts es h =
    let start : World = record { controller = new_controller; guards = 0 } in
    let (guarded, signalled) =
      happen_all-Counts 1 es start (omega arith) (omega arith) (refl, refl) in
    (guarded, signalled ∙ ap (λ (b : Bool). if b then 1 else 0) (happen_all-initiated es start))

abbrev pub drops : ℕ → List Happening
drops zero = []
drops (suc k) = drops_one ∷ drops k

last_ended :
    (n : ℕ) (c : ShutdownController)
    → c.waiter ≡ registered
    → c.shutdown_initiated ≡ true
    → c.active_connections ≡ suc n
    → suc n < u64_mod
    → ((connection_ended c).waiter ≡ (if nat_beq n 0 then returned true else registered))
      × ((connection_ended c).shutdown_initiated ≡ true)
      × ((connection_ended c).active_connections ≡ n)
unfolding connection_ended
last_ended n c r i a small = ground arith

-- A waiter that is registered after the shutdown learns of the drain when the last of the guards
-- alive is dropped, and not before: then `wait_for_drain` returns true. There are fewer than 2^64.
pub drains :
    (k n : ℕ) (w : World)
    → w.controller.waiter ≡ registered
    → w.controller.shutdown_initiated ≡ true
    → w.controller.active_connections ≡ n
    → w.guards ≡ n
    → 0 < n
    → n < u64_mod
    → k ≤ n
    → (happen_all (drops k) w).controller.waiter
      ≡ (if nat_beq k n then returned true else registered)
unfolding happen_all happen drop_guard
drains zero n w r i a g positive small le = ground arith
drains (suc k) zero w r i a g positive small le = absurd (omega arith)
drains (suc zero) (suc zero) w r i a g positive small le =
    rw g (last_ended 0 w.controller r i a small).0
drains (suc (suc k)) (suc zero) w r i a g positive small le = absurd (omega arith)
drains (suc k) (suc (suc n)) w r i a g positive small le =
    let (waits_on, still, left) = last_ended (suc n) w.controller r i a small in
    rw g (
      drains k (suc n) (record { controller = connection_ended w.controller; guards = suc n })
        (ground arith) still left refl (omega arith) (omega arith) (omega arith)
      ∙ ground arith)

-- The waiter is there or has timed out, and no guard is alive.
abbrev Missed : World → Type 0
Missed w =
    ((w.controller.waiter ≡ registered) ⊎ (w.controller.waiter ≡ returned false)) × (w.guards ≡ 0)

happen-Missed : (e : Happening) (w : World) → e ≢ guards_one → Missed w → Missed (happen e w)
unfolding happen drop_guard shutdown waits look register time_out
happen-Missed guards_one w starts m = absurd (starts refl)
happen-Missed drops_one w starts m = rw m.1 (m.0, refl)
happen-Missed shuts w starts m = ground arith
happen-Missed looks w starts m = ground arith
happen-Missed registers w starts m = ground arith
happen-Missed times_out w starts m = ground arith

happen_all-Missed :
    (es : List Happening) (w : World)
    → All (λ e. e ≢ guards_one) es
    → Missed w
    → Missed (happen_all es w)
unfolding happen_all
happen_all-Missed [] w none_starts m = m
happen_all-Missed (e ∷ es) w none_starts m =
    happen_all-Missed es (happen e w) none_starts.1 (happen-Missed e w none_starts.0 m)

still_waits :
    (es : List Happening) (w : World)
    → w.controller.waiter ≡ registered
    → w.guards ≡ 0
    → All (λ e. e ≢ guards_one) es
    → (happen_all es w).controller.waiter ≢ returned true
still_waits es w r g none_starts told = elim (happen_all-Missed es w none_starts (inl r, g)).0 [
  | inl waits_on ↦ cc
  | inr timed_out ↦ cc
]

-- A waiter misses the end of the last connection in two ways: if it has seen the connection in the
-- count and makes its future only after the end, and if the connection ends while it waits but before
-- the shutdown. Unless a connection starts again, whatever else happens, `wait_for_drain` does not
-- return true then.
pub missed :
    (es : List Happening) (c : ShutdownController)
    → c.active_connections ≡ 1
    → All (λ e. e ≢ guards_one) es
    → let looked : World = record { controller = record c { waiter = counted }; guards = 1 } in
      let waiting : World = record {
        controller = record c { waiter = registered; shutdown_initiated = false };
        guards = 1;
      } in
      ((happen_all (drops_one ∷ registers ∷ es) looked).controller.waiter ≢ returned true)
      × ((happen_all (drops_one ∷ shuts ∷ es) waiting).controller.waiter ≢ returned true)
unfolding happen_all happen drop_guard connection_ended waits register shutdown
missed es c one none_starts = (
  still_waits es _ (ground (arith, one)) refl none_starts,
  still_waits es _ (ground (arith, one)) refl none_starts,
)
