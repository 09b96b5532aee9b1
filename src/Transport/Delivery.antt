-- ===== src/Transport/Delivery.antt =====
-- src/replication/transport.rs: what a broadcast brings to the peers, and which peers stay known.
use edgeproxy.Prelude.{
  ℕ, ◌≡◌, ◌≢◌, refl, Bool, String, List, [], ◌∷◌, ◌++◌, none, if◌then◌else◌, ltb, sym, arith, ◌&&◌,
  lookup-insert, lookup-insert_self, string_key,
}
use mathlib.Core.List.{append_assoc}
use edgeproxy.Net.{SocketAddr}
use edgeproxy.Transport.{Message, Wire, max_message}
use edgeproxy.Transport.Service.{
  PeerConnection, Link, TransportService, TransportEvent, message_received, handle_stream, get_peer,
  connect, accept, shutdown, take_event_rx, handle_connection, peer_connected, peer_disconnected,
  peer_name,
}

-- A connection that takes a message.
abbrev pub takes : (PeerConnection → Link) → PeerConnection → Bool
takes link p = (link p).alive && (link p).opens && (link p).writes

-- What the receiver of a message of that many bytes reports.
abbrev pub reported : String → Message → ℕ → List TransportEvent
reported from m size = if ltb max_message size then [] else message_received from m ∷ []

-- The calls that change the service.
pub data Call : Type 0 where
  connecting : Bool → SocketAddr → String → Call
  accepting : SocketAddr → List (List ℕ) → Call
  taking stopping : Call

module _ (w : Wire) (display : SocketAddr → String) where
  unfoldable pub step : Call → TransportService → TransportService
  step (connecting connected addr id) s = (connect connected addr id s).0
  step (accepting addr streams) s = accept w display addr streams s
  step taking s = (take_event_rx s).0
  step stopping s = shutdown s

  unfoldable pub run : List Call → TransportService → TransportService
  run [] s = s
  run (c ∷ cs) s = run cs (step c s)

  step_keeps :
      (c : Call) (s : TransportService) (id : String)
      → get_peer s id ≢ none
      → get_peer (step c s) id ≢ none
  unfolding step get_peer connect accept take_event_rx shutdown
  step_keeps (connecting connected addr j) s id h =
      ground (arith, lookup-insert j id (record { node_id = j; addr = addr }) s.peers_map)
  step_keeps (accepting addr streams) s id h = ground (
    arith,
    lookup-insert (peer_name display addr) id
        (record { node_id = peer_name display addr; addr = addr }) s.peers_map,
  )
  step_keeps taking s id h = h
  step_keeps stopping s id h = h

  -- Through every history of connections made, connections accepted and served until they close,
  -- and shutdowns, a peer that is in the table stays in it.
  pub run_keeps :
      (cs : List Call) (s : TransportService) (id : String)
      → get_peer s id ≢ none
      → get_peer (run cs s) id ≢ none
  unfolding run
  run_keeps [] s id h = h
  run_keeps (c ∷ cs) s id h = run_keeps cs (step c s) id (step_keeps c s id h)

  closes :
      (id : String) (streams : List (List ℕ))
      → (before : List TransportEvent) × (handle_connection w id streams
          ≡ before ++ peer_disconnected id ∷ [])
  unfolding handle_connection
  closes id [] = ([], refl)
  closes id (bytes ∷ streams) =
      let (before, e) = closes id streams in
      (
        handle_stream w id bytes ++ before,
        rw e (sym (append_assoc (handle_stream w id bytes) before (peer_disconnected id ∷ []))),
      )

  accept-known :
      (addr : SocketAddr) (streams : List (List ℕ)) (s : TransportService)
      → get_peer (accept w display addr streams s) (peer_name display addr) ≢ none
  unfolding get_peer accept
  accept-known addr streams s = ground (
    arith,
    lookup-insert_self (peer_name display addr)
        (record { node_id = peer_name display addr; addr = addr }) s.peers_map,
  )

  -- A peer that connected to the node and whose connection has ended, which is the last thing that
  -- the service reports, is still in the table of peers, and stays there through every later history.
  pub accept-run-keeps :
      (addr : SocketAddr) (streams : List (List ℕ)) (cs : List Call) (s : TransportService)
      → let gone = accept w display addr streams s in
        ((before : List TransportEvent) × (gone.events
            ≡ before ++ peer_disconnected (peer_name display addr) ∷ []))
        × (get_peer (run cs gone) (peer_name display addr) ≢ none)
  unfolding accept
  accept-run-keeps addr streams cs s =
      let id = peer_name display addr in
      let (before, e) = closes id streams in
      (
        (
          (s.events ++ peer_connected id ∷ []) ++ before,
          rw e (
              sym (
                append_assoc (s.events ++ peer_connected id ∷ []) before
                  (peer_disconnected id ∷ []))),
        ),
        run_keeps cs (accept w display addr streams s) id (accept-known addr streams s),
      )
