-- ===== src/Transport/Service.antt =====
-- src/replication/transport.rs: the connections to peers and the service that keeps them. QUIC is
-- what a connection answers during a call, the record Link; an error is none. Channels of events are
-- the lists of what was sent. `display` prints an address as `Display` does.
use Prim.Native.String.{◌++◌ as append}
use edgeproxy.Prelude.{
  ℕ, ◌+◌, Bool, true, false, String, List, [], ◌∷◌, ◌++◌, Option, none, some, if◌then◌else◌, lookup,
  insert, string_key, map, ◌&&◌,
}
use edgeproxy.Net.{SocketAddr}
use edgeproxy.Changes.{ChangeSet}
use edgeproxy.Transport.{Message, Wire, frame, read_length, read_data, read_stream}

pub record PeerConnection : Type 0 where
  pub node_id : String
  pub addr : SocketAddr

-- Whether the connection is alive, whether it opens a stream and takes all that is written, and what
-- the peer answers on a bidirectional stream.
pub record Link : Type 0 where
  pub alive : Bool
  pub opens : Bool
  pub writes : Bool
  pub answer : List ℕ

pub data TransportEvent : Type 0 where
  message_received : String → Message → TransportEvent
  peer_connected peer_disconnected : String → TransportEvent

module _ (w : Wire) (l : Link) where
  -- The bytes of the stream that was sent; none is an error.
  unfoldable pub send : Message → Option (List ℕ)
  send m =
      if l.opens
      then elim (w.serialize m) as (λ _. Option (List ℕ)) [
        | none ↦ none
        | some bytes ↦ if l.writes then some (frame bytes) else none
      ]
      else none

  unfoldable pub request : Message → Option Message
  unfolding send
  request m = elim (send m) [
    | none ↦ none
    | some _ ↦ elim (read_length l.answer) [ none ↦ none | some prefix ↦ read_data w prefix ]
  ]

  unfoldable pub is_alive : Bool
  is_alive = l.alive

pub record TransportService : Type 0 where
  pub local_id : String
  pub started : Bool
  pub peers_map : List (String × PeerConnection)
  pub events : List TransportEvent
  pub receiver_taken : Bool
  pub shutting_down : Bool

unfoldable pub new_transport : String → TransportService
new_transport node_id = record {
  local_id = node_id;
  started = false;
  peers_map = [];
  events = [];
  receiver_taken = false;
  shutting_down = false;
}

-- Whether the caller got the receiver.
unfoldable pub take_event_rx : TransportService → TransportService × Bool
take_event_rx s = (record s { receiver_taken = true }, if s.receiver_taken then false else true)

unfoldable pub peers : TransportService → List PeerConnection
peers s = map (λ e. e.1) s.peers_map

unfoldable pub get_peer : TransportService → String → Option PeerConnection
get_peer s node_id = lookup node_id s.peers_map

unfoldable pub shutdown : TransportService → TransportService
shutdown s = record s { shutting_down = true }

unfoldable pub is_shutdown : TransportService → Bool
is_shutdown s = s.shutting_down

-- A peer is entered in the table and reported.
unfoldable pub enter : String → PeerConnection → TransportService → TransportService
enter node_id peer s = record s {
  peers_map = insert node_id peer s.peers_map;
  events = s.events ++ peer_connected node_id ∷ [];
}

-- `connected` is whether QUIC made the connection.
unfoldable pub connect :
    Bool → SocketAddr → String → TransportService → TransportService × Option PeerConnection
unfolding enter
connect connected addr node_id s =
    let peer : PeerConnection = record { node_id = node_id; addr = addr } in
    if s.started && connected then (enter node_id peer s, some peer) else (s, none)

-- `NodeId::new(format!("peer-{}", remote_addr))`.
unfoldable pub peer_name : (SocketAddr → String) → SocketAddr → String
peer_name display addr = append "peer-" (display addr)

module _ (w : Wire) where
  -- The loop of `broadcast`: the number of peers counted as sent to, and the streams sent to them.
  unfoldable pub send_each :
      (PeerConnection → Link) → Message → List PeerConnection → ℕ × List (PeerConnection × List ℕ)
  unfolding send
  send_each link m [] = (0, [])
  send_each link m (p ∷ ps) =
      let rest = send_each link m ps in
      let sent = if is_alive w (link p) then send w (link p) m else none in
      elim sent [ none ↦ rest | some bytes ↦ (rest.0 + 1, (p, bytes) ∷ rest.1) ]

  unfoldable pub broadcast :
      (PeerConnection → Link) → Message → TransportService → ℕ × List (PeerConnection × List ℕ)
  broadcast link m s = send_each link m (peers s)

  unfoldable pub broadcast_changeset :
      (PeerConnection → Link) → ChangeSet → TransportService → ℕ × List (PeerConnection × List ℕ)
  broadcast_changeset link c s = broadcast link (Message.broadcast c) s

  -- What the task of a stream sends to the channel of events.
  unfoldable pub handle_stream : String → List ℕ → List TransportEvent
  handle_stream from bytes = elim (read_stream w bytes) [
    | none ↦ []
    | some m ↦ message_received from m ∷ []
  ]

  -- The streams that a connection accepts until it is closed or fails.
  unfoldable pub handle_connection : String → List (List ℕ) → List TransportEvent
  handle_connection from [] = peer_disconnected from ∷ []
  handle_connection from (bytes ∷ streams) =
      handle_stream from bytes ++ handle_connection from streams

  -- The task of an incoming connection.
  unfoldable pub accept :
      (SocketAddr → String) → SocketAddr → List (List ℕ) → TransportService → TransportService
  unfolding enter
  accept display addr streams s =
      let id = peer_name display addr in
      let s' = enter id (record { node_id = id; addr = addr }) s in
      record s' { events = s'.events ++ handle_connection id streams }
