-- ===== src/Transport/Examples.antt =====
-- Runs of the transport, and its theorems at concrete messages.
use edgeproxy.Prelude.{
  ℕ, ◌≡◌, refl, true, String, List, [], ◌∷◌, ◌++◌, none, some, if◌then◌else◌, ltb, length,
  string_key, arith, retain,
}
use edgeproxy.Net.{SocketAddr, localhost}
use edgeproxy.Changes.{ChangeSet}
use edgeproxy.Transport.{
  Message, Wire, frame, encode_message, read_stream, read_length, decode_length, read_exact,
  message_type_name, get_broadcast_seq, count_broadcast_changes, max_message,
}
use edgeproxy.Transport.Service.{
  PeerConnection, Link, TransportService, new_transport, broadcast, peers,
}
use edgeproxy.Transport.Sample.{one_message, one_message-laws, serialize-known}
use edgeproxy.Transport.Framing.{read_stream-encode_message}
use edgeproxy.Transport.Delivery.{takes}

abbrev empty_set : ChangeSet
empty_set = record { source = "n1"; seq = 4; changes = []; checksum = 0 }

abbrev news : Message
news = Message.broadcast empty_set

abbrev content : List ℕ
content = 7 ∷ 8 ∷ 9 ∷ []

abbrev wire : Wire
wire = one_message news content

news_name : message_type_name news ≡ "Broadcast"
unfolding message_type_name
news_name = refl

news_seq : (get_broadcast_seq news ≡ some 4) × (count_broadcast_changes news ≡ 0)
unfolding get_broadcast_seq count_broadcast_changes
news_seq = (refl, refl)

framed_news : frame (7 ∷ 8 ∷ 9 ∷ []) ≡ 0 ∷ 0 ∷ 0 ∷ 3 ∷ 7 ∷ 8 ∷ 9 ∷ []
unfolding frame
framed_news = refl

-- A stream that ends too early, and one that announces more than 10 MiB.
short_stream :
    (read_stream wire (0 ∷ 0 ∷ 0 ∷ 3 ∷ 7 ∷ 8 ∷ []) ≡ none)
    × (read_stream wire (1 ∷ 0 ∷ 0 ∷ 0 ∷ 7 ∷ 8 ∷ 9 ∷ []) ≡ none)
unfolding read_stream read_length decode_length read_exact
short_stream = (refl, refl)

encoded : encode_message wire news ≡ some (0 ∷ 0 ∷ 0 ∷ 3 ∷ 7 ∷ 8 ∷ 9 ∷ [])
unfolding encode_message frame
encoded = rw (serialize-known news content, encode_message)

read_stream-encode_message_example :
    read_stream wire ((0 ∷ 0 ∷ 0 ∷ 3 ∷ 7 ∷ 8 ∷ 9 ∷ []) ++ 5 ∷ [])
    ≡ (if ltb max_message (length content) then none else some news)
read_stream-encode_message_example =
    read_stream-encode_message wire (one_message-laws news content) news content
      (0 ∷ 0 ∷ 0 ∷ 3 ∷ 7 ∷ 8 ∷ 9 ∷ []) (5 ∷ []) (serialize-known news content) encoded (omega arith)

abbrev here_addr : SocketAddr
here_addr = record { ip = localhost; port = 4002 }

-- Peer b is connected and peer c has closed its connection.
abbrev links : PeerConnection → Link
links p = record { alive = string_key.same p.node_id "b"; opens = true; writes = true; answer = [] }

abbrev two_peers : TransportService
two_peers = record (new_transport "a") {
  peers_map =
      ("b", record { node_id = "b"; addr = here_addr })
      ∷ ("c", record { node_id = "c"; addr = here_addr })
      ∷ [];
}

reached : retain (takes links) (peers two_peers) ≡ record { node_id = "b"; addr = here_addr } ∷ []
unfolding peers
reached = refl

abbrev display : SocketAddr → String
display addr = "127.0.0.1:4002"
