-- ===== src/Peers/Traffic.antt =====
-- The life of a peer server, event by event: what threads and libuv do with it through the operations
-- of Pulsar/src/PeerServersManager.cpp, in any order that libuv can produce.
pub mod Safety
pub mod Draining
use pulsar_server_framework.Prelude.{
  ℕ, ◌+◌, ◌<◌, ◌≡◌, ◌≢◌, List, [], ◌∷◌, ◌++◌, Option, some, none, Bool, true, false, if◌then◌else◌,
  ◌>>=◌, length,
}
use pulsar_server_framework.ByteOrder.{ByteOrder}
use pulsar_server_framework.Delivery.{Memory, not_empty}
use pulsar_server_framework.Protocol.Parser.{Registry}
use pulsar_server_framework.Protocol.Response.{Response}
use pulsar_server_framework.Peers.{
  Outcome, accepted, other_error, response_buffer_size, Forwarding, PeerServer, PeerManager,
  disconnect_server, on_server_closed, after_getaddrinfo, after_connect, World,
}
use pulsar_server_framework.Peers.Sending.{add_to_server_queue, after_forwarding, send_to_server}
use pulsar_server_framework.Peers.Sending.Forwards.{IsForwardable}
use pulsar_server_framework.Peers.Reading.{Period, on_response_read}
use pulsar_server_framework.Peers.Reading.Responses.{IsCalm}

-- An addition, a run of SendResponses, the callbacks of uv_write, uv_getaddrinfo, uv_tcp_connect and
-- uv_close, the bytes or the error that were read, and DisconnectAndCloseAllConnections.
pub data PeerEvent : Type 0 where
  add_forwarded : Memory → Response → PeerEvent
  send_forwarded : World → PeerEvent
  forwarded_back : Bool → ℕ → PeerEvent
  address_found : Bool → Outcome → PeerEvent
  connection_made : Bool → Bool → Outcome → PeerEvent
  handle_closed : ℕ → PeerEvent
  bytes_read : (ℕ → Period) → Option (List ℕ) → PeerEvent
  close_all : PeerEvent

pub is_underway : List Forwarding → Bool
is_underway [] = false
is_underway (f ∷ fs) = true

-- What an event does, with the number of responses that it adds: libuv answers only what it was asked.
pub peer_step :
    ⦃o : ByteOrder⦄
    → ℕ
    → Registry
    → PeerEvent
    → PeerManager
    → PeerServer
    → Option (ℕ × PeerManager × PeerServer)
peer_step max_pending processors (add_forwarded mem r) m p =
    let a = add_to_server_queue max_pending mem m.response_direction_flag r p in
    some (if a.added then 1 else 0, m, a.server)
peer_step max_pending processors (send_forwarded w) m p =
    send_to_server w m p >>= λ (m', p'). some (0, m', p')
peer_step max_pending processors (forwarded_back write_ok now) m p =
    let done = after_forwarding false write_ok now m p >>= λ (m', p'). some (0, m', p') in
    if is_underway p.responses_being_sent then done else some (0, m, p)
peer_step max_pending processors (address_found status_ok uv_tcp_connect) m p =
    let (m', p') = after_getaddrinfo status_ok uv_tcp_connect m p in
    if p.is_resolving then some (0, m', p') else some (0, m, p)
peer_step max_pending processors (connection_made status_ok setsockopt_ok uv_read_start) m p =
    let done =
      after_connect status_ok setsockopt_ok uv_read_start m p >>= λ (m', p'). some (0, m', p') in
    if p.is_connect_pending then done else some (0, m, p)
peer_step max_pending processors (handle_closed now) m p =
    let (m', p') = on_server_closed now m p in
    if p.is_close_pending then some (0, m', p') else some (0, m, p)
peer_step max_pending processors (bytes_read period nread) m p =
    let done = on_response_read period processors nread m p >>= λ (m', p'). some (0, m', p') in
    if p.is_reading then done else some (0, m, p)
peer_step max_pending processors close_all m p =
    disconnect_server true m p >>= λ (m', p'). some (0, m', p')

-- The events one after the other, with the number of responses that were added.
pub peer_run :
    ⦃o : ByteOrder⦄
    → ℕ
    → Registry
    → List PeerEvent
    → PeerManager
    → PeerServer
    → Option (ℕ × PeerManager × PeerServer)
peer_run max_pending processors [] m p = some (0, m, p)
peer_run max_pending processors (e ∷ es) m p =
    peer_step max_pending processors e m p >>= λ (n, m1, p1).
    peer_run max_pending processors es m1 p1 >>= λ (i, m2, p2). some (n + i, m2, p2)

-- A response is added only for the server's address, as AddResponseToQueue finds the server by it. libuv answers -1 where uv_getaddrinfo fails and takes every uv_tcp_connect; the socket's option can be
-- set; while bytes are read, writes are accepted; and what is read does not fill the buffer. Whether
-- names are found, connections are made, writes succeed and memory lasts is open.
abbrev pub IsRegularFor : ℕ → PeerEvent → PeerServer → Type 0
IsRegularFor address (add_forwarded mem r) p = IsForwardable address r
IsRegularFor address (send_forwarded w) p = w.uv_getaddrinfo ≢ other_error
IsRegularFor address (forwarded_back write_ok now) p = Unit
IsRegularFor address (address_found status_ok uv_tcp_connect) p = uv_tcp_connect ≡ accepted
IsRegularFor address (connection_made status_ok setsockopt_ok uv_read_start) p =
    setsockopt_ok ≡ true
IsRegularFor address (handle_closed now) p = Unit
IsRegularFor address (bytes_read period none) p = Unit
IsRegularFor address (bytes_read period (some b)) p =
    (length p.response_bytes + length b < response_buffer_size) × ((i : ℕ) → IsCalm (period i))
IsRegularFor address close_all p = Unit

-- Each event is regular in the state in which it comes.
abbrev pub IsRegularRun :
    ⦃o : ByteOrder⦄ → ℕ → ℕ → Registry → List PeerEvent → PeerManager → PeerServer → Type 0
IsRegularRun address max_pending processors [] m p = Unit
IsRegularRun address max_pending processors (e ∷ es) m p =
    IsRegularFor address e p
    × ((n : ℕ) (m' : PeerManager) (p' : PeerServer)
        → peer_step max_pending processors e m p ≡ some (n, m', p')
        → IsRegularRun address max_pending processors es m' p')
