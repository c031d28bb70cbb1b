-- ===== src/Peers.antt =====
-- The connections to other servers: `stPeerServer` and the part of `PeerServersManager` that connects,
-- closes and counts, of Pulsar/include/PeerServersManager.h and Pulsar/src/PeerServersManager.cpp.
-- `none` is a failed assertion, or a call of uv_close on a handle that is closing, which libuv asserts
-- not to get.
pub mod Sending
pub mod States
pub mod Callbacks
pub mod Phases
pub mod Traffic
pub mod Reading
use pulsar_server_framework.Prelude.{
  ℕ, ◌+◌, ◌-◌, ◌*◌, ◌%◌, ◌^◌, List, [], ◌∷◌, Option, none, some, Bool, true, false, not, ◌||◌, ltb,
  leb, ◌==◌, if◌then◌else◌, ◌>>=◌,
}
use pulsar_server_framework.Protocol.Constants.{header_size, uninitialized_version}
use pulsar_server_framework.Protocol.Response.{Response}

-- A C int as its 32-bit pattern.
abbrev pub increased : ℕ → ℕ
increased n = (n + 1) % 2 ^ 32

abbrev pub decreased : ℕ → ℕ
decreased n = (n + (2 ^ 32 - 1)) % 2 ^ 32

-- `n < 1`, read as an int.
pub less_than_one : ℕ → Bool
less_than_one n = n == 0 || leb (2 ^ 31) n

-- The return codes of the server pool: CONNECTION_CONNECTING to CONNECTION_OVERFLOWED.
pub data Status : Type 0 where
  connecting connected disconnecting uninitiated disconnected : Status
  connecting_timed_out overflowed : Status

abbrev pub retry_connection_after : ℕ
retry_connection_after = 30

abbrev pub wait_for_connection : ℕ
wait_for_connection = 150

-- sizeof (m_response_buffer)
abbrev pub response_buffer_size : ℕ
response_buffer_size = 1024 * (header_size + 1)

-- A response that is being sent, with its ForwardError (`none` is 0).
pub record Forwarding : Type 0 where
  pub response : Response
  pub forward_error : Option Status

pub record PeerServer : Type 0 where
  pub ipv4_address : ℕ
  pub status : Status
  -- m_connection is not NULL, and libuv reads from it.
  pub has_connection : Bool
  pub is_reading : Bool
  -- The calls of uv_getaddrinfo, uv_tcp_connect and uv_close that libuv has not answered.
  pub is_resolving : Bool
  pub is_connect_pending : Bool
  pub is_close_pending : Bool
  pub responses_forwarded : ℕ
  pub overflowed_time : ℕ
  pub disconnected_time : ℕ
  pub connecting_time : ℕ
  -- The bytes below m_ResponseBufferIndex.
  pub response_bytes : List ℕ
  pub version : ℕ
  -- The two queues of responses, oldest first: the head is the back of the deque.
  pub responses_queue1 : List Response
  pub responses_queue2 : List Response
  pub responses_being_sent : List Forwarding
  -- This server is in m_RecevingServersSet1, and in m_RecevingServersSet2.
  pub in_set1 : Bool
  pub in_set2 : Bool

-- Construct
unfoldable pub construct : ℕ → PeerServer
construct server_ipv4_address = record {
  ipv4_address = server_ipv4_address;
  status = uninitiated;
  has_connection = false;
  is_reading = false;
  is_resolving = false;
  is_connect_pending = false;
  is_close_pending = false;
  responses_forwarded = 0;
  overflowed_time = 0;
  disconnected_time = 0;
  connecting_time = 0;
  response_bytes = [];
  version = uninitialized_version;
  responses_queue1 = [];
  responses_queue2 = [];
  responses_being_sent = [];
  in_set1 = false;
  in_set2 = false;
}

-- The counters of ServerStat that the peer servers' operations change.
pub record ForwardStat : Type 0 where
  pub responses_forwarded : ℕ
  pub responses_failed_to_forward : ℕ
  pub forward_error_connecting_timedout : ℕ
  pub forward_error_overflowed : ℕ
  pub forward_error_disconnecting : ℕ
  pub forward_error_disconnected : ℕ
  pub forward_error_writing_server : ℕ
  pub responses_sent : ℕ
  pub total_response_bytes_sent : ℕ
  pub responses_being_sent_count : ℕ
  pub memory_allocation_exceptions : ℕ

-- What all peer servers share.
pub record PeerManager : Type 0 where
  pub servers_connected : ℕ
  pub servers_connecting : ℕ
  pub servers_closing : ℕ
  pub response_direction_flag : Bool
  pub stat : ForwardStat

unfoldable pub initial_manager : ForwardStat → PeerManager
initial_manager t = record {
  servers_connected = 0;
  servers_connecting = 0;
  servers_closing = 0;
  response_direction_flag = false;
  stat = t;
}

-- What a call of libuv returns. The code compares some results with -1, others with 0.
pub data Outcome : Type 0 where
  accepted minus_one other_error : Outcome

pub is_connected : Status → Bool
is_connected connected = true
is_connected connecting = false
is_connected disconnecting = false
is_connected uninitiated = false
is_connected disconnected = false
is_connected connecting_timed_out = false
is_connected overflowed = false

-- The status with which a server can be disconnected.
pub can_disconnect : Status → Bool
can_disconnect connected = true
can_disconnect overflowed = true
can_disconnect connecting = true
can_disconnect connecting_timed_out = true
can_disconnect disconnecting = false
can_disconnect uninitiated = false
can_disconnect disconnected = false

-- DisconnectServer
pub disconnect_server : Bool → PeerManager → PeerServer → Option (PeerManager × PeerServer)
disconnect_server reduce_connected_servers_count m p =
    if not p.has_connection || not (can_disconnect p.status)
    then some (m, p)
    else if p.is_close_pending
    then none
    else some (
      record m {
        servers_connected =
            if reduce_connected_servers_count
            then decreased m.servers_connected
            else m.servers_connected;
        servers_closing = increased m.servers_closing;
      },
      record p { status = disconnecting; is_reading = false; is_close_pending = true },
    )

-- on_server_closed
pub on_server_closed : ℕ → PeerManager → PeerServer → PeerManager × PeerServer
on_server_closed now m p = (
  record m { servers_closing = decreased m.servers_closing },
  record p {
    status = disconnected;
    disconnected_time = now;
    responses_forwarded = 0;
    response_bytes = [];
    has_connection = false;
    is_close_pending = false;
  },
)

-- uv_getaddrinfo: only -1 is taken for a failure.
pub get_address : Outcome → PeerServer → PeerServer
get_address accepted p = record p { is_resolving = true }
get_address minus_one p = record p { status = disconnected }
get_address other_error p = p

-- InitiateConnection
pub initiate_connection : Bool → Outcome → ℕ → PeerServer → PeerServer
initiate_connection new_fails uv_getaddrinfo now p =
    let c : PeerServer = record p { status = connecting; connecting_time = now } in
    if new_fails then record c { status = disconnected } else get_address uv_getaddrinfo c

-- uv_tcp_connect: the counter is increased before the result is looked at.
pub connect : Outcome → PeerManager → PeerServer → PeerManager × PeerServer
connect uv_tcp_connect m p =
    let c : PeerManager = record m { servers_connecting = increased m.servers_connecting } in
    elim uv_tcp_connect [
      | accepted ↦ (c, record p { is_connect_pending = true })
      | minus_one ↦ (c, record p { status = disconnected })
      | other_error ↦ (c, p)
    ]

-- after_getaddrinfo, with the result of uv_tcp_connect.
pub after_getaddrinfo : Bool → Outcome → PeerManager → PeerServer → PeerManager × PeerServer
after_getaddrinfo status_ok uv_tcp_connect m p =
    if status_ok
    then connect uv_tcp_connect m (record p { is_resolving = false })
    else (m, record p { is_resolving = false; status = disconnected })

-- uv_read_start: only -1 is taken for a failure.
pub start_reading : Outcome → PeerManager → PeerServer → Option (PeerManager × PeerServer)
start_reading accepted m p = some (m, record p { is_reading = true })
start_reading minus_one m p = disconnect_server true m p
start_reading other_error m p = some (m, p)

-- after_connect, with the results of setsockopt and uv_read_start.
pub after_connect :
    Bool → Bool → Outcome → PeerManager → PeerServer → Option (PeerManager × PeerServer)
after_connect status_ok setsockopt_ok uv_read_start m p =
    let p' : PeerServer = record p { has_connection = true; is_connect_pending = false } in
    let m' : PeerManager = record m { servers_connecting = decreased m.servers_connecting } in
    let c : PeerServer = record p' { status = connected } in
    if not status_ok
    then disconnect_server false m' p'
    else if not setsockopt_ok
    then some (m', c)
    else start_reading uv_read_start
        (record m' { servers_connected = increased m'.servers_connected }) c

-- DisconnectAndCloseAllConnections: the loop over the map.
pub disconnect_and_close_all_connections :
    PeerManager → List PeerServer → Option (PeerManager × List PeerServer)
disconnect_and_close_all_connections m [] = some (m, [])
disconnect_and_close_all_connections m (p ∷ ps) = disconnect_server true m p >>= λ (m1, p').
    disconnect_and_close_all_connections m1 ps >>= λ (m2, ps'). some (m2, p' ∷ ps')

-- What GetServerConnection returns, with the server that it may have changed.
pub record Connection : Type 0 where
  pub conn_status : Status
  pub manager : PeerManager
  pub server : PeerServer

-- What libuv and the system answer while responses are sent.
pub record World : Type 0 where
  pub now : ℕ
  pub new_fails : Bool
  pub uv_getaddrinfo : Outcome
  pub reserve_fails : Bool
  pub uv_write_ok : Bool

pub initiated : World → PeerManager → PeerServer → Connection
initiated w m p =
    let p' = initiate_connection w.new_fails w.uv_getaddrinfo w.now p in
    record { conn_status = p'.status; manager = m; server = p' }

pub same : Status → PeerManager → PeerServer → Connection
same s m p = record { conn_status = s; manager = m; server = p }

-- The switch of GetServerConnection. ConnectingTime and DisconnectedTime are in the past.
pub connection_of : Status → World → PeerManager → PeerServer → Option Connection
connection_of uninitiated w m p = some (initiated w m p)
connection_of connecting w m p =
    if ltb wait_for_connection (w.now - p.connecting_time)
    then some (same connecting_timed_out m p)
    else some (same connecting m p)
connection_of connected w m p = some (same connected m p)
connection_of overflowed w m p = none
connection_of disconnecting w m p = some (same disconnecting m p)
connection_of disconnected w m p =
    if ltb retry_connection_after (w.now - p.disconnected_time)
    then some (initiated w m p)
    else some (same disconnected m p)
connection_of connecting_timed_out w m p = none

-- GetServerConnection
pub get_server_connection : World → PeerManager → PeerServer → Option Connection
get_server_connection w m p = connection_of p.status w m p
