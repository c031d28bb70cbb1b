-- ===== src/Peers/Sending.antt =====
-- How responses are forwarded to peer servers: `AddResponseToQueue`, `SendPeerServersResponses`,
-- `AfterSendingPeerServersResponses` and what they call, of Pulsar/src/PeerServersManager.cpp, with
-- `after_send_responses` and `SendResponses` of Pulsar/src/ConnectionsManager.cpp as one server sees
-- them.
pub mod Forwards
pub mod Rounds
pub mod Writes
pub mod Servers
pub mod Adding
pub mod Connected
use pulsar_server_framework.Prelude.{
  ℕ, ◌+◌, ◌-◌, List, [], ◌∷◌, ◌++◌, Option, none, some, Bool, true, false, not, ◌&&◌, ◌||◌, ◌==◌,
  if◌then◌else◌, ◌>>=◌, length,
}
use pulsar_server_framework.Protocol.Response.{Response}
use pulsar_server_framework.Delivery.{Memory, not_empty}
use pulsar_server_framework.Peers.{
  increased, less_than_one, Status, connecting, connected, disconnecting, uninitiated, disconnected,
  connecting_timed_out, overflowed, Forwarding, PeerServer, construct, ForwardStat, PeerManager,
  is_connected, disconnect_server, World, get_server_connection,
}

abbrev pub peer_locked_queue : Bool → PeerServer → List Response
peer_locked_queue flag p = if flag then p.responses_queue1 else p.responses_queue2

abbrev pub peer_unlocked_queue : Bool → PeerServer → List Response
peer_unlocked_queue flag p = if flag then p.responses_queue2 else p.responses_queue1

abbrev pub peer_locked_set : Bool → PeerServer → Bool
peer_locked_set flag p = if flag then p.in_set1 else p.in_set2

abbrev pub peer_unlocked_set : Bool → PeerServer → Bool
peer_unlocked_set flag p = if flag then p.in_set2 else p.in_set1

-- push_front on the queue of the threads, and the server in its set.
pub peer_pushed : Bool → Response → PeerServer → PeerServer
peer_pushed true r p = record p { responses_queue1 = p.responses_queue1 ++ r ∷ []; in_set1 = true }
peer_pushed false r p = record p { responses_queue2 = p.responses_queue2 ++ r ∷ []; in_set2 = true }

-- What AddResponseToQueue returns, with the exception flag that it may raise.
pub record PeerAdded : Type 0 where
  pub server : PeerServer
  pub added : Bool
  pub has_encountered_exception : Bool

-- AddResponseToQueue, from the check of MaxPendingResponses on. `pop_front` takes back what
-- `push_front` has put, where AddToServerSet fails.
pub add_to_server_queue : ℕ → Memory → Bool → Response → PeerServer → PeerAdded
add_to_server_queue max_pending mem flag r p =
    if max_pending == 0
    then record { server = p; added = false; has_encountered_exception = false }
    else if mem.queue_push_fails
    then record { server = p; added = false; has_encountered_exception = true }
    else if not (peer_locked_set flag p) && mem.set_insert_fails
    then record { server = p; added = false; has_encountered_exception = false }
    else record { server = peer_pushed flag r p; added = true; has_encountered_exception = false }

-- AddResponseToQueue, with what m_ServersInfo has for the address; `construct_fails` is a bad_alloc of
-- the new entry.
pub add_response_to_server :
    ℕ → Memory → Bool → Bool → Response → Option PeerServer → Option PeerServer × Bool × Bool
add_response_to_server max_pending mem construct_fails flag r (some p) =
    let a = add_to_server_queue max_pending mem flag r p in
    (some a.server, a.added, a.has_encountered_exception)
add_response_to_server max_pending mem construct_fails flag r none =
    let a = add_to_server_queue max_pending mem flag r (construct r.server_ipv4_address) in
    if construct_fails
    then (none, false, true)
    else (some a.server, a.added, a.has_encountered_exception)

-- IncreaseForwardedResponsesCount
pub increase_forwarded_responses_count : ℕ → PeerServer → PeerServer
increase_forwarded_responses_count now p =
    let n = increased p.responses_forwarded in
    if is_connected p.status
    then record p {
      responses_forwarded = n;
      overflowed_time = if less_than_one n then p.overflowed_time else now;
    }
    else p

-- The inner switch on ForwardError.
pub count_forward_error : Option Status → ForwardStat → ForwardStat
count_forward_error (some connecting_timed_out) t = record t {
  forward_error_connecting_timedout = t.forward_error_connecting_timedout + 1;
}
count_forward_error (some overflowed) t = record t {
  forward_error_overflowed = t.forward_error_overflowed + 1;
}
count_forward_error (some disconnecting) t = record t {
  forward_error_disconnecting = t.forward_error_disconnecting + 1;
}
count_forward_error (some disconnected) t = record t {
  forward_error_disconnected = t.forward_error_disconnected + 1;
}
count_forward_error (some connecting) t = record t {
  forward_error_writing_server = t.forward_error_writing_server + 1;
}
count_forward_error (some connected) t = record t {
  forward_error_writing_server = t.forward_error_writing_server + 1;
}
count_forward_error (some uninitiated) t = record t {
  forward_error_writing_server = t.forward_error_writing_server + 1;
}
count_forward_error none t = record t {
  forward_error_writing_server = t.forward_error_writing_server + 1;
}

pub count_forwarded : Response → ForwardStat → ForwardStat
count_forwarded r t = record t {
  responses_forwarded = t.responses_forwarded + 1;
  responses_sent = t.responses_sent + 1;
  total_response_bytes_sent = t.total_response_bytes_sent + length r.bytes;
}

-- The switch on the status of the write.
pub count_forwarding :
    Bool → ℕ → Forwarding → PeerManager → PeerServer → Option (PeerManager × PeerServer)
count_forwarding true now f m p =
    let t = count_forwarded f.response m.stat in
    if t.total_response_bytes_sent == 0
    then none
    else some (record m { stat = t }, increase_forwarded_responses_count now p)
count_forwarding false now f m p =
    let t = m.stat in
    disconnect_server true
      (record m {
        stat = record t { responses_failed_to_forward = t.responses_failed_to_forward + 1 };
      })
      p
    >>= λ (m', p'). some (record m' { stat = count_forward_error f.forward_error m'.stat }, p')

-- Both sets get the server back if its queue has responses; memory is taken to last for them.
pub server_back_to_sets : PeerServer → PeerServer
server_back_to_sets p = record p {
  in_set1 = p.in_set1 || not_empty p.responses_queue1;
  in_set2 = p.in_set2 || not_empty p.responses_queue2;
}

-- AfterSendingPeerServersResponses
pub after_sending_peer_servers_responses :
    Bool → ℕ → Forwarding → PeerManager → PeerServer → Option (PeerManager × PeerServer)
after_sending_peer_servers_responses write_ok now f m p =
    let counted =
      count_forwarding write_ok now f m p >>= λ (m', p'). some (m', server_back_to_sets p') in
    if f.response.is_forward then counted else none

-- AfterSendingResponse for a peer server, with its assertions on the response.
pub after_sending_response :
    Bool → ℕ → Forwarding → PeerManager → PeerServer → Option (PeerManager × PeerServer)
after_sending_response write_ok now f m p =
    let sent = after_sending_peer_servers_responses write_ok now f m p in
    if f.response.is_forward && p.ipv4_address == f.response.server_ipv4_address then sent else none

-- The loop of after_send_responses over the responses that were sent.
pub after_each_forwarding :
    Bool → ℕ → List Forwarding → PeerManager → PeerServer → Option (PeerManager × PeerServer)
after_each_forwarding write_ok now [] m p = some (m, p)
after_each_forwarding write_ok now (f ∷ fs) m p =
    after_sending_response write_ok now f m p >>= λ (m', p').
    after_each_forwarding write_ok now fs m' p'

-- Where libuv made the call, the responses are no longer being sent.
pub forwarding_done : Bool → ℕ → PeerManager → PeerManager
forwarding_done true n m = m
forwarding_done false n m =
    let t = m.stat in
    record m { stat = record t { responses_being_sent_count = t.responses_being_sent_count - n } }

-- after_send_responses for a peer server. `called_by_send_response` is the manager's flag of that name.
pub after_forwarding :
    Bool → Bool → ℕ → PeerManager → PeerServer → Option (PeerManager × PeerServer)
after_forwarding called_by_send_response write_ok now m p =
    let n = length p.responses_being_sent in
    let done = after_each_forwarding write_ok now p.responses_being_sent m p >>= λ (m', p').
    some (forwarding_done called_by_send_response n m', record p' { responses_being_sent = [] }) in
    if n == 0 then none else done

pub server_erased : Bool → PeerServer → PeerServer
server_erased true p = record p { in_set2 = false }
server_erased false p = record p { in_set1 = false }

pub forward_error_of : Status → Option Status
forward_error_of connected = none
forward_error_of s = some s

-- What the loop puts into m_pResponsesBeingSent: the whole queue, with its ForwardError.
pub to_forward : Status → List Response → List Forwarding
to_forward s [] = []
to_forward s (r ∷ rs) =
    record { response = r; forward_error = forward_error_of s } ∷ to_forward s rs

-- The queue is moved to what is being sent.
pub take_queue : Bool → Status → PeerServer → PeerServer
take_queue true s p = record p {
  responses_being_sent = to_forward s p.responses_queue2;
  responses_queue2 = [];
}
take_queue false s p = record p {
  responses_being_sent = to_forward s p.responses_queue1;
  responses_queue1 = [];
}

pub is_connecting : Status → Bool
is_connecting connecting = true
is_connecting s = false

pub all_forward : List Response → Bool
all_forward [] = true
all_forward (r ∷ rs) = r.is_forward && all_forward rs

-- uv_write, if the server is connected; where it fails or is not called, the callback is called at
-- once.
pub forward : World → Status → PeerManager → PeerServer → Option (PeerManager × PeerServer)
forward w s m p =
    let t = m.stat in
    let n = length p.responses_being_sent in
    let failed = after_forwarding true false w.now m p in
    if is_connected s && w.uv_write_ok
    then some (
      record m {
        stat = record t { responses_being_sent_count = t.responses_being_sent_count + n };
      },
      p,
    )
    else failed

-- The round, once GetServerConnection has returned. An empty queue and a response that is not for a
-- peer server fail an assertion.
pub forward_queue :
    World → Bool → Status → PeerManager → PeerServer → Option (PeerManager × PeerServer)
forward_queue w flag s m p =
    let queue = peer_unlocked_queue flag p in
    let sent =
      forward w s m (take_queue flag s p) >>= λ (m', p'). some (m', server_erased flag p') in
    if is_connecting s
    then some (m, p)
    else if 0 == length p.responses_being_sent
    then if 0 == length queue
      then none
      else if w.reserve_fails
      then some (
        record m {
          stat = record (m.stat) {
            memory_allocation_exceptions = m.stat.memory_allocation_exceptions + 1;
          };
        },
        p,
      )
      else if all_forward queue
      then sent
      else none
    else some (m, server_erased flag p)

-- A round of SendPeerServersResponses for a server of the set.
pub send_peer_server_responses :
    World → PeerManager → PeerServer → Option (PeerManager × PeerServer)
send_peer_server_responses w m p = get_server_connection w m p >>= λ c.
    forward_queue w m.response_direction_flag c.conn_status c.manager c.server

pub toggled : PeerManager → PeerManager
toggled m = record m { response_direction_flag = not m.response_direction_flag }

-- SendResponses, as far as this server is concerned: the round is for the servers of the set.
pub send_to_server : World → PeerManager → PeerServer → Option (PeerManager × PeerServer)
send_to_server w m p =
    let sent = send_peer_server_responses w (toggled m) p in
    if peer_unlocked_set (toggled m).response_direction_flag p then sent else some (toggled m, p)
