-- ===== src/Lifecycle/Accepting.antt =====
-- How a client comes and how its memory goes: `on_new_client`, `AcceptConnection` and
-- `on_client_closed` of Pulsar/src/LocalClientsManager.cpp.
pub mod Settling
use pulsar_server_framework.Prelude.{
  ℕ, ◌+◌, ◌-◌, Option, none, some, Bool, true, false, not, if◌then◌else◌, ◌>>=◌,
}
use pulsar_server_framework.Client.{
  Client, Server, ServerStat, RequestBase, header, heap, new_client,
}
use pulsar_server_framework.Lifecycle.{disconnect_and_delete}
use pulsar_server_framework.Pool.{add_client}
use pulsar_server_framework.Protocol.Parser.{Registry}
use pulsar_server_framework.Receiver.{streaming_memory}

-- The result of uv_read_start: 0, -1, or another error, which the code does not take for a failure.
pub data ReadStart : Type 0 where
  started : ReadStart
  minus_one : ReadStart
  other_error : ReadStart

-- What libuv and the system answer. `new_fails`: there is no memory for the object or its members.
-- `locks_fail`: uv_rwlock_init fails. `reserve_fails`: the constructor has no memory for what a round
-- sends. `now` is the system's clock.
pub record Arrival : Type 0 where
  pub status_ok : Bool
  pub callback_error : Bool
  pub new_fails : Bool
  pub locks_fail : Bool
  pub reserve_fails : Bool
  pub accepts : Bool
  pub send_buffer_set : Bool
  pub receive_buffer_set : Bool
  pub read_start : ReadStart
  pub map_fails : Bool
  pub now : ℕ

-- `RetVal == -1`
abbrev pub is_minus_one : ReadStart → Bool
is_minus_one started = false
is_minus_one minus_one = true
is_minus_one other_error = false

-- AcceptConnection
pub accept_connection : Arrival → Client → Client × Bool
accept_connection a c =
    let accepted : Client = record c { is_accepted = true } in
    if not a.accepts
    then (c, false)
    else if not a.send_buffer_set
    then (accepted, false)
    else if not a.receive_buffer_set
    then (accepted, false)
    else if is_minus_one a.read_start
    then (accepted, false)
    else (record accepted { is_read_started = true }, true)

-- A client that was accepted but not added is disconnected.
pub turned_away : Server → Client → Server × Option Client
turned_away s c = let d = disconnect_and_delete true s c in (d.server, some d.client)

pub counted_exception : Bool → Server → Server
counted_exception creation s =
    let t = s.stat in
    record s {
      stat =
          if creation
          then record t { client_creation_exceptions = t.client_creation_exceptions + 1 }
          else record t { memory_allocation_exceptions = t.memory_allocation_exceptions + 1 };
    }

-- The destructor of stClient.
pub delete_client : Server → Server
delete_client s =
    let t = s.stat in
    record s { stat = record t { clients_disconnected = t.clients_disconnected + 1 } }

-- From AcceptConnection on.
pub admit : Arrival → Server → Client → Server × Option Client
admit a s c =
    let (c', accepted) = accept_connection a c in
    let (c'', added) = add_client s a.map_fails c' in
    let away = turned_away s c' in
    if not accepted
    then if c'.is_accepted then away else (delete_client s, none)
    else if not added
    then away
    else (s, some (record c'' { is_added_to_pool = true }))

-- on_new_client, and what is left of the new client. Where the constructor fails after it has counted the
-- client, the destructor is not run and the count stays. `client_memory` is the size of stClient and of
-- what it reserves.
pub on_new_client : ℕ → ℕ → Arrival → Server → Server × Option Client
on_new_client client_memory server_ipv4_address a s =
    let (s', c) = new_client a.now server_ipv4_address s in
    let t = s'.stat in
    if not a.status_ok
    then (s, none)
    else if a.callback_error
    then (counted_exception true s, none)
    else if a.new_fails
    then (counted_exception false s, none)
    else if a.locks_fail
    then (counted_exception true s, none)
    else if a.reserve_fails
    then (counted_exception false s', none)
    else admit a
        (record s' {
          stat = record t {
            memory_consumption_by_clients = t.memory_consumption_by_clients + client_memory;
          };
        })
        c

-- The buffer of a client that goes.
pub release_buffer : Registry → RequestBase → Server → Client → Option Server
release_buffer processors header s c = some s
release_buffer processors (heap n) s c =
    (if c.allocated_for_streaming then streaming_memory processors c else some (c.request_len))
    >>= λ m.
        let t = s.stat in
        some (record s {
          stat = record t {
            memory_consumption_by_clients = t.memory_consumption_by_clients - m;
            active_client_request_buffers = t.active_client_request_buffers - 1;
          };
        })

-- on_client_closed: the client is deleted.
pub on_client_closed : Registry → ℕ → Server → Client → Option Server
on_client_closed processors client_memory s c =
    let t = s.stat in
    release_buffer processors c.request_base
      (record s {
        stat = record t {
          memory_consumption_by_clients = t.memory_consumption_by_clients - client_memory;
        };
      })
      c
    >>= λ s'.
        let d = delete_client s' in some (record d { clients_closing = d.clients_closing - 1 })
