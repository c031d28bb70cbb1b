-- ===== src/Shutdown.antt =====
-- The shutdown of the server: `InitiateServerShutdown` and `DisconnectAllClients` of
-- Pulsar/src/LocalClientsManager.cpp, `GetClients` of Pulsar/src/ClientsPool.cpp, and the last part of
-- `DoPeriodicActivities` of Pulsar/src/ConnectionsManager.cpp.
pub mod Order
pub mod Clients
use pulsar_server_framework.Prelude.{
  ℕ, ◌+◌, List, [], ◌∷◌, Bool, true, false, not, ◌&&◌, ◌||◌, ◌==◌, if◌then◌else◌,
}
use pulsar_server_framework.Client.{Client, Server}
use pulsar_server_framework.Handles.{ClientHandle}
use pulsar_server_framework.Lifecycle.{disconnect_and_delete}

-- The static flags of DoPeriodicActivities.
pub record Closing : Type 0 where
  pub request_processors_deleted : Bool
  pub connections_disconnected_and_closed : Bool
  pub stdin_close_initiated : Bool

pub nothing_closed : Closing
nothing_closed = record {
  request_processors_deleted = false;
  connections_disconnected_and_closed = false;
  stdin_close_initiated = false;
}

-- What a run of DoPeriodicActivities finds: HasAllClientsDisconnectedForShutdown, GetResponsesInQueue,
-- IsServerStopped, AreClientsClosing, GetActiveProcessors, AreServersClosing, AreServersConnecting, and
-- what Stop of the logger and of the file writer return.
pub record Surroundings : Type 0 where
  pub all_clients_disconnected : Bool
  pub responses_in_queue : ℕ
  pub is_server_stopped : Bool
  pub clients_closing : ℕ
  pub active_processors : ℕ
  pub servers_closing : ℕ
  pub servers_connecting : ℕ
  pub logger_stops : Bool
  pub file_writer_stops : Bool

-- What it does: DeleteRequestProcessors, DisconnectAndCloseAllConnections, and uv_close of the keyboard.
pub data Action : Type 0 where
  delete_request_processors close_all_connections close_stdin : Action

-- The clients are gone and their responses too.
unfoldable pub are_clients_gone : Surroundings → Bool
are_clients_gone s =
    s.all_clients_disconnected
    && (s.responses_in_queue == 0 && (s.is_server_stopped && s.clients_closing == 0))

-- Peer servers are closed, logger and file writer stopped.
unfoldable pub is_output_stopped : Surroundings → Bool
is_output_stopped s =
    s.servers_closing == 0 && (s.servers_connecting == 0 && (s.logger_stops && s.file_writer_stops))

-- The last part of DoPeriodicActivities.
pub close_down : Surroundings → Closing → Closing × List Action
close_down s c =
    if not (are_clients_gone s)
    then (c, [])
    else if not c.request_processors_deleted
    then (record c { request_processors_deleted = true }, delete_request_processors ∷ [])
    else if not (s.active_processors == 0)
    then (c, [])
    else if not c.connections_disconnected_and_closed
    then (record c { connections_disconnected_and_closed = true }, close_all_connections ∷ [])
    else if is_output_stopped s && not c.stdin_close_initiated
    then (record c { stdin_close_initiated = true }, close_stdin ∷ [])
    else (c, [])

-- GetClients puts a client of the pool into the vector; `forgets` tells of which it is left out because
-- memory is short.
pub is_listed : (ClientHandle → Bool) → Client → Bool
is_listed forgets c = c.in_pool && not (forgets c.client_handle)

-- The handler of bad_alloc.
pub count_forgotten : Bool → Server → Server
count_forgotten false s = s
count_forgotten true s =
    let t = s.stat in
    record s {
      stat = record t { memory_allocation_exceptions = t.memory_allocation_exceptions + 1 };
    }

-- The loop of GetClients over the pool.
pub get_clients : (ClientHandle → Bool) → Server → List Client → Server
get_clients forgets s [] = s
get_clients forgets s (c ∷ cs) =
    get_clients forgets (count_forgotten (c.in_pool && forgets c.client_handle) s) cs

-- The loop over the vector. The Bool says whether there was a client in it.
pub disconnect_listed : (ClientHandle → Bool) → Server → List Client → Server × List Client × Bool
disconnect_listed forgets s [] = (s, [], false)
disconnect_listed forgets s (c ∷ cs) =
    let d = disconnect_and_delete true s c in
    let (s1, cs1, some_client) = disconnect_listed forgets d.server cs in
    let (s2, cs2, other_client) = disconnect_listed forgets s cs in
    if is_listed forgets c then (s1, d.client ∷ cs1, true) else (s2, c ∷ cs2, other_client)

-- DisconnectAllClients.
pub disconnect_all_clients :
    (ClientHandle → Bool) → Server → List Client → Server × List Client × Bool
disconnect_all_clients forgets s cs = disconnect_listed forgets (get_clients forgets s cs) cs

-- What InitiateServerShutdown leaves; `closes_server` is the call of uv_close on the listening handle.
pub record Initiated : Type 0 where
  pub server : Server
  pub clients : List Client
  pub shutdown_initiated : Bool
  pub closes_server : Bool

-- InitiateServerShutdown, with its static flag.
pub initiate_server_shutdown : (ClientHandle → Bool) → Bool → Server → List Client → Initiated
initiate_server_shutdown forgets shutdown_initiated s cs =
    let (s', cs', some_client) =
      disconnect_all_clients forgets (record s { is_server_shutting_down = true }) cs in
    record {
      server =
          if some_client then s' else record s' { all_clients_disconnected_for_shutdown = true };
      clients = cs';
      shutdown_initiated = true;
      closes_server = not shutdown_initiated;
    }
