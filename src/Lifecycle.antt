-- ===== src/Lifecycle.antt =====
-- How a client goes: Pulsar/src/LocalClientsManager.cpp, `MarkToDisconnect`, `DisconnectAndDelete` and
-- the callbacks behind them. All of it runs in the event loop.
pub mod Disconnection
pub mod Accepting
use pulsar_server_framework.Prelude.{
  ℕ, ◌+◌, ◌-◌, List, Option, none, some, Bool, true, false, not, ◌&&◌, ◌||◌, ◌==◌, if◌then◌else◌,
}
use pulsar_server_framework.Client.{Client, Server, ServerStat}
use pulsar_server_framework.Pool.{remove_client}

unfoldable pub mark_to_disconnect : Bool → Server → Client → Server × Client
mark_to_disconnect by_server s c = if c.to_be_disconnected then (s, c) else (
  record s {
    stat =
        if by_server
        then record (s.stat) { disconnections_by_server = s.stat.disconnections_by_server + 1 }
        else record (s.stat) { disconnections_by_clients = s.stat.disconnections_by_clients + 1 };
  },
  record c { to_be_disconnected = true },
)

unfoldable pub stop_reading : Client → Client
stop_reading c = if c.is_read_started then record c { is_read_started = false } else c

-- What DisconnectAndDelete returns, with the state that it leaves.
pub record Disconnected : Type 0 where
  pub server : Server
  pub client : Client
  pub result : Bool

-- The work that is queued for the disconnection.
unfoldable pub queue_disconnection : Server → Client → Disconnected
queue_disconnection s c =
    if c.is_accepted
    then record {
      server = record s { queued_disconnections = s.queued_disconnections + 1 };
      client = record c { is_added_to_pool = false; disconnect_initiated = true };
      result = true;
    }
    else record { server = s; client = c; result = false }

-- From the marking on.
unfoldable pub try_to_remove : Server → Client → Disconnected
try_to_remove s c =
    let (removed, gone) = remove_client c in
    if c.request_is_being_processed || not c.request_processing_finished
    then record { server = s; client = c; result = false }
    else if not c.is_added_to_pool
    then queue_disconnection s c
    else if gone
    then queue_disconnection s removed
    else record { server = s; client = c; result = false }

unfoldable pub disconnect_and_delete : Bool → Server → Client → Disconnected
disconnect_and_delete by_server s c =
    let (s', c') = mark_to_disconnect by_server s c in
    if c.disconnect_initiated
    then record { server = s; client = c; result = false }
    else try_to_remove s' (stop_reading c')

-- after_disconnection_processing_thread, on the status of the work and the number of clients in the
-- pool. On an error status it returns at once.
pub after_disconnection_processing_thread : Bool → ℕ → Server → Server
after_disconnection_processing_thread failed clients_count s =
    let s' = record s {
      clients_closing = s.clients_closing + 1;
      queued_disconnections = s.queued_disconnections - 1;
    } in
    if failed
    then s
    else if s.is_server_shutting_down && (clients_count == 0 && s'.queued_disconnections == 0)
    then record s' { all_clients_disconnected_for_shutdown = true }
    else s'
