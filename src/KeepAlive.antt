-- ===== src/KeepAlive.antt =====
-- Keep-alive of idle clients: `SendKeepAlive`, `send_keepalive_thread` and
-- `after_send_keepalive_thread` of Pulsar/src/LocalClientsManager.cpp. Memory is taken to last for the
-- sets of handles that the thread collects.
pub mod Reaching
use pulsar_server_framework.Prelude.{
  ℕ, List, [], ◌∷◌, Option, some, Bool, true, false, ◌==◌, if◌then◌else◌, ◌>>=◌, length,
}
use pulsar_server_framework.ByteOrder.{ByteOrder}
use pulsar_server_framework.Client.{Client}
use pulsar_server_framework.Handles.{ClientHandles}
use pulsar_server_framework.Pool.{
  ClientType, versioned_client, versionless_client, get_idle_clients,
}
use pulsar_server_framework.Processor.{StoredMessage, MessageMemory}
use pulsar_server_framework.Processor.EntryPoints.{default_version, send_response}
use pulsar_server_framework.Protocol.Constants.{
  special_communication, response_keep_alive, response_fatal_error,
}
use pulsar_server_framework.Protocol.Parser.{Registry}

-- SendKeepAlive, on whether the last one is in progress: the new value, and whether the thread was
-- queued.
pub send_keep_alive : Bool → Bool × Bool
send_keep_alive in_progress = if in_progress then (true, false) else (true, true)

-- after_send_keepalive_thread
pub after_send_keepalive_thread : Bool → Bool
after_send_keepalive_thread in_progress = false

-- What idle clients of a type are sent.
unfoldable pub response_code : ClientType → ℕ
response_code versioned_client = response_keep_alive
response_code versionless_client = response_fatal_error

-- What the thread leaves: the clients with their activity times, and what was stored for each type.
pub record Kept : Type 0 where
  pub clients : List Client
  pub keep_alives : StoredMessage
  pub fatal_errors : StoredMessage

module _ ⦃o : ByteOrder⦄ (processors : Registry) (local_server : ℕ)
    (memory : ClientType → MessageMemory) where
  -- The body of the loop, once the handles are collected. The processor that sends is the one of
  -- SPECIAL_COMMUNICATION.
  pub notify : ClientType → ClientHandles → Option StoredMessage
  notify type clienthandles =
      let sent =
        send_response processors local_server special_communication (memory type) clienthandles
          (response_code type ∷ []) default_version in
      if length clienthandles == 0 then some (record { stored = []; exception = false }) else sent

  -- send_keepalive_thread: the loop over the two types.
  pub send_keepalive_thread : ℕ → ℕ → List Client → Option Kept
  send_keepalive_thread keep_alive now clients =
      let (clients1, versioned) = get_idle_clients keep_alive now versioned_client clients [] in
      let (clients2, versionless) =
        get_idle_clients keep_alive now versionless_client clients1 [] in
      do
        keep_alives ← notify versioned_client versioned
        fatal_errors ← notify versionless_client versionless
        some (record { clients = clients2; keep_alives = keep_alives; fatal_errors = fatal_errors })
