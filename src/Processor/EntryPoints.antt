-- ===== src/Processor/EntryPoints.antt =====
-- The functions by which an application sends a response: `SendResponse`, `StoreError` and `DisconnectClient` of
-- Pulsar/src/RequestProcessor.cpp. What `SendResponse` promises its caller is here too.
use pulsar_server_framework.Prelude.{
  ℕ, ◌+◌, ◌^◌, ◌<◌, ◌≡◌, ◌⊎◌, List, [], ◌∷◌, Option, some, Bool, true, false, ◌==◌, if◌then◌else◌,
  length, All, arith,
}
use pulsar_server_framework.ByteOrder.{ByteOrder}
use pulsar_server_framework.Handles.{ClientHandle, ClientHandles}
use pulsar_server_framework.Protocol.Constants.{
  uninitialized_version, special_communication, response_error, response_fatal_error,
}
use pulsar_server_framework.Protocol.Parser.{Registry}
use pulsar_server_framework.Protocol.Response.Wire.{HasU64}
use pulsar_server_framework.Processor.{
  StoredMessage, MessageMemory, store_message, servers_and_handles,
}
use pulsar_server_framework.Processor.Servers.{
  IsRefused, IsAllowed, IsStored, store_message-IsStored,
}

-- DEFAULT_VERSION.
abbrev pub default_version : ℕ
default_version = uninitialized_version

-- The version of the processor that sends, unless another one is given.
pub chosen_version : ℕ → ℕ → ℕ
chosen_version own version = if version == default_version then own else version

module _ ⦃o : ByteOrder⦄ (processors : Registry) (local_server own_version : ℕ)
    (memory : MessageMemory) where
  -- SendResponse for a set of clients.
  pub send_response : ClientHandles → List ℕ → ℕ → Option StoredMessage
  send_response clienthandles response version =
      store_message processors local_server response (chosen_version own_version version) false
        memory clienthandles

  -- SendResponse for one client. `insert_fails` tells whether memory for the set is short, which ends
  -- it like StoreMessage's own exception.
  send_response_to_one : Bool → ClientHandle → List ℕ → ℕ → Option StoredMessage
  send_response_to_one insert_fails clienthandle response version =
      if insert_fails
      then some (record { stored = []; exception = true })
      else send_response (clienthandle ∷ []) response version

  -- StoreError.
  store_error : Bool → ClientHandle → ℕ → Option StoredMessage
  store_error insert_fails clienthandle error_code =
      send_response_to_one insert_fails clienthandle (response_error ∷ error_code ∷ [])
        special_communication

  -- DisconnectClient: a fatal error is the response after which a client is disconnected.
  disconnect_client : Bool → ClientHandle → Option StoredMessage
  disconnect_client insert_fails clienthandle =
      send_response_to_one insert_fails clienthandle (response_fatal_error ∷ [])
        special_communication

  chosen_version-bound :
      (version : ℕ)
      → own_version < 2 ^ 16
      → version < 2 ^ 16
      → chosen_version own_version version < 2 ^ 16
  unfolding chosen_version
  chosen_version-bound version h k = ground arith

  -- For handles whose numbers are unsigned 64-bit integers, versions of 16 bits, and a response whose
  -- length with the most additional bytes fits 32 bits: SendResponse ends and nothing is written past
  -- a buffer. The version is the sender's own if none is given. Either nothing is stored, without an
  -- exception, and then there is no such version, no handle, no response, or the response is longer than
  -- the version allows; or none of these is so. Then for each server its handles are split into
  -- responses; or, with an exception, nothing is stored because memory for the map was short, or the
  -- servers before the first whose set could not be copied have theirs.
  pub send_response-IsStored :
      (hs : ClientHandles) (response : List ℕ) (version : ℕ)
      → own_version < 2 ^ 16
      → version < 2 ^ 16
      → length response + 131087 < 2 ^ 32
      → All HasU64 hs
      → (m : StoredMessage) × (send_response hs response version ≡ some m)
        × ((IsRefused processors (chosen_version own_version version) response hs
              × (m.exception ≡ false)
              × (m.stored ≡ []))
            ⊎ (IsAllowed processors (chosen_version own_version version) response hs
                × IsStored local_server memory (servers_and_handles [] hs) m))
  unfolding send_response
  send_response-IsStored hs response version ho hv hl u =
      store_message-IsStored processors local_server response (chosen_version own_version version)
        false (chosen_version-bound version ho hv) hl memory hs u
