-- ===== src/Pool.antt =====
-- Pulsar/src/ClientsPool.cpp. The map from registration numbers to clients is the flag `in_pool` of
-- each client; locks are left out, since each operation holds them from its first access to its last.
pub mod Counts
pub mod Idle
use pulsar_server_framework.Prelude.{
  ℕ, ◌+◌, ◌-◌, List, [], ◌∷◌, Option, none, some, Bool, true, false, not, ◌&&◌, ◌||◌, leb, ◌==◌,
  if◌then◌else◌, ◌>>=◌,
}
use pulsar_server_framework.Handles.{ClientHandle, ClientHandles, insert}
use pulsar_server_framework.Protocol.Constants.{uninitialized_version}
use pulsar_server_framework.Client.{Client, Server}

-- REQUESTCOUNT and RESPONSECOUNT.
pub data Count : Type 0 where
  request_count response_count : Count

-- AddClient. `no_memory` says that the map cannot allocate.
unfoldable pub add_client : Server → Bool → Client → Client × Bool
add_client s no_memory c =
    if s.is_server_shutting_down || no_memory
    then (c, false)
    else (record c { in_pool = true }, true)

-- RemoveClient
unfoldable pub remove_client : Client → Client × Bool
remove_client c =
    if c.in_pool && (c.requests == 0 && c.responses == 0)
    then (record c { in_pool = false }, true)
    else (c, false)

unfoldable pub counted_up : Count → ℕ → Client → Client
counted_up request_count now c = record c { requests = c.requests + 1; last_activity_time = now }
counted_up response_count now c = record c { responses = c.responses + 1; last_activity_time = now }

-- IncreaseCountForClient, for the client that `clienthandle` names by its number. `none` is the failed
-- assertion on a handle of another server.
unfoldable pub increase_count_for_client :
    ClientHandle → Count → ℕ → Client → Option (Client × Bool)
increase_count_for_client clienthandle which now c =
    if c.in_pool
      && (c.client_handle.client_registration_number == clienthandle.client_registration_number
          && not c.to_be_disconnected)
    then if c.client_handle.server_ipv4_address == clienthandle.server_ipv4_address
      then some (counted_up which now c, true)
      else none
    else some (c, false)

-- DecreaseCountForClient. `none` is the failed assertion on a count below zero.
unfoldable pub decrease_count_for_client : Count → ℕ → Client → Option Client
decrease_count_for_client request_count now c =
    if c.requests == 0
    then none
    else some (record c { requests = c.requests - 1; last_activity_time = now })
decrease_count_for_client response_count now c =
    if c.responses == 0
    then none
    else some (record c { responses = c.responses - 1; last_activity_time = now })

-- GetClientsCount
pub get_clients_count : List Client → ℕ
get_clients_count [] = 0
get_clients_count (c ∷ cs) = let rest = get_clients_count cs in if c.in_pool then rest + 1 else rest

pub data ClientType : Type 0 where
  versioned_client versionless_client : ClientType

pub client_type : Client → ClientType
client_type c = if c.version == uninitialized_version then versionless_client else versioned_client

pub same_type : ClientType → ClientType → Bool
same_type versioned_client versioned_client = true
same_type versionless_client versionless_client = true
same_type _ _ = false

-- The test of GetIdleClients: nothing is pending, and no activity for the keep-alive period.
pub is_idle : ℕ → ℕ → Client → Bool
is_idle keep_alive now c =
    c.requests + c.responses == 0 && leb (c.last_activity_time + keep_alive) now

-- GetIdleClients, over all clients: the handles found, and the clients with their new activity time.
pub get_idle_clients :
    ℕ → ℕ → ClientType → List Client → ClientHandles → List Client × ClientHandles
get_idle_clients keep_alive now type [] handles = ([], handles)
get_idle_clients keep_alive now type (c ∷ cs) handles =
    let found = c.in_pool && (is_idle keep_alive now c && same_type (client_type c) type) in
    let (rest, handles') =
      get_idle_clients keep_alive now type cs
        (if found then insert c.client_handle handles else handles) in
    ((if found then record c { last_activity_time = now } else c) ∷ rest, handles')
