-- ===== src/Processor.antt =====
-- Storing a message for clients of any server: Pulsar/src/RequestProcessor.cpp, `StoreMessage` and
-- `CreateResponseAndAddToQueues`. A set of pointers is walked in an order of its own; here it is that of
-- the list.
pub mod Splitting
pub mod Grouping
pub mod Servers
pub mod EntryPoints
pub mod Recipients
use pulsar_server_framework.Prelude.{
  ℕ, zero, suc, ◌+◌, ◌≤◌, List, [], ◌∷◌, ◌++◌, Option, none, some, Bool, true, false, not, ◌&&◌,
  ◌||◌, ltb, ◌==◌, if◌then◌else◌, ◌>>=◌, length, take, drop,
}
use pulsar_server_framework.ByteOrder.{ByteOrder}
use pulsar_server_framework.Handles.{ClientHandle, ClientHandles}
use pulsar_server_framework.Protocol.Constants.{max_handles_in_forwarded_response}
use pulsar_server_framework.Protocol.Parser.{VersionParameters, Registry}
use pulsar_server_framework.Protocol.Response.{
  Creation, created, thrown, overrun, failed, Response, new_response,
}
use pulsar_server_framework.Receiver.{get_version_parameters}

-- A response that was handed to AddResponseToQueues, the range of handles that it was made for, and the
-- handles that were passed with it.
pub record Queued : Type 0 where
  pub response : Response
  pub range : List ClientHandle
  pub handles : List ClientHandle

-- What the loop leaves: the responses, and whether an exception ended it.
pub record Stored : Type 0 where
  pub queued : List Queued
  pub exception : Bool

-- How many handles the next response is for.
pub range_size : ℕ → ClientHandle → List ClientHandle → ℕ
range_size local_server first more =
    let handles = first ∷ more in
    if not (local_server == first.server_ipv4_address)
      && ltb max_handles_in_forwarded_response (length handles)
    then max_handles_in_forwarded_response
    else length handles

pub push_queued : Queued → Stored → Stored
push_queued q s = record s { queued = q ∷ s.queued }

-- One server's handles, as the map has them.
pub record ServerAndHandles : Type 0 where
  pub server_address : ℕ
  pub handles : List ClientHandle

-- Where memory is short: for the map and its sets, for the copy of a server's set, and, by server and
-- number of the split, for a response.
pub record MessageMemory : Type 0 where
  pub map_fails : Bool
  pub copy_fails : ℕ → Bool
  pub allocation_fails : ℕ → ℕ → Bool

-- What StoreMessage leaves: what was stored for each server, and whether its own handler of bad_alloc
-- ended it.
pub record StoredMessage : Type 0 where
  pub stored : List Stored
  pub exception : Bool

pub push_stored : Stored → StoredMessage → StoredMessage
push_stored s m = record m { stored = s ∷ m.stored }

-- The look-up and the insertion of the map's operator[], and that into the set that it returns.
pub add_handle : ClientHandle → List ServerAndHandles → List ServerAndHandles
add_handle h [] = record { server_address = h.server_ipv4_address; handles = h ∷ [] } ∷ []
add_handle h (g ∷ gs) =
    let rest = add_handle h gs in
    if h.server_ipv4_address == g.server_address
    then record g { handles = g.handles ++ h ∷ [] } ∷ gs
    else if ltb h.server_ipv4_address g.server_address
    then record { server_address = h.server_ipv4_address; handles = h ∷ [] } ∷ g ∷ gs
    else g ∷ rest

-- The loop over the handles that fills the map.
pub servers_and_handles : List ServerAndHandles → List ClientHandle → List ServerAndHandles
servers_and_handles groups [] = groups
servers_and_handles groups (h ∷ hs) = servers_and_handles (add_handle h groups) hs

module _ ⦃o : ByteOrder⦄ (processors : Registry) (local_server : ℕ) (response : List ℕ)
    (version : ℕ) (update : Bool) where
  -- The response for the first handles, if memory lasts: `none` is a write past a buffer's end
  -- or a failed assertion.
  pub create_response :
      Bool → ClientHandle → List ClientHandle → List ClientHandle → Option (Option Queued)
  create_response allocation_fails first more handles =
      if allocation_fails
      then some none
      else elim (new_response processors local_server response first more version update) [
        | created r ↦ some (some (record { response = r; range = first ∷ more; handles = handles }))
        | thrown ↦ some none
        | overrun ↦ none
        | failed ↦ none
      ]

  -- CreateResponseAndAddToQueues. `allocation_fails` tells for each split whether memory lasts; `none`
  -- is also the end of the fuel.
  pub create_response_and_add_to_queues : (ℕ → Bool) → ℕ → ℕ → List ClientHandle → Option Stored
  create_response_and_add_to_queues allocation_fails fuel split_count [] =
      some (record { queued = []; exception = false })
  create_response_and_add_to_queues allocation_fails zero split_count (h ∷ hs) = none
  create_response_and_add_to_queues allocation_fails (suc fuel) split_count (h ∷ hs) =
      let n = range_size local_server h hs in
      let rest =
        create_response_and_add_to_queues allocation_fails fuel (split_count + 1)
          (drop n (h ∷ hs)) in
      create_response (allocation_fails split_count) h (drop 1 (take n (h ∷ hs))) (h ∷ hs)
      >>= λ made. elim made [
        | none ↦ some (record { queued = []; exception = true })
        | some q ↦ rest >>= λ s. some (push_queued q s)
      ]

  -- The loop over the map, each server's handles copied and then in their own call.
  pub store_for_servers : MessageMemory → List ServerAndHandles → Option StoredMessage
  store_for_servers memory [] = some (record { stored = []; exception = false })
  store_for_servers memory (g ∷ gs) =
      let rest = store_for_servers memory gs in
      if memory.copy_fails g.server_address
      then some (record { stored = []; exception = true })
      else create_response_and_add_to_queues (memory.allocation_fails g.server_address)
          (length g.handles) 0 g.handles
        >>= λ s. rest >>= λ m. some (push_stored s m)

  -- StoreMessage, up to the wake-up of the event loop for an update.
  pub store_message : MessageMemory → ClientHandles → Option StoredMessage
  store_message memory clienthandles =
      let stored = store_for_servers memory (servers_and_handles [] clienthandles) in
      elim (get_version_parameters processors version) [
        | none ↦ some (record { stored = []; exception = false })
        | some p ↦
            if length clienthandles == 0
              || (length response == 0 || ltb p.max_response_size (length response))
            then some (record { stored = []; exception = false })
            else if memory.map_fails
            then some (record { stored = []; exception = true })
            else stored
      ]
