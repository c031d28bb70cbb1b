-- ===== src/Delivery/Clients.antt =====
-- A response for several clients: `AddResponseToClientsQueues` of Pulsar/src/LocalClientsManager.cpp
-- over the map of the pool, which is a list of clients.
pub mod Counting
use pulsar_server_framework.Prelude.{
  ℕ, ◌+◌, List, [], ◌∷◌, Option, none, some, Bool, true, false, ◌&&◌, ◌||◌, ◌==◌, if◌then◌else◌,
  ◌>>=◌,
}
use pulsar_server_framework.Client.{Client}
use pulsar_server_framework.Delivery.{Memory, add_response_to_client}
use pulsar_server_framework.Handles.{ClientHandle}
use pulsar_server_framework.Protocol.Response.{Response}

-- The clients, and what was added: the number of queues, and the exception flag.
pub record QueuedFor : Type 0 where
  pub clients : List Client
  pub reference_count : ℕ
  pub has_encountered_exception : Bool

pub is_named : ClientHandle → Client → Bool
is_named h c =
    c.in_pool && c.client_handle.client_registration_number == h.client_registration_number

-- A round of the loop: the client that the handle names, if the pool has it.
pub add_for_handle :
    ℕ → Memory → Bool → ClientHandle → ℕ → Response → List Client → Option QueuedFor
add_for_handle max_pending m flag h now r [] =
    some (record { clients = []; reference_count = 0; has_encountered_exception = false })
add_for_handle max_pending m flag h now r (c ∷ cs) =
    let here = add_response_to_client max_pending m flag h now r c >>= λ a. some (record {
      clients = a.client ∷ cs;
      reference_count = if a.added then 1 else 0;
      has_encountered_exception = a.has_encountered_exception;
    }) in
    let behind = add_for_handle max_pending m flag h now r cs >>= λ q.
    some (record q { clients = c ∷ q.clients }) in
    if is_named h c then here else behind

-- AddResponseToClientsQueues, with what the memory does in each round.
pub add_response_to_clients_queues :
    ℕ → Bool → ℕ → Response → List (ClientHandle × Memory) → List Client → Option QueuedFor
add_response_to_clients_queues max_pending flag now r [] cs =
    some (record { clients = cs; reference_count = 0; has_encountered_exception = false })
add_response_to_clients_queues max_pending flag now r ((h, m) ∷ hs) cs =
    add_for_handle max_pending m flag h now r cs >>= λ q.
    add_response_to_clients_queues max_pending flag now r hs q.clients >>= λ rest. some (record {
      clients = rest.clients;
      reference_count = q.reference_count + rest.reference_count;
      has_encountered_exception = q.has_encountered_exception || rest.has_encountered_exception;
    })
