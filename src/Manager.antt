-- ===== src/Manager.antt =====
-- What ConnectionsManager does with every response and its counters: Pulsar/src/ConnectionsManager.cpp.
-- `none` is a failed assertion. How long a response was queued is left out.
pub mod References
use pulsar_server_framework.Prelude.{
  ℕ, zero, suc, ◌+◌, ◌-◌, List, Option, none, some, Bool, true, false, ◌==◌, if◌then◌else◌, ◌>>=◌,
  length,
}
use pulsar_server_framework.Client.{Client}
use pulsar_server_framework.Delivery.{Memory}
use pulsar_server_framework.Delivery.Clients.{QueuedFor, add_response_to_clients_queues}
use pulsar_server_framework.Handles.{ClientHandle}
use pulsar_server_framework.Peers.{PeerServer}
use pulsar_server_framework.Peers.Sending.{add_response_to_server}
use pulsar_server_framework.Protocol.Response.{Response}

-- The five types of exceptions.
pub data ExceptionType : Type 0 where
  memory_allocation_exception client_creation_exception connection_creation_exception :
      ExceptionType
  request_creation_exception response_creation_exception : ExceptionType

-- The counters of ServerStat for exceptions, and for the responses in the queues.
pub record QueueStat : Type 0 where
  pub memory_allocation_exception_count : ℕ
  pub client_creation_exception_count : ℕ
  pub connection_creation_exception_count : ℕ
  pub request_creation_exception_count : ℕ
  pub response_creation_exception_count : ℕ
  pub responses_in_peer_servers_queues : ℕ
  pub responses_in_local_clients_queues : ℕ
  pub memory_consumption_by_responses_in_queue : ℕ
  pub responses_failed_to_queue : ℕ

-- IncreaseExceptionCount
pub increase_exception_count : ExceptionType → QueueStat → QueueStat
increase_exception_count memory_allocation_exception t = record t {
  memory_allocation_exception_count = t.memory_allocation_exception_count + 1;
}
increase_exception_count client_creation_exception t = record t {
  client_creation_exception_count = t.client_creation_exception_count + 1;
}
increase_exception_count connection_creation_exception t = record t {
  connection_creation_exception_count = t.connection_creation_exception_count + 1;
}
increase_exception_count request_creation_exception t = record t {
  request_creation_exception_count = t.request_creation_exception_count + 1;
}
increase_exception_count response_creation_exception t = record t {
  response_creation_exception_count = t.response_creation_exception_count + 1;
}

-- A Response on the heap, with its counts.
pub record ResponseObject : Type 0 where
  pub response : Response
  pub reference_count : ℕ
  pub response_sent_count : ℕ
  pub added_to_stat : Bool
  pub deleted : Bool

-- A Response as its constructor leaves it.
pub response_object : Response → ResponseObject
response_object r = record {
  response = r;
  reference_count = 0;
  response_sent_count = 0;
  added_to_stat = false;
  deleted = false;
}

pub count_queued : ℕ → ResponseObject → QueueStat → QueueStat
count_queued size_of_response o t =
    let m =
      t.memory_consumption_by_responses_in_queue + (length o.response.bytes + size_of_response) in
    if o.response.is_forward
    then record t {
      responses_in_peer_servers_queues = t.responses_in_peer_servers_queues + 1;
      memory_consumption_by_responses_in_queue = m;
    }
    else record t {
      responses_in_local_clients_queues = t.responses_in_local_clients_queues + 1;
      memory_consumption_by_responses_in_queue = m;
    }

-- AddResponseDetailsToServerStat
pub add_response_details_to_server_stat :
    ℕ → ResponseObject → QueueStat → Option (QueueStat × ResponseObject)
add_response_details_to_server_stat size_of_response o t =
    if o.reference_count == 0
    then some (record t { responses_failed_to_queue = t.responses_failed_to_queue + 1 }, o)
    else if o.added_to_stat
    then none
    else some (count_queued size_of_response o t, record o { added_to_stat = true })

-- The end of AddResponseToQueues, for a response that was put into this many queues.
pub set_references : ℕ → ℕ → ResponseObject → QueueStat → Option (QueueStat × ResponseObject)
set_references size_of_response n o t =
    add_response_details_to_server_stat size_of_response
      (record o { reference_count = n; deleted = n == 0 }) t

-- The queues of this server's clients, and what the map of peer servers has for the response's address.
pub record Queues : Type 0 where
  pub clients : List Client
  pub peer_server : Option PeerServer

-- What AddResponseToQueues leaves.
pub record QueuedResponse : Type 0 where
  pub queues : Queues
  pub object : ResponseObject
  pub stat : QueueStat
  pub has_encountered_exception : Bool

-- Into a peer server's queue.
pub queue_for_peer_server :
    ℕ → Bool → Memory → Bool → Response → Queues → Option (ℕ × Queues × Bool)
queue_for_peer_server max_pending flag mem construct_fails r qs =
    let (p, added, e) =
      add_response_to_server max_pending mem construct_fails flag r qs.peer_server in
    some (if added then 1 else 0, record qs { peer_server = p }, e)

-- Into the queues of clients.
pub queue_for_clients :
    ℕ → Bool → ℕ → List (ClientHandle × Memory) → Response → Queues → Option (ℕ × Queues × Bool)
queue_for_clients max_pending flag now handles r qs =
    add_response_to_clients_queues max_pending flag now r handles qs.clients >>= λ q.
    some (q.reference_count, record qs { clients = q.clients }, q.has_encountered_exception)

-- AddResponseToQueues. `mem` and `construct_fails` are what the memory does for a peer server.
pub add_response_to_queues :
    ℕ
    → ℕ
    → Bool
    → ℕ
    → List (ClientHandle × Memory)
    → Memory
    → Bool
    → ResponseObject
    → Queues
    → QueueStat
    → Option QueuedResponse
add_response_to_queues size_of_response max_pending flag now handles mem construct_fails o qs t =
    (if o.response.is_forward
      then queue_for_peer_server max_pending flag mem construct_fails o.response qs
      else queue_for_clients max_pending flag now handles o.response qs)
    >>= λ (n, qs', e). set_references size_of_response n o t >>= λ (t', o').
        some (record { queues = qs'; object = o'; stat = t'; has_encountered_exception = e })

pub count_unqueued : ℕ → ResponseObject → QueueStat → QueueStat
count_unqueued size_of_response o t =
    let m =
      t.memory_consumption_by_responses_in_queue - (length o.response.bytes + size_of_response) in
    if o.response.is_forward
    then record t {
      responses_in_peer_servers_queues = t.responses_in_peer_servers_queues - 1;
      memory_consumption_by_responses_in_queue = m;
    }
    else record t {
      responses_in_local_clients_queues = t.responses_in_local_clients_queues - 1;
      memory_consumption_by_responses_in_queue = m;
    }

-- The end of AfterSendingResponse: with its last reference the response is deleted. A response that was
-- deleted cannot be counted.
pub count_reference : ℕ → ResponseObject → QueueStat → Option (QueueStat × ResponseObject)
count_reference size_of_response o t =
    let n = o.response_sent_count + 1 in
    if o.deleted
    then none
    else if n == o.reference_count
    then some
        (count_unqueued size_of_response o t, record o { response_sent_count = n; deleted = true })
    else some (t, record o { response_sent_count = n })

-- The callbacks of this many queues.
pub count_references : ℕ → ℕ → ResponseObject → QueueStat → Option (QueueStat × ResponseObject)
count_references size_of_response zero o t = some (t, o)
count_references size_of_response (suc i) o t =
    count_reference size_of_response o t >>= λ (t', o'). count_references size_of_response i o' t'

-- GetResponsesInQueue
pub get_responses_in_queue : QueueStat → ℕ
get_responses_in_queue t = t.responses_in_peer_servers_queues + t.responses_in_local_clients_queues
