-- ===== src/Examples/Server.antt =====
-- Clients that come, responses with several references, and the shutdown, at concrete states:
-- Pulsar/src/LocalClientsManager.cpp, Pulsar/src/ConnectionsManager.cpp, Pulsar/src/CommonComponents.cpp.
use pulsar_server_framework.Prelude.{
  ◌+◌, ◌≤◌, ◌≡◌, refl, [], ◌∷◌, some, true, false, Bool, ◌==◌, arith,
}
use pulsar_server_framework.Client.{Client, initial_client}
use pulsar_server_framework.Handles.{ClientHandle}
use pulsar_server_framework.Lifecycle.Disconnection.{IsConsistent}
use pulsar_server_framework.Delivery.{Memory}
use pulsar_server_framework.Delivery.Clients.{QueuedFor, add_response_to_clients_queues}
use pulsar_server_framework.Delivery.Clients.Counting.{
  IsQueuedFor, add_response_to_clients_queues-IsQueuedFor,
}
use pulsar_server_framework.Lifecycle.Accepting.{Arrival, started, on_new_client}
use pulsar_server_framework.Lifecycle.Accepting.Settling.{IsSettled, on_new_client-IsSettled}
use pulsar_server_framework.Manager.{
  QueueStat, count_queued, get_responses_in_queue, response_object,
}
use pulsar_server_framework.Manager.References.{counted_object, lifetime, lifetime_lem}
use pulsar_server_framework.Shutdown.{
  nothing_closed, Surroundings, are_clients_gone, is_output_stopped, initiate_server_shutdown,
}
use pulsar_server_framework.Shutdown.Clients.{
  IsShuttingDown, initiate_server_shutdown-IsShuttingDown,
}
use pulsar_server_framework.Shutdown.Order.{
  IsQuiet, close_down_all, done_until, AllGuarded, close_down_all-in_order, close_down_all-ends,
}
use pulsar_server_framework.Examples.Clients.{server, pooled, pooled-IsConsistent}
use pulsar_server_framework.Examples.Frames.{sender}
use pulsar_server_framework.Examples.Queues.{
  ordinary, ordinary-IsSendable, queued, queued-IsDelivering,
}

abbrev memory_lasts : Memory
memory_lasts = record { queue_push_fails = false; set_insert_fails = false }

add_response_to_clients_queues-IsQueuedFor_example :
    (q : QueuedFor) × (add_response_to_clients_queues 10 true 5 ordinary
        ((sender, memory_lasts) ∷ [])
        (queued ∷ [])
      ≡ some q)
    × IsQueuedFor 2000 10 (queued ∷ []) q
    × (q.reference_count ≤ 1)
add_response_to_clients_queues-IsQueuedFor_example =
    add_response_to_clients_queues-IsQueuedFor 2000 10 true 5 ordinary ((sender, memory_lasts) ∷ [])
      (queued ∷ []) ordinary-IsSendable (refl, tt)
      (record { delivering = queued-IsDelivering; at_home = unfold initial_client in refl }, tt)

abbrev empty_queues : QueueStat
empty_queues = record {
  memory_allocation_exception_count = 0;
  client_creation_exception_count = 0;
  connection_creation_exception_count = 0;
  request_creation_exception_count = 0;
  response_creation_exception_count = 0;
  responses_in_peer_servers_queues = 0;
  responses_in_local_clients_queues = 0;
  memory_consumption_by_responses_in_queue = 0;
  responses_failed_to_queue = 0;
}

lifetime_lem_example :
    (lifetime 100 3 2 ordinary empty_queues
      ≡ some
          (count_queued 100 (response_object ordinary) empty_queues, counted_object ordinary 3 2))
    × (lifetime 100 3 3 ordinary empty_queues
        ≡ some (empty_queues, record (counted_object ordinary 3 3) { deleted = true }))
    × (get_responses_in_queue (count_queued 100 (response_object ordinary) empty_queues)
        ≡ get_responses_in_queue empty_queues + 1)
lifetime_lem_example = lifetime_lem 100 ordinary empty_queues 3 2 (omega arith) (omega arith)

-- A run of DoPeriodicActivities while a response is queued, and one that finds nothing to wait for.
abbrev settled : Surroundings
settled = record {
  all_clients_disconnected = true;
  responses_in_queue = 0;
  is_server_stopped = true;
  clients_closing = 0;
  active_processors = 0;
  servers_closing = 0;
  servers_connecting = 0;
  logger_stops = true;
  file_writer_stops = true;
}

abbrev busy : Surroundings
busy = record settled { responses_in_queue = 1 }

close_down_all-in_order_example :
    ((close_down_all (busy ∷ settled ∷ busy ∷ []) nothing_closed).1
      ≡ done_until (close_down_all (busy ∷ settled ∷ busy ∷ []) nothing_closed).0)
    × AllGuarded (busy ∷ settled ∷ busy ∷ []) nothing_closed
close_down_all-in_order_example = close_down_all-in_order (busy ∷ settled ∷ busy ∷ [])

settled-IsQuiet : IsQuiet settled
settled-IsQuiet = record {
  gone = unfold are_clients_gone in refl;
  no_processors = refl;
  output_stopped = unfold is_output_stopped in refl;
}

close_down_all-ends_example :
    (close_down_all
      (settled ∷ settled ∷ settled ∷ [])
      (close_down_all (busy ∷ settled ∷ []) nothing_closed).0).0
    ≡ record {
      request_processors_deleted = true;
      connections_disconnected_and_closed = true;
      stdin_close_initiated = true;
    }
close_down_all-ends_example =
    close_down_all-ends (busy ∷ settled ∷ []) settled settled settled settled-IsQuiet
      settled-IsQuiet settled-IsQuiet

-- The second of two clients is left out.
abbrev neighbour : Client
neighbour = record pooled {
  client_handle = record { client_registration_number = 10; server_ipv4_address = 2000 };
}

neighbour-IsConsistent : IsConsistent neighbour
unfolding initial_client
neighbour-IsConsistent = ground arith

abbrev forgets_the_tenth : ClientHandle → Bool
forgets_the_tenth h = h.client_registration_number == 10

initiate_server_shutdown-IsShuttingDown_example :
    IsShuttingDown forgets_the_tenth server
      (pooled ∷ neighbour ∷ [])
      (initiate_server_shutdown forgets_the_tenth false server (pooled ∷ neighbour ∷ []))
initiate_server_shutdown-IsShuttingDown_example =
    initiate_server_shutdown-IsShuttingDown forgets_the_tenth false server (pooled ∷ neighbour ∷ [])
      (pooled-IsConsistent, (neighbour-IsConsistent, tt))

-- A client whose receive buffer cannot be set.
abbrev turned_down : Arrival
turned_down = record {
  status_ok = true;
  callback_error = false;
  new_fails = false;
  locks_fail = false;
  reserve_fails = false;
  accepts = true;
  send_buffer_set = true;
  receive_buffer_set = false;
  read_start = started;
  map_fails = false;
  now = 7;
}

on_new_client-IsSettled_example :
    IsSettled turned_down server
      (on_new_client 4096 2000 turned_down server).0
      (on_new_client 4096 2000 turned_down server).1
on_new_client-IsSettled_example = on_new_client-IsSettled 4096 2000 turned_down server
