-- ===== src/Examples/Clients.antt =====
-- Clients of the pool and their requests at concrete states: Pulsar/src/LocalClientsManager.cpp,
-- Pulsar/src/ClientsPool.cpp.
use pulsar_server_framework.Prelude.{
  ℕ, ◌+◌, ◌≤◌, ◌≡◌, refl, List, [], ◌∷◌, some, true, false, arith,
}
use pulsar_server_framework.Client.{Client, Server, ServerStat, heap, initial_client}
use pulsar_server_framework.Lifecycle.{disconnect_and_delete}
use pulsar_server_framework.Lifecycle.Disconnection.{
  IsConsistent, IsSafeDisconnection, disconnect_and_delete-IsSafe,
}
use pulsar_server_framework.Pool.{response_count, remove_client, increase_count_for_client}
use pulsar_server_framework.Pool.Counts.{remove_client-closes}
use pulsar_server_framework.Protocol.Constants.{header_size}
use pulsar_server_framework.Protocol.Frame.{framed}
use pulsar_server_framework.Protocol.Parser.{version_refused}
use pulsar_server_framework.Receiver.{get_version_parameters, reset_request_buffer, extend}
use pulsar_server_framework.Receiver.Memory.{after_header, extend-reset}
use pulsar_server_framework.Receiver.Reading.{Making, extract_request_off_the_buffer}
use pulsar_server_framework.Receiver.Frames.{IsWaiting, extract_request-frame}
use pulsar_server_framework.Examples.Machine.{little_endian}
use pulsar_server_framework.Examples.Frames.{registry, default_parameters, hello, sender}

abbrev no_stat : ServerStat
no_stat = record {
  clients_connected = 0;
  clients_disconnected = 0;
  disconnections_by_server = 0;
  disconnections_by_clients = 0;
  memory_consumption_by_clients = 0;
  active_client_request_buffers = 0;
  responses_being_sent_count = 0;
  requests_arrived = 0;
  requests_rejected_by_server = 0;
  request_bytes_ignored = 0;
  header_error_in_preamble = 0;
  header_error_in_version = 0;
  header_error_in_size = 0;
  responses_sent = 0;
  responses_keep_alives = 0;
  responses_errors = 0;
  responses_acknowledgements = 0;
  responses_fatal_errors = 0;
  responses_ordinary = 0;
  responses_multicasts = 0;
  responses_updates = 0;
  total_response_bytes_sent = 0;
  responses_failed_to_send = 0;
  memory_allocation_exceptions = 0;
  request_creation_exceptions = 0;
  client_creation_exceptions = 0;
  memory_consumption_by_requests_in_queue = 0;
  request_processing_threads_started = 0;
  request_processing_threads_finished = 0;
  requests_processed = 0;
  requests_failed_to_process = 0;
  total_request_bytes_processed = 0;
}

abbrev pub server : Server
server = record {
  stat = no_stat;
  response_direction_flag = true;
  is_server_shutting_down = false;
  queued_disconnections = 0;
  clients_closing = 0;
  all_clients_disconnected_for_shutdown = false;
}

-- A client of the pool with nothing pending.
abbrev pub pooled : Client
pooled = record (initial_client 0 sender) {
  is_accepted = true;
  is_read_started = true;
  is_added_to_pool = true;
  in_pool = true;
}

pub pooled-IsConsistent : IsConsistent pooled
unfolding initial_client
pooled-IsConsistent = ground arith

pooled-removed : (remove_client pooled).1 ≡ true
unfolding remove_client initial_client
pooled-removed = refl

-- The same client once its version is known.
abbrev versioned : Client
versioned = record pooled { version = 5 }

versioned-parameters : get_version_parameters registry versioned.version ≡ some default_parameters
unfolding get_version_parameters
versioned-parameters = refl

disconnect_and_delete-IsSafe_example :
    IsSafeDisconnection server pooled (disconnect_and_delete true server pooled)
disconnect_and_delete-IsSafe_example =
    disconnect_and_delete-IsSafe true server pooled pooled-IsConsistent refl

remove_client-closes_example :
    (pooled.requests ≡ 0)
    × (pooled.responses ≡ 0)
    × (increase_count_for_client sender response_count 5 (remove_client pooled).0
        ≡ some ((remove_client pooled).0, false))
remove_client-closes_example = remove_client-closes pooled sender response_count 5 pooled-removed

abbrev header_bytes : List ℕ
header_bytes = framed 5 2 (104 ∷ [])

extend-reset_example :
    (m : ℕ) × (s' : Server) × (c' : Client) × (extend registry false server
        (after_header header_bytes 2 versioned)
      ≡ some (s', c'))
    × (c'.request_len ≡ 2 + header_size)
    × (c'.request_base ≡ heap m)
    × (2 + header_size ≤ m)
    × (c'.request_bytes ≡ header_bytes)
    × (s'.stat.memory_consumption_by_clients ≡ server.stat.memory_consumption_by_clients + m)
    × (reset_request_buffer registry s' (record c' { streaming = false })
        ≡ some (server, after_header [] 0 (record versioned { streaming = false })))
extend-reset_example =
    extend-reset registry server versioned header_bytes 2 default_parameters refl
      versioned-parameters (omega arith)

-- The header and the first byte of a request have been read, and its buffer has been allocated.
abbrev reading : Client
reading = record pooled {
  version = 5;
  request_base = heap 11;
  request_len = 11;
  request_bytes = header_bytes;
}

abbrev making : Making
making = record { allocation_fails = false; now = 7; size_of_request = 200 }

reading-IsWaiting : IsWaiting reading
unfolding initial_client
reading-IsWaiting = record { in_pool = refl; unmarked = refl; not_processing = refl }

extract_request-frame_example :
    (s' : Server) × (c' : Client) × (extract_request_off_the_buffer registry making
        (105 ∷ [])
        server
        reading
      ≡ some (record { server = s'; client = c'; queued = some hello }))
    × (c'.version ≡ 5)
    × (c'.request_is_being_processed ≡ true)
    × (c'.requests ≡ reading.requests + 1)
extract_request-frame_example =
    extract_request-frame registry making 5 hello (105 ∷ []) default_parameters server reading refl
      (omega arith) (omega arith) (unfold version_refused in refl) refl (omega arith) (omega arith)
      (omega arith) refl reading-IsWaiting
