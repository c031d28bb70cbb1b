-- ===== src/Client.antt =====
-- `stClient` and the part of the managers' state that its operations touch:
-- Pulsar/include/LocalClientsManager.h, ClientsPool.h, CommonComponents.h and TypeDefinitions.h.
use pulsar_server_framework.Prelude.{ℕ, ◌+◌, List, [], Bool, true, false}
use pulsar_server_framework.Handles.{ClientHandle}
use pulsar_server_framework.Protocol.Constants.{header_size, uninitialized_version}
use pulsar_server_framework.Protocol.Response.{Response}

-- `m_Request.base`: the member array m_Header of HEADER_SIZE + 1 bytes, or an array of that many bytes
-- from the heap.
pub data RequestBase : Type 0 where
  header : RequestBase
  heap : ℕ → RequestBase

pub record Client : Type 0 where
  pub client_handle : ClientHandle
  pub version : ℕ
  -- Connection.
  pub is_accepted : Bool
  pub is_read_started : Bool
  pub is_added_to_pool : Bool
  -- The pool's map has this client under its registration number.
  pub in_pool : Bool
  pub to_be_disconnected : Bool
  pub disconnect_initiated : Bool
  -- The request buffer: where it is, m_Request.len, the bytes below m_Request_Index, and
  -- m_RequestSizeFound.
  pub request_base : RequestBase
  pub request_len : ℕ
  pub request_bytes : List ℕ
  pub request_size_found : ℕ
  pub streaming : Bool
  pub allocated_for_streaming : Bool
  pub rejected_previous_bytes : Bool
  pub request_is_being_processed : Bool
  pub request_processing_finished : Bool
  -- m_LockRequestsResponses.
  pub requests : ℕ
  pub responses : ℕ
  pub last_activity_time : ℕ
  -- The two queues of responses, oldest first: the head is the back of the deque.
  pub responses_queue1 : List Response
  pub responses_queue2 : List Response
  pub responses_being_sent : List Response
  pub response_queue_full : Bool
  -- This client is in m_RecevingClientsSet1, and in m_RecevingClientsSet2.
  pub in_set1 : Bool
  pub in_set2 : Bool

-- The fields that the constructors of stClient and of its counts set. `now` is the system's clock.
unfoldable pub initial_client : ℕ → ClientHandle → Client
initial_client now h = record {
  client_handle = h;
  version = uninitialized_version;
  is_accepted = false;
  is_read_started = false;
  is_added_to_pool = false;
  in_pool = false;
  to_be_disconnected = false;
  disconnect_initiated = false;
  request_base = header;
  request_len = header_size + 1;
  request_bytes = [];
  request_size_found = 0;
  streaming = false;
  allocated_for_streaming = false;
  rejected_previous_bytes = false;
  request_is_being_processed = false;
  request_processing_finished = true;
  requests = 0;
  responses = 0;
  last_activity_time = now;
  responses_queue1 = [];
  responses_queue2 = [];
  responses_being_sent = [];
  response_queue_full = false;
  in_set1 = false;
  in_set2 = false;
}

-- The counters of ServerStat that the modelled operations change.
pub record ServerStat : Type 0 where
  pub clients_connected : ℕ
  pub clients_disconnected : ℕ
  pub disconnections_by_server : ℕ
  pub disconnections_by_clients : ℕ
  pub memory_consumption_by_clients : ℕ
  pub active_client_request_buffers : ℕ
  pub responses_being_sent_count : ℕ
  pub requests_arrived : ℕ
  pub requests_rejected_by_server : ℕ
  pub request_bytes_ignored : ℕ
  pub header_error_in_preamble : ℕ
  pub header_error_in_version : ℕ
  pub header_error_in_size : ℕ
  pub responses_sent : ℕ
  pub responses_keep_alives : ℕ
  pub responses_errors : ℕ
  pub responses_acknowledgements : ℕ
  pub responses_fatal_errors : ℕ
  pub responses_ordinary : ℕ
  pub responses_multicasts : ℕ
  pub responses_updates : ℕ
  pub total_response_bytes_sent : ℕ
  pub responses_failed_to_send : ℕ
  pub memory_allocation_exceptions : ℕ
  pub request_creation_exceptions : ℕ
  pub client_creation_exceptions : ℕ
  pub memory_consumption_by_requests_in_queue : ℕ
  pub request_processing_threads_started : ℕ
  pub request_processing_threads_finished : ℕ
  pub requests_processed : ℕ
  pub requests_failed_to_process : ℕ
  pub total_request_bytes_processed : ℕ

-- The state that all clients share.
pub record Server : Type 0 where
  pub stat : ServerStat
  pub response_direction_flag : Bool
  pub is_server_shutting_down : Bool
  pub queued_disconnections : ℕ
  pub clients_closing : ℕ
  pub all_clients_disconnected_for_shutdown : Bool

-- The constructor of stClient: clients are numbered from 1.
unfoldable pub new_client : ℕ → ℕ → Server → Server × Client
new_client now server_ipv4_address s =
    let t = s.stat in
    let n = t.clients_connected + 1 in
    (
      record s { stat = record t { clients_connected = n } },
      initial_client now
          (record { client_registration_number = n; server_ipv4_address = server_ipv4_address }),
    )
