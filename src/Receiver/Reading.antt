-- ===== src/Receiver/Reading.antt =====
-- From the bytes that libuv has read to the request that is queued, and from the end of its processing
-- to the buffer's reset: Pulsar/src/LocalClientsManager.cpp, `on_read`, `ExtractRequestOffTheBuffer`,
-- `CreateRequestAndQueue`, `after_request_processing_thread`.
use pulsar_server_framework.Prelude.{
  ℕ, ◌+◌, ◌-◌, List, [], ◌++◌, Option, none, some, Bool, true, false, not, ◌&&◌, ◌||◌, ltb, ◌==◌,
  if◌then◌else◌, ◌>>=◌, length, take, drop,
}
use pulsar_server_framework.ByteOrder.{ByteOrder}
use pulsar_server_framework.Client.{Client, Server, RequestBase, header, heap}
use pulsar_server_framework.Lifecycle.{mark_to_disconnect, disconnect_and_delete}
use pulsar_server_framework.Pool.{
  request_count, increase_count_for_client, decrease_count_for_client,
}
use pulsar_server_framework.Protocol.Constants.{header_size, special_communication}
use pulsar_server_framework.Protocol.Parser.{
  ParseCode, request_found, invalid_header, invalid_version, invalid_size, wait_for_more_bytes,
  Buffer, Registry, validate_protocol_and_extract_request,
}
use pulsar_server_framework.Receiver.{header_length, reset_request_buffer}

-- The state after an event of a client, and the request that it has queued, if any.
pub record Received : Type 0 where
  pub server : Server
  pub client : Client
  pub queued : Option (List ℕ)

unfoldable pub received : Server → Client → Received
received s c = record { server = s; client = c; queued = none }

pub disconnected : Server → Client → Received
disconnected s c = let r = disconnect_and_delete true s c in received r.server r.client

-- ProcessHeaderError
pub process_header_error : ParseCode → Server → Client → Received
process_header_error code s c =
    let t = s.stat in
    disconnected
      (record s {
        stat = elim code [
          | invalid_header ↦ record t { header_error_in_preamble = t.header_error_in_preamble + 1 }
          | invalid_version ↦ record t { header_error_in_version = t.header_error_in_version + 1 }
          | invalid_size ↦ record t { header_error_in_size = t.header_error_in_size + 1 }
          | _ ↦ t
        ];
      })
      c

-- Whether `new Request` throws bad_alloc, the time, and sizeof (Request).
pub record Making : Type 0 where
  pub allocation_fails : Bool
  pub now : ℕ
  pub size_of_request : ℕ

-- The handler of bad_alloc in CreateRequestAndQueue.
pub request_allocation_failed : Server → Client → Received
request_allocation_failed s c =
    let r = if c.version == special_communication then received s c else disconnected s c in
    let t = r.server.stat in
    record r {
      server = record (r.server) {
        stat = record t { memory_allocation_exceptions = t.memory_allocation_exceptions + 1 };
      };
    }

-- The request has been constructed and is queued.
unfoldable pub queue_request : Making → List ℕ → Server → Client → Option Received
queue_request m body s c =
    let t = s.stat in
    if c.request_is_being_processed
    then none
    else some (record {
      server = record s {
        stat = record t {
          requests_arrived = t.requests_arrived + 1;
          memory_consumption_by_requests_in_queue =
              t.memory_consumption_by_requests_in_queue + (length body + m.size_of_request);
        };
      };
      client = record c { request_is_being_processed = true; request_processing_finished = false };
      queued = some body;
    })

-- CreateRequestAndQueue, with the constructor of Request.
unfoldable pub create_request_and_queue : Making → List ℕ → Server → Client → Option Received
create_request_and_queue m body s c =
    if m.allocation_fails then some (request_allocation_failed s c) else do
      (c', increased) ← increase_count_for_client c.client_handle request_count m.now c
      let t = s.stat
      if increased
          then queue_request m body s c'
          else some (
              received
                (record s {
                  stat = record t {
                    request_creation_exceptions = t.request_creation_exceptions + 1;
                  };
                })
                c')

-- What REQUEST_FOUND does for a request that CreateRequestAndQueue did not create.
unfoldable pub reject_if_none : ℕ → Received → Received
reject_if_none len r =
    let t = r.server.stat in
    elim r.queued [
      | some body ↦ r
      | none ↦ record r {
        server = record (r.server) {
          stat = record t {
            request_bytes_ignored = t.request_bytes_ignored + len;
            requests_rejected_by_server = t.requests_rejected_by_server + 1;
          };
        };
        client = record (r.client) { request_bytes = [] };
      }
    ]

-- The case REQUEST_FOUND: the request lies in the bytes that were read, and in the buffer.
unfoldable pub found : Making → Buffer → Server → Client → Option Received
found m request s c = do
  base ← request.base
  let index = length c.request_bytes
  if ltb index (base + request.len)
        || (ltb index (header_size + request.len) || ltb c.request_len (header_size + request.len))
      then none
      else create_request_and_queue m (take request.len (drop base c.request_bytes)) s
          (record c { rejected_previous_bytes = false })
        >>= λ r. some (reject_if_none request.len r)

-- The cases INVALID_HEADER, INVALID_VERSION and INVALID_SIZE.
unfoldable pub invalid : ParseCode → Server → Client → Received
invalid code s c =
    let t = s.stat in
    let s' = record s {
      stat = record t { request_bytes_ignored = t.request_bytes_ignored + length c.request_bytes };
    } in
    let c' = record c { request_bytes = [] } in
    if c.rejected_previous_bytes then received s' c' else process_header_error code s' c'

unfoldable pub is_header : RequestBase → Bool
is_header header = true
is_header (heap n) = false

-- The case WAIT_FOR_MORE_BYTES.
unfoldable pub wait : Buffer → Server → Client → Option Received
wait request s c =
    let index = length c.request_bytes in
    let in_header_buffer = c.allocated_for_streaming || is_header c.request_base in
    if index == header_length
    then if in_header_buffer && (ltb 0 request.len && c.request_len == header_length)
      then some (received s (record c { request_size_found = request.len }))
      else none
    else if ltb header_length index
    then if not (is_header c.request_base)
        && (ltb 0 request.len
            && (c.request_len == request.len + header_size && ltb index c.request_len))
      then some (received s c)
      else none
    else if in_header_buffer && c.request_len == header_length
    then some (received s c)
    else none

-- ExtractRequestOffTheBuffer, for the bytes that libuv has put behind those of the client.
unfoldable pub extract_request_off_the_buffer :
    ⦃o : ByteOrder⦄ → Registry → Making → List ℕ → Server → Client → Option Received
extract_request_off_the_buffer processors m bytes s c =
    let all = c.request_bytes ++ bytes in
    do
      p ←
          validate_protocol_and_extract_request processors all (length all) c.version
            (record { base = none; len = 0 })
      let c' = record c { request_bytes = all; version = p.existing_version }
      if ltb c.request_len (length all) then none else elim p.code [
        | request_found ↦ found m p.request_out s c'
        | invalid_header ↦ some (invalid invalid_header s c')
        | invalid_version ↦ some (invalid invalid_version s c')
        | invalid_size ↦ some (invalid invalid_size s c')
        | wait_for_more_bytes ↦ wait p.request_out s c'
      ]

-- What libuv reports: nothing (0, or UV_ENOBUFS for a full buffer), an error, or bytes.
pub data Read : Type 0 where
  nothing error : Read
  bytes_read : List ℕ → Read

-- on_read. `shutdown_initiated` is the pool's flag.
unfoldable pub on_read :
    ⦃o : ByteOrder⦄ → Registry → Making → Bool → Read → Server → Client → Option Received
on_read processors m shutdown_initiated nothing s c = some (received s c)
on_read processors m shutdown_initiated error s c =
    let r = disconnect_and_delete false s c in some (received r.server r.client)
on_read processors m shutdown_initiated (bytes_read bytes) s c =
    let t = s.stat in
    let extracted = extract_request_off_the_buffer processors m bytes s c in
    if shutdown_initiated || c.to_be_disconnected
    then some (
        received
          (record s {
            stat = record t { request_bytes_ignored = t.request_bytes_ignored + length bytes };
          })
          (record c { request_bytes = []; rejected_previous_bytes = true }))
    else extracted

-- after_request_processing_thread for a request that was not deferred: the buffer is reset before
-- the client's flag.
unfoldable pub finish_request : Registry → Making → Server → Client → Option Received
finish_request processors m s c = do
  (s', c') ← reset_request_buffer processors s c
  let t = s'.stat
  let s3 = record s' {
    stat = record t {
      memory_consumption_by_requests_in_queue =
          t.memory_consumption_by_requests_in_queue - m.size_of_request;
    };
  }
  c3 ←
      decrease_count_for_client request_count m.now
        (record c' { request_is_being_processed = false; request_processing_finished = true })
  some (if c3.to_be_disconnected then disconnected s3 c3 else received s3 c3)

-- after_request_processing_thread. A deferred request is queued again; on an error status it returns
-- at once.
unfoldable pub after_request_processing_thread :
    Registry → Making → Bool → Bool → Bool → List ℕ → Server → Client → Option Received
after_request_processing_thread processors m failed memory_allocation_exception deferred body s c =
    let marked = mark_to_disconnect true s c in
    let (s', c') =
      if memory_allocation_exception && not (c.version == special_communication)
      then marked
      else (s, c) in
    let finished = finish_request processors m s' c' in
    if failed
    then some (received s c)
    else if deferred
    then some (record { server = s'; client = c'; queued = some body })
    else finished
