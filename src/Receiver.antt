-- ===== src/Receiver.antt =====
-- How a client's bytes become requests: Pulsar/src/LocalClientsManager.cpp, from `alloc_buffer` and
-- `on_read` to the end of a request's processing. `none` is a failed assertion or a NULL that is
-- dereferenced. `DoPeriodicActivities`, which the callbacks call last, is a step of its own.
pub mod Reading
pub mod Memory
pub mod Frames
pub mod Stream
pub mod Processing
use pulsar_server_framework.Prelude.{
  ℕ, ◌+◌, ◌-◌, List, [], ◌∷◌, ◌++◌, Option, none, some, Bool, true, false, not, ◌&&◌, ◌||◌, ltb,
  ◌==◌, if◌then◌else◌, ◌>>=◌, length, take, drop,
}
use pulsar_server_framework.ByteOrder.{ByteOrder}
use pulsar_server_framework.Client.{Client, Server, ServerStat, RequestBase, header, heap}
use pulsar_server_framework.Lifecycle.{Disconnected, mark_to_disconnect, disconnect_and_delete}
use pulsar_server_framework.Pool.{
  request_count, increase_count_for_client, decrease_count_for_client,
}
use pulsar_server_framework.Protocol.Constants.{
  header_size, uninitialized_version, special_communication,
}
use pulsar_server_framework.Protocol.Parser.{
  VersionParameters, ParseCode, request_found, invalid_header, invalid_version, invalid_size,
  wait_for_more_bytes, Buffer, Parsed, Registry, validate_protocol_and_extract_request,
}

-- sizeof (m_Header)
abbrev pub header_length : ℕ
header_length = header_size + 1

-- GetVersionParameters, where its result is dereferenced.
unfoldable pub get_version_parameters : Registry → ℕ → Option VersionParameters
get_version_parameters processors version =
    if version == uninitialized_version then none else processors version

-- What a buffer for streaming takes.
pub streaming_memory : Registry → Client → Option ℕ
streaming_memory processors c = do
  p ← get_version_parameters processors c.version
  some (p.max_request_size + header_size)

pub rewound : Client → Client
rewound c = record c { request_len = header_length; request_bytes = [] }

-- The branch of ResetRequestBuffer that deletes the buffer.
pub release : Registry → Server → Client → Option (Server × Client)
release processors s c =
    let memory =
      if c.allocated_for_streaming then streaming_memory processors c else some (c.request_len) in
    do
      m ← memory
      let t = s.stat
      some (
        record s {
          stat = record t {
            memory_consumption_by_clients = t.memory_consumption_by_clients - m;
            active_client_request_buffers = t.active_client_request_buffers - 1;
          };
        },
        rewound (record c { request_base = header; allocated_for_streaming = false }),
      )

-- ResetRequestBuffer
pub reset_request_buffer : Registry → Server → Client → Option (Server × Client)
reset_request_buffer processors s c = elim c.request_base [
  | header ↦ some (s, rewound c)
  | heap n ↦
      if not c.streaming || not c.allocated_for_streaming
      then release processors s c
      else some (s, rewound c)
]

-- A request of this size gets its buffer; `m` is what is allocated.
pub allocated : ℕ → Server → Client → Server × Client
allocated m s c =
    let t = s.stat in
    (
      record s {
        stat = record t {
          memory_consumption_by_clients = t.memory_consumption_by_clients + m;
          active_client_request_buffers = t.active_client_request_buffers + 1;
        };
      },
      record c {
        request_base = heap m;
        request_len = c.request_size_found + header_size;
        allocated_for_streaming = c.streaming;
        request_size_found = 0;
      },
    )

-- The handler of bad_alloc.
pub allocation_failed : Server → Client → Server × Client
allocation_failed s c =
    let t = s.stat in
    let r =
      disconnect_and_delete true
        (record s {
          stat = record t { memory_allocation_exceptions = t.memory_allocation_exceptions + 1 };
        })
        (record c { request_base = header; request_len = header_length }) in
    (r.server, r.client)

pub allocate : Registry → Bool → Server → Client → Option (Server × Client)
allocate processors allocation_fails s c = do
  m ←
      if c.streaming
      then streaming_memory processors c
      else some (c.request_size_found + header_size)
  some (if allocation_fails then allocation_failed s c else allocated m s c)

-- The header has been read and more bytes are needed.
pub extend : Registry → Bool → Server → Client → Option (Server × Client)
extend processors allocation_fails s c =
    if not (length c.request_bytes == header_length) then none else elim c.request_base [
      | header ↦
          if c.allocated_for_streaming then none else allocate processors allocation_fails s c
      | heap n ↦
          if c.streaming && c.allocated_for_streaming
          then some (
            s,
            record c { request_len = c.request_size_found + header_size; request_size_found = 0 },
          )
          else none
    ]

-- The check of the size that is handed to libuv.
pub size_allowed : Registry → Client → ℕ → Option Bool
size_allowed processors c size_available =
    if c.version == uninitialized_version
    then some true
    else do m ← streaming_memory processors c; some (not (ltb m size_available))

-- GetRequestBuffer: the state, and the bytes that libuv may read.
pub get_request_buffer : Registry → Bool → Server → Client → Option (Server × Client × ℕ)
get_request_buffer processors allocation_fails s c = do
  (s', c') ←
      if c.request_len - length c.request_bytes == 0 && ltb 0 c.request_size_found
      then extend processors allocation_fails s c
      else some (s, c)
  allowed ← size_allowed processors c' (c'.request_len - length c'.request_bytes)
  if allowed then some (s', c', c'.request_len - length c'.request_bytes) else none

-- alloc_buffer
pub alloc_buffer : Registry → Bool → Server → Client → Option (Server × Client × ℕ)
alloc_buffer processors allocation_fails s c = do
  (s', c', size_available) ← get_request_buffer processors allocation_fails s c
  if not (size_available == 0) && c'.request_is_being_processed
      then none
      else some (s', c', size_available)
