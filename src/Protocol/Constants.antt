-- ===== src/Protocol/Constants.antt =====
-- The constants of the MAI protocol, from Pulsar/include/Pulsar.h and
-- Pulsar/include/RequestProcessor.h.
use pulsar_server_framework.Prelude.{ℕ, ◌+◌, ◌*◌, ◌/◌, List, [], ◌∷◌}

-- MSG_PREAMBLE "MAI".
abbrev pub msg_preamble : List ℕ
msg_preamble = b'M' ∷ b'A' ∷ b'I' ∷ []

abbrev pub preamble_bytes : ℕ
preamble_bytes = 3

abbrev pub version_bytes : ℕ
version_bytes = 2

abbrev pub size_bytes : ℕ
size_bytes = 4

abbrev pub header_size : ℕ
header_size = preamble_bytes + version_bytes + size_bytes

abbrev pub handle_bytes : ℕ
handle_bytes = 4

-- sizeof(UINT64), the size of a client registration number.
abbrev pub registration_bytes : ℕ
registration_bytes = 8

abbrev pub special_communication : ℕ
special_communication = 0xFFFF

abbrev pub uninitialized_version : ℕ
uninitialized_version = 0

abbrev pub response_keep_alive : ℕ
response_keep_alive = 0

abbrev pub response_error : ℕ
response_error = 1

abbrev pub response_acknowledgement : ℕ
response_acknowledgement = 2

abbrev pub response_fatal_error : ℕ
response_fatal_error = 3

abbrev pub response_ordinary : ℕ
response_ordinary = 0xFF

abbrev pub buffer_size_in_kilobytes_for_handles : ℕ
buffer_size_in_kilobytes_for_handles = 128

abbrev pub max_handles_in_forwarded_response : ℕ
max_handles_in_forwarded_response = 1024 * buffer_size_in_kilobytes_for_handles / registration_bytes

abbrev pub max_possible_request_response_size : ℕ
max_possible_request_response_size = 1024 * 1024
