-- ===== src/Protocol/Parser.antt =====
-- Pulsar/src/RequestParser.cpp: `ValidateProtocolAndExtractRequest`.
pub mod Safety
pub mod Frames
pub mod Parts
use pulsar_server_framework.Prelude.{
  ℕ, ◌+◌, List, [], ◌∷◌, Option, none, some, Bool, true, false, not, ◌&&◌, ◌||◌, ltb, ◌==◌,
  if◌then◌else◌, ◌>>=◌, get_elem?,
}
use pulsar_server_framework.ByteOrder.{ByteOrder}
use pulsar_server_framework.Protocol.Constants.{
  msg_preamble, preamble_bytes, version_bytes, header_size, uninitialized_version,
}
use pulsar_server_framework.Protocol.Reader.{read16, read32}

-- VersionParameters of Pulsar/include/TypeDefinitions.h. Both sizes are positive C ints.
pub record VersionParameters : Type 0 where
  pub max_request_size : ℕ
  pub max_response_size : ℕ

-- What the parser returns: REQUEST_FOUND, INVALID_HEADER, INVALID_VERSION, INVALID_SIZE and
-- WAIT_FOR_MORE_BYTES.
pub data ParseCode : Type 0 where
  request_found invalid_header invalid_version invalid_size wait_for_more_bytes : ParseCode

-- `uv_buf_t`: where the request begins in the input buffer (`none` is NULL), and its length.
pub record Buffer : Type 0 where
  pub base : Option ℕ
  pub len : ℕ

-- The return code, and the two parameters that are passed by reference.
pub record Parsed : Type 0 where
  pub code : ParseCode
  pub existing_version : ℕ
  pub request_out : Buffer

-- The loop that compares the preamble, from the byte `i` on.
pub preamble_matches : List ℕ → ℕ → List ℕ → Option Bool
preamble_matches input_buffer i [] = some true
preamble_matches input_buffer i (c ∷ cs) =
    let rest = preamble_matches input_buffer (i + 1) cs in
    do b ← get_elem? input_buffer i; if b == c then rest else some false

-- The registered request processors, as the parameters of each version that has one.
abbrev pub Registry : Type 0
Registry = ℕ → Option VersionParameters

-- From the check of the size on: the version is accepted.
pub check_size : Registry → ℕ → ℕ → Buffer → ℕ → Parsed
check_size processors buffer_length version out req_size =
    if req_size == 0 then report invalid_size out else elim (processors version) [
      | none ↦ report invalid_version out
      | some p ↦
          if ltb p.max_request_size req_size
          then report invalid_size out
          else if ltb buffer_length (req_size + header_size)
          then report wait_for_more_bytes (record out { len = req_size })
          else report request_found (record { base = some header_size; len = req_size })
    ]
  where
    report : ParseCode → Buffer → Parsed
    report c b = record { code = c; existing_version = version; request_out = b }

-- A version is refused if it is not initialised, or differs from that of the client's first request.
-- (`Version > 0xFFFF` never holds of a USHORT.)
unfoldable pub version_refused : ℕ → ℕ → Bool
version_refused existing version =
    ltb 0xFFFF version
    || version == uninitialized_version
    || (not (existing == uninitialized_version) && not (existing == version))

pub check_version : ⦃o : ByteOrder⦄ → Registry → List ℕ → ℕ → ℕ → Buffer → ℕ → Option Parsed
check_version processors input_buffer buffer_length existing out version =
    if version_refused existing version
    then some (record { code = invalid_version; existing_version = existing; request_out = out })
    else do
      req_size ← read32 input_buffer (preamble_bytes + version_bytes)
      some (check_size processors buffer_length version out req_size)

-- `none` is a read past the end of `input_buffer`.
pub validate_protocol_and_extract_request :
    ⦃o : ByteOrder⦄ → Registry → List ℕ → ℕ → ℕ → Buffer → Option Parsed
validate_protocol_and_extract_request processors input_buffer buffer_length existing out =
    if ltb buffer_length (header_size + 1)
    then some
        (record { code = wait_for_more_bytes; existing_version = existing; request_out = out })
    else do
      matches ← preamble_matches input_buffer 0 msg_preamble
      let version = read16 input_buffer preamble_bytes
      if matches
          then version >>= check_version processors input_buffer buffer_length existing out
          else some
              (record { code = invalid_header; existing_version = existing; request_out = out })
