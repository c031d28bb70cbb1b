-- ===== src/Protocol/Response.antt =====
-- Pulsar/src/RequestResponse.cpp: how a `Response` and the bytes that it sends are made.
pub mod Wire
pub mod Ends
use pulsar_server_framework.Prelude.{
  ℕ, ◌+◌, ◌*◌, ◌-◌, ◌%◌, ◌^◌, List, [], ◌∷◌, ◌++◌, Option, none, some, Bool, true, false, not, ◌&&◌,
  ◌||◌, ltb, ◌==◌, if◌then◌else◌, length,
}
use pulsar_server_framework.ByteOrder.{ByteOrder, htonll}
use pulsar_server_framework.Handles.{ClientHandle}
use pulsar_server_framework.Protocol.Constants.{
  msg_preamble, preamble_bytes, version_bytes, header_size, handle_bytes, registration_bytes,
  special_communication, max_handles_in_forwarded_response, response_ordinary, response_fatal_error,
}
use pulsar_server_framework.Protocol.Parser.{VersionParameters, Registry}

-- `thrown` is ResponseCreationException. `overrun` is no outcome that the code reports: the bytes
-- that are copied are more than `m_Response.len`, an unsigned 32-bit number, says. `failed` is a failed
-- assertion.
pub data Creation {ℓ} (A : Type ℓ) : Type ℓ where
  thrown : Creation A
  overrun : Creation A
  failed : Creation A
  created : A → Creation A

-- `(m_Response.len - HEADER_SIZE) > MaxResponseSize`. The difference is unsigned, and so huge where
-- the length is below the size of a header.
pub too_long : VersionParameters → ℕ → Bool
too_long p len = ltb len header_size || ltb p.max_response_size (len - header_size)

-- The copies into the `len` bytes that were allocated.
pub copied : ℕ → List ℕ → Creation (List ℕ)
copied len bytes = if ltb len (length bytes) then overrun else created bytes

module _ ⦃o : ByteOrder⦄ where
  -- The array of registration numbers, each in network order.
  pub handles_array : List ClientHandle → List ℕ
  handles_array [] = []
  handles_array (h ∷ hs) = o.bytes64 (htonll h.client_registration_number) ++ handles_array hs

module _ ⦃o : ByteOrder⦄ (processors : Registry) where
  -- preamble | version | size of response | response
  pub construct_response_for_local_clients : List ℕ → ℕ → Creation (List ℕ)
  construct_response_for_local_clients response version =
      let len = (length response + header_size) % 2 ^ 32 in
      elim (processors version) [
        | none ↦ thrown
        | some p ↦
            if too_long p len
            then thrown
            else copied len (
                msg_preamble
                ++ (o.bytes16 (o.htons version)
                    ++ (o.bytes32 (o.htonl (length response % 2 ^ 32)) ++ response)))
      ]

  -- preamble | FFFF | size | version | number of handles | handles | response
  pub construct_response_for_remote_clients : List ℕ → List ClientHandle → ℕ → Creation (List ℕ)
  construct_response_for_remote_clients response handles version =
      let number_of_handles = length handles % 2 ^ 32 in
      let handles_array_size = number_of_handles * registration_bytes % 2 ^ 32 in
      let additional_fields_size = version_bytes + handle_bytes + handles_array_size in
      let size = (length response + additional_fields_size) % 2 ^ 32 in
      let len = (length response + header_size + additional_fields_size) % 2 ^ 32 in
      elim (processors special_communication) [
        | none ↦ thrown
        | some p ↦
            if too_long p len
            then thrown
            else copied len (
                msg_preamble
                ++ (o.bytes16 (o.htons special_communication)
                    ++ (o.bytes32 (o.htonl size)
                        ++ (o.bytes16 (o.htons version)
                            ++ (o.bytes32 (o.htonl number_of_handles)
                                ++ (handles_array handles ++ response))))))
      ]

-- The fields that the managers read. Times are not modelled.
pub record Response : Type 0 where
  pub bytes : List ℕ
  pub is_forward : Bool
  pub is_update : Bool
  pub is_multicast : Bool
  pub server_ipv4_address : ℕ
  pub response_type : ℕ

-- A `char` as an `int`: a byte above 127 is negative, here its 32-bit pattern.
pub int_of_char : ℕ → ℕ
int_of_char b = if ltb b 128 then b else b + (2 ^ 32 - 256)

-- RESPONSE_ORDINARY, or the first byte of a response of the special version.
pub response_type_of : ℕ → List ℕ → ℕ
response_type_of version [] = response_ordinary
response_type_of version (b ∷ rest) =
    if version == special_communication then int_of_char b else response_ordinary

-- The end of the constructor, after the bytes were made.
pub finish_response :
    Bool → Bool → ℕ → List ℕ → List ClientHandle → ℕ → Creation (List ℕ) → Creation Response
finish_response forward update server response handles version thrown = thrown
finish_response forward update server response handles version overrun = overrun
finish_response forward update server response handles version failed = failed
finish_response forward update server response handles version (created bytes) = created (record {
  bytes = bytes;
  is_forward = forward;
  is_update = update;
  is_multicast = not (length handles == 1);
  server_ipv4_address = server;
  response_type = response_type_of version response;
})

-- The loop of assertions at the start of the constructor: all handles are of the first one's server.
pub of_one_server : ClientHandle → List ClientHandle → Bool
of_one_server first [] = true
of_one_server first (h ∷ hs) =
    h.server_ipv4_address == first.server_ipv4_address && of_one_server first hs

module _ ⦃o : ByteOrder⦄ (processors : Registry) (local_server : ℕ) where
  -- The constructor after its assertions.
  pub make_response : List ℕ → ClientHandle → List ClientHandle → ℕ → Bool → Creation Response
  make_response [] first more version update = thrown
  make_response (b ∷ bs) first more version update =
      let response = b ∷ bs in
      let handles = first ∷ more in
      let server = first.server_ipv4_address in
      if local_server == server
      then finish_response false update server response handles version
          (construct_response_for_local_clients processors response version)
      else if ltb max_handles_in_forwarded_response (length handles)
      then thrown
      else finish_response true update server response handles version
          (construct_response_for_remote_clients processors response handles version)

  -- The constructor: the handles are those from `StartIt` to `EndIt`, the first of them apart (the
  -- range is never empty). An empty `response` is a NULL or zero-length buffer.
  pub new_response : List ℕ → ClientHandle → List ClientHandle → ℕ → Bool → Creation Response
  new_response response first more version update =
      if not (of_one_server first more)
      then failed
      else make_response response first more version update

-- IsFatalErrorForLocallyConnectedClient
unfoldable pub is_fatal_error_for_locally_connected_client : Response → Bool
is_fatal_error_for_locally_connected_client r =
    not r.is_forward && r.response_type == response_fatal_error
