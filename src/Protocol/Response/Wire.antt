-- ===== src/Protocol/Response/Wire.antt =====
-- The bytes that the constructors of Pulsar/src/RequestResponse.cpp produce.
use pulsar_server_framework.Prelude.{
  ℕ, ◌+◌, ◌*◌, ◌%◌, ◌^◌, ◌<◌, ◌≡◌, refl, List, [], ◌∷◌, ◌++◌, some, ltb, if◌then◌else◌, length,
  length-append, All, arith,
}
use pulsar_server_framework.ByteOrder.{ByteOrder, be16, be32, be64}
use pulsar_server_framework.ByteOrder.Order64.{htonll_network}
use pulsar_server_framework.Handles.{ClientHandle}
use pulsar_server_framework.Protocol.Constants.{
  version_bytes, header_size, handle_bytes, registration_bytes, special_communication,
}
use pulsar_server_framework.Protocol.Frame.{framed}
use pulsar_server_framework.Protocol.Parser.{VersionParameters, Registry}
use pulsar_server_framework.Protocol.Response.{
  thrown, created, too_long, copied, construct_response_for_local_clients,
  construct_response_for_remote_clients, handles_array,
}

-- The handles in network order.
abbrev pub be_handles : List ClientHandle → List ℕ
be_handles [] = []
be_handles (h ∷ hs) = be64 h.client_registration_number ++ be_handles hs

-- What follows the header of a forwarded response.
abbrev pub forwarded_body : ℕ → List ClientHandle → List ℕ → List ℕ
forwarded_body version handles response =
    be16 version ++ (be32 (length handles) ++ (be_handles handles ++ response))

abbrev pub HasU64 : ClientHandle → Type 0
HasU64 h = h.client_registration_number < 2 ^ 64

pub length-be_handles : (hs : List ClientHandle) → length (be_handles hs) ≡ length hs * 8
length-be_handles [] = omega arith
length-be_handles (h ∷ hs) = omega (arith, length-be_handles hs)

module _ ⦃o : ByteOrder⦄ where
  handles_array-be : (hs : List ClientHandle) → All HasU64 hs → handles_array hs ≡ be_handles hs
  unfolding handles_array
  handles_array-be [] a = refl
  handles_array-be (h ∷ hs) (a, as') =
      rw (htonll_network h.client_registration_number a, handles_array-be hs as')

module _ ⦃o : ByteOrder⦄ (processors : Registry) where
  -- For a 16-bit version that has a processor, and a response whose length with the header fits 32 bits:
  -- it is made into a frame of that version if it is not longer than the version allows, and refused
  -- by an exception otherwise.
  pub construct_local_lem :
      (response : List ℕ) (version : ℕ) (p : VersionParameters)
      → version < 2 ^ 16
      → length response + header_size < 2 ^ 32
      → processors version ≡ some p
      → construct_response_for_local_clients processors response version ≡ (
          if ltb p.max_response_size (length response)
          then thrown
          else created (framed version (length response) response))
  unfolding construct_response_for_local_clients too_long copied
  construct_local_lem response version p hv hl known = ground (
    arith,
    known,
    o.htons_network version hv,
    wrapped,
    fits,
    o.htonl_network (length response) (omega arith),
  )
    where
      wrapped : length response % 2 ^ 32 ≡ length response
      wrapped = omega arith

      fits : (length response + header_size) % 2 ^ 32 ≡ length response + header_size
      fits = omega arith

  -- For a 16-bit version, 64-bit registration numbers and a total length that fits 32 bits, where the
  -- special version has a processor: a response for clients of another server is made into a frame of
  -- the special version, with the sender's version, the number of handles and the handles before it,
  -- if that is not longer than the special version allows, and refused by an exception otherwise.
  pub construct_remote_lem :
      (response : List ℕ) (handles : List ClientHandle) (version : ℕ) (p : VersionParameters)
      → version < 2 ^ 16
      → length response + 15 + length handles * 8 < 2 ^ 32
      → All HasU64 handles
      → processors special_communication ≡ some p
      → construct_response_for_remote_clients processors response handles version ≡ (
          if ltb p.max_response_size (length response + 6 + length handles * 8)
          then thrown
          else created (
              framed special_communication
                (length response + 6 + length handles * 8)
                (forwarded_body version handles response)))
  unfolding construct_response_for_remote_clients too_long copied
  construct_remote_lem response handles version p hv hl u64 known = ground (
    arith,
    known,
    o.htons_network version hv,
    o.htons_network special_communication (omega arith),
    handles_array-be handles u64,
    length-be_handles handles,
    length-append (be_handles handles) response,
    count,
    array,
    size,
    total,
    o.htonl_network (length handles) (omega arith),
    o.htonl_network (length response + 6 + length handles * 8) (omega arith),
  )
    where
      count : length handles % 2 ^ 32 ≡ length handles
      count = omega arith

      array : length handles * registration_bytes % 2 ^ 32 ≡ length handles * 8
      array = omega arith

      size :
          (length response + (version_bytes + handle_bytes + length handles * 8)) % 2 ^ 32
          ≡ length response + 6 + length handles * 8
      size = omega arith

      total :
          (length response + header_size + (version_bytes + handle_bytes + length handles * 8))
            % 2 ^ 32
          ≡ length response + 15 + length handles * 8
      total = omega arith
