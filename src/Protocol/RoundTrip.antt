-- ===== src/Protocol/RoundTrip.antt =====
-- A response on its way between two servers: made by Pulsar/src/RequestResponse.cpp, taken off the
-- wire by Pulsar/src/RequestParser.cpp, processed by
-- Pulsar/src/RequestProcessor_ForwardedResponses.cpp.
use pulsar_server_framework.Prelude.{
  ℕ, ◌+◌, ◌*◌, ◌^◌, ◌≤◌, ◌<◌, ◌≡◌, ◌⊎◌, refl, ◌∙◌, List, [], ◌∷◌, ◌++◌, none, some, true, false,
  length, length-append, drop, take, take-append, All, arith, le→ltb,
}
use pulsar_server_framework.ByteOrder.{ByteOrder}
use pulsar_server_framework.Handles.{ClientHandle}
use pulsar_server_framework.Protocol.Constants.{
  header_size, special_communication, response_acknowledgement, uninitialized_version,
  max_handles_in_forwarded_response, max_possible_request_response_size,
}
use pulsar_server_framework.Protocol.Frame.{framed}
use pulsar_server_framework.Protocol.Parser.{
  VersionParameters, request_found, Buffer, Parsed, Registry, version_refused,
  validate_protocol_and_extract_request,
}
use pulsar_server_framework.Protocol.Parser.Frames.{validate-frame}
use pulsar_server_framework.Protocol.Response.{created, construct_response_for_remote_clients}
use pulsar_server_framework.Protocol.Response.Wire.{
  forwarded_body, be_handles, HasU64, construct_remote_lem, length-be_handles,
}
use pulsar_server_framework.Protocol.Forwarded.{calculate_version_parameters, process_request}
use pulsar_server_framework.Protocol.Forwarded.Decoding.{localised, process_request-forwarded_body}

-- The request that a buffer of bytes and an answer of the parser hand to a request processor.
abbrev pub extracted : List ℕ → Parsed → List ℕ
extracted b r = elim r.request_out.base [ none ↦ [] | some i ↦ take r.request_out.len (drop i b) ]

-- The parser takes a whole frame, with whatever follows it, for a request with the frame's body.
module _ ⦃o : ByteOrder⦄ (processors : Registry) where
  pub frame_extracted :
      (version : ℕ) (body more : List ℕ) (n existing : ℕ) (out : Buffer) (p : VersionParameters)
      → version < 2 ^ 16
      → length body < 2 ^ 32
      → version_refused existing version ≡ false
      → processors version ≡ some p
      → 0 < length body
      → length body ≤ p.max_request_size
      → length body + header_size ≤ n
      → (r : Parsed) × (validate_protocol_and_extract_request processors
            (framed version (length body) (body ++ more))
            n
            existing
            out
          ≡ some r)
        × (r.code ≡ request_found)
        × (r.existing_version ≡ version)
        × (extracted (framed version (length body) (body ++ more)) r ≡ body)
  frame_extracted version body more n existing out p hv hs accepted known pos fits whole = (
    record {
      code = request_found;
      existing_version = version;
      request_out = record { base = some header_size; len = length body };
    },
    validate-frame processors version body more n existing out p hv hs accepted known pos fits
        ∙ rw (le→ltb n (header_size + 1) (omega arith), le→ltb n (length body + header_size) whole),
    refl,
    refl,
    take-append (length body) body more refl,
  )

module _ ⦃o : ByteOrder⦄ (here there : Registry) where
  -- Where both servers have the processor of the special version, a server makes of every response
  -- that is not empty and not above the largest size, of a 16-bit version, for at most
  -- MAX_HANDLES_IN_FORWARDED_RESPONSE clients of another server with 64-bit registration numbers,
  -- bytes that the parser of that server, on a connection of no version yet or of the special one,
  -- takes for one request, and processing this request sends the same response, in the version of its
  -- sender, to the same registration numbers at that server, and acknowledges it.
  pub forward_round_trip :
      (response more : List ℕ) (handles : List ClientHandle) (version existing : ℕ) (out : Buffer)
      (sender : ClientHandle)
      → here special_communication ≡ some calculate_version_parameters
      → there special_communication ≡ some calculate_version_parameters
      → version < 2 ^ 16
      → (existing ≡ uninitialized_version) ⊎ (existing ≡ special_communication)
      → 0 < length response
      → length response ≤ max_possible_request_response_size
      → length handles ≤ max_handles_in_forwarded_response
      → All HasU64 handles
      → (bytes : List ℕ) × (r : Parsed) × (construct_response_for_remote_clients here response
            handles version
          ≡ created bytes)
        × (validate_protocol_and_extract_request there (bytes ++ more) (length bytes) existing out
            ≡ some r)
        × (r.code ≡ request_found)
        × (process_request (extracted (bytes ++ more) r) sender
            ≡ some (record {
              result = true;
              streaming = true;
              sendings =
                  record {
                    clienthandles = localised sender.server_ipv4_address handles [];
                    response = response;
                    version = version;
                  }
                  ∷ record {
                    clienthandles = sender ∷ [];
                    response = response_acknowledgement ∷ [];
                    version = special_communication;
                  }
                  ∷ [];
            }))
  unfolding calculate_version_parameters
  forward_round_trip response more handles version existing out sender eh et hv he pos fits few
        u64 =
      let body = forwarded_body version handles response in
      let bytes = framed special_communication (length body) body in
      let (r, parsed, found, _, body') =
        frame_extracted there special_communication body more (length bytes) existing out
          calculate_version_parameters (omega arith) (omega (arith, whole)) accepted et
          (omega arith) (omega (arith, whole)) (omega arith) in
      (
        bytes,
        r,
        construct_remote_lem here response handles version calculate_version_parameters hv
              (omega arith) u64 eh
            ∙ rw (le→ltb 1179654 (length response + 6 + length handles * 8) (omega arith), size),
        parsed,
        found,
        rw body' (
            process_request-forwarded_body version handles response sender hv (omega arith) u64
              pos),
      )
    where
      whole : length (be_handles handles ++ response) ≡ length handles * 8 + length response
      whole = omega (arith, length-append (be_handles handles) response, length-be_handles handles)

      size :
          length response + 6 + length handles * 8
          ≡ length (forwarded_body version handles response)
      size = omega (arith, whole)

      accepted : version_refused existing special_communication ≡ false
      accepted = unfold version_refused in ground arith
