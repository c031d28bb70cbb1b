-- ===== src/Protocol/Parser/Parts.antt =====
-- What `ValidateProtocolAndExtractRequest` of Pulsar/src/RequestParser.cpp says of a part of a frame.
use pulsar_server_framework.Prelude.{
  ℕ, ◌+◌, ◌≤◌, ◌<◌, ◌≡◌, ◌^◌, ◌∙◌, ap, List, ◌++◌, some, false, length, arith,
}
use pulsar_server_framework.ByteOrder.{ByteOrder}
use pulsar_server_framework.Protocol.Constants.{header_size}
use pulsar_server_framework.Protocol.Frame.{framed}
use pulsar_server_framework.Protocol.Framing.{behind_header}
use pulsar_server_framework.Protocol.Parser.{
  VersionParameters, wait_for_more_bytes, Buffer, Registry, version_refused, check_size,
  validate_protocol_and_extract_request,
}
use pulsar_server_framework.Protocol.Parser.Frames.{validate-framed}

module _ ⦃o : ByteOrder⦄ (processors : Registry) (version : ℕ) (p : VersionParameters)
    (hv : version < 2 ^ 16) (known : processors version ≡ some p) where
  announced :
      (n size : ℕ) (out : Buffer)
      → 0 < size
      → size ≤ p.max_request_size
      → n < size + header_size
      → check_size processors n version out size ≡ record {
        code = wait_for_more_bytes;
        existing_version = version;
        request_out = record out { len = size };
      }
  unfolding check_size
  announced n size out some_size fits short = rw known (ground arith)

  -- A part of a frame that reaches past its header announces the size of the body.
  pub parsed_part :
      (b rest xs ys : List ℕ) (existing : ℕ) (out : Buffer)
      → xs ++ ys ≡ framed version (length b) (b ++ rest)
      → 0 < length b
      → length b ≤ p.max_request_size
      → length b < 2 ^ 32
      → version_refused existing version ≡ false
      → header_size < length xs
      → length xs < length b + header_size
      → validate_protocol_and_extract_request processors xs (length xs) existing out
        ≡ some (record {
          code = wait_for_more_bytes;
          existing_version = version;
          request_out = record out { len = length b };
        })
  parsed_part b rest xs ys existing out e some_size fits hs accepted long short =
      let (ts, f, _) = behind_header version b rest xs ys e (omega arith) in
      ap (λ zs. validate_protocol_and_extract_request processors zs (length xs) existing out) f
      ∙ (validate-framed processors version (length b) ts (length xs) existing out hv hs long
            accepted
          ∙ ap some (announced (length xs) (length b) out some_size fits short))
