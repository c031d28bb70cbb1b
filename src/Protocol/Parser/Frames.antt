-- ===== src/Protocol/Parser/Frames.antt =====
-- Which bytes `ValidateProtocolAndExtractRequest` of Pulsar/src/RequestParser.cpp takes for a request.
use pulsar_server_framework.Prelude.{
  ℕ, ◌+◌, ◌^◌, ◌≤◌, ◌<◌, ◌≡◌, refl, ap, ◌∙◌, inl, inr, List, [], ◌∷◌, ◌++◌, some, false, ltb, ◌==◌,
  if◌then◌else◌, length, All, drop, arith, Bool-cases, lt→ltb, le→ltb,
}
use pulsar_server_framework.ByteOrder.{ByteOrder, IsByte, be16, be32}
use pulsar_server_framework.Protocol.Constants.{
  msg_preamble, preamble_bytes, version_bytes, header_size,
}
use pulsar_server_framework.Protocol.Frame.{framed}
use pulsar_server_framework.Protocol.Reader.{read16, read32, read16-be16, read32-be32}
use pulsar_server_framework.Protocol.Parser.{
  VersionParameters, request_found, wait_for_more_bytes, Buffer, Parsed, Registry, preamble_matches,
  check_size, version_refused, check_version, validate_protocol_and_extract_request,
}

module _ ⦃o : ByteOrder⦄ (processors : Registry) where
  framed-version :
      (version size : ℕ) (after : List ℕ)
      → version < 2 ^ 16
      → read16 (framed version size after) preamble_bytes ≡ some version
  framed-version version size after h = unfold read16 in read16-be16 version (be32 size ++ after) h

  framed-size :
      (version size : ℕ) (after : List ℕ)
      → size < 2 ^ 32
      → read32 (framed version size after) (preamble_bytes + version_bytes) ≡ some size
  framed-size version size after h = unfold read32 in read32-be32 size after h

  -- The parser reads a frame's header as it was written.
  pub validate-framed :
      (version size : ℕ) (after : List ℕ) (n existing : ℕ) (out : Buffer)
      → version < 2 ^ 16
      → size < 2 ^ 32
      → header_size < n
      → version_refused existing version ≡ false
      → validate_protocol_and_extract_request processors (framed version size after) n existing out
        ≡ some (check_size processors n version out size)
  unfolding validate_protocol_and_extract_request check_version preamble_matches
  validate-framed version size after n existing out hv hs hn accepted = rw (
    le→ltb n (header_size + 1) hn,
    framed-version version size after hv,
    accepted,
    framed-size version size after hs,
  )

  -- For a 16-bit version that has a processor and is not refused, and a body of a 32-bit length, not
  -- empty, that the processor allows, the parser waits until the header and one more byte are there,
  -- then announces the size while it waits for the rest, and finds the request, behind the header, as
  -- soon as all of it is there.
  pub validate-frame :
      (version : ℕ) (body more : List ℕ) (n existing : ℕ) (out : Buffer) (p : VersionParameters)
      → version < 2 ^ 16
      → length body < 2 ^ 32
      → version_refused existing version ≡ false
      → processors version ≡ some p
      → 0 < length body
      → length body ≤ p.max_request_size
      → validate_protocol_and_extract_request processors
          (framed version (length body) (body ++ more))
          n
          existing
          out
        ≡ some (
            if ltb n (header_size + 1)
            then record {
              code = wait_for_more_bytes;
              existing_version = existing;
              request_out = out;
            }
            else if ltb n (length body + header_size)
            then record {
              code = wait_for_more_bytes;
              existing_version = version;
              request_out = record out { len = length body };
            }
            else record {
              code = request_found;
              existing_version = version;
              request_out = record { base = some header_size; len = length body };
            })
  validate-frame version body more n existing out p hv hs accepted known pos fits =
      elim (Bool-cases (ltb n (header_size + 1))) [
        | inl short ↦ rw short (unfold validate_protocol_and_extract_request in rw short)
        | inr long ↦ rw long (
            validate-framed version (length body) (body ++ more) n existing out hv hs (ground arith)
              accepted
            ∙ ap some (sized n))
      ]
    where
      sized :
          (n : ℕ)
          → check_size processors n version out (length body) ≡ (
              if ltb n (length body + header_size)
              then record {
                code = wait_for_more_bytes;
                existing_version = version;
                request_out = record out { len = length body };
              }
              else record {
                code = request_found;
                existing_version = version;
                request_out = record { base = some header_size; len = length body };
              })
      sized n = unfold check_size in rw known (ground arith)

-- The header that a request must have.
abbrev pub IsFrame : List ℕ → ℕ → ℕ → Type 0
IsFrame b version size =
    (version < 2 ^ 16) × (size < 2 ^ 32) × (b ≡ framed version size (drop header_size b))

module _ ⦃o : ByteOrder⦄ where
  -- The preamble loop accepts three bytes only if they are "MAI".
  preamble_lem :
      (b0 b1 b2 : ℕ) (r : List ℕ)
      → preamble_matches (b0 ∷ b1 ∷ b2 ∷ r) 0 msg_preamble
        ≡ some (if b0 == b'M' then if b1 == b'A' then b2 == b'I' else false else false)
  unfolding preamble_matches
  preamble_lem b0 b1 b2 r = ground arith

  be16-read : (a b : ℕ) → IsByte a → IsByte b → be16 (o.ntohs (o.word16 a b)) ≡ a ∷ b ∷ []
  be16-read a b ha hb = rw (o.ntohs_host a b ha hb) (ground arith)

  be32-read :
      (a b c d : ℕ)
      → IsByte a
      → IsByte b
      → IsByte c
      → IsByte d
      → be32 (o.ntohl (o.word32 a b c d)) ≡ a ∷ b ∷ c ∷ d ∷ []
  be32-read a b c d ha hb hc hd = rw (o.ntohl_host a b c d ha hb hc hd) (ground arith)

  code_of_size :
      (processors : Registry) (n version size : ℕ) (out : Buffer)
      → (check_size processors n version out size).code ≡ request_found
      → (check_size processors n version out size).request_out.len ≡ size
  unfolding check_size
  code_of_size processors n version size out h = ground arith

  existing_of_size :
      (processors : Registry) (n version size : ℕ) (out : Buffer)
      → (check_size processors n version out size).existing_version ≡ version
  unfolding check_size
  existing_of_size processors n version size out = ground arith

  -- Past the preamble and the version, a found request has the version and the size that were read.
  check_version-found :
      (processors : Registry) (b : List ℕ) (n existing version size : ℕ) (out : Buffer) (r : Parsed)
      → read32 b (preamble_bytes + version_bytes) ≡ some size
      → check_version processors b n existing out version ≡ some r
      → r.code ≡ request_found
      → (r.existing_version ≡ version) × (r.request_out.len ≡ size)
  unfolding check_version
  check_version-found processors b n existing version size out r e h c = ground (
    arith,
    code_of_size processors n version size out,
    existing_of_size processors n version size out,
  )

  header_found :
      (processors : Registry) (b0 b1 b2 b3 b4 b5 b6 b7 b8 : ℕ) (rest : List ℕ) (n existing : ℕ)
      (out : Buffer) (r : Parsed)
      → validate_protocol_and_extract_request processors
          (b0 ∷ b1 ∷ b2 ∷ b3 ∷ b4 ∷ b5 ∷ b6 ∷ b7 ∷ b8 ∷ rest)
          n
          existing
          out
        ≡ some r
      → r.code ≡ request_found
      → (b0 ≡ b'M')
        × (b1 ≡ b'A')
        × (b2 ≡ b'I')
        × (r.existing_version ≡ o.ntohs (o.word16 b3 b4))
        × (r.request_out.len ≡ o.ntohl (o.word32 b5 b6 b7 b8))
  unfolding validate_protocol_and_extract_request read16
  header_found processors b0 b1 b2 b3 b4 b5 b6 b7 b8 rest n existing out r h c =
      let b : List ℕ = b0 ∷ b1 ∷ b2 ∷ b3 ∷ b4 ∷ b5 ∷ b6 ∷ b7 ∷ b8 ∷ rest in
      let v = o.ntohs (o.word16 b3 b4) in
      let s = o.ntohl (o.word32 b5 b6 b7 b8) in
      ground (
        arith,
        preamble_lem b0 b1 b2 (b3 ∷ b4 ∷ b5 ∷ b6 ∷ b7 ∷ b8 ∷ rest),
        check_version-found processors b n existing v s out r (unfold read32 in refl),
      )

  found_long :
      (processors : Registry) (b : List ℕ) (n existing : ℕ) (out : Buffer) (r : Parsed)
      → validate_protocol_and_extract_request processors b n existing out ≡ some r
      → r.code ≡ request_found
      → ¬ (n < 10)
  unfolding validate_protocol_and_extract_request
  found_long processors b n existing out r h c short =
      cc (rw (lt→ltb n (header_size + 1) short) at h)

  -- Where the parser finds a request in bytes, of which `n` have arrived, they are a frame: they begin
  -- with the preamble, the client's version and the size of the request, each in network order.
  pub found-IsFrame :
      (processors : Registry) (b : List ℕ) (n existing : ℕ) (out : Buffer) (r : Parsed)
      → All IsByte b
      → n ≤ length b
      → validate_protocol_and_extract_request processors b n existing out ≡ some r
      → r.code ≡ request_found
      → IsFrame b r.existing_version r.request_out.len
  found-IsFrame processors (b0 ∷ b1 ∷ b2 ∷ b3 ∷ b4 ∷ b5 ∷ b6 ∷ b7 ∷ b8 ∷ rest) n existing out r
        (h0, (h1, (h2, (h3, (h4, (h5, (h6, (h7, (h8, hr))))))))) hn h c =
      let (e0, e1, e2, ev, es) =
        header_found processors b0 b1 b2 b3 b4 b5 b6 b7 b8 rest n existing out r h c in
      rw (ev, es)
        (
          rw (o.ntohs_host b3 b4 h3 h4) (omega arith),
          rw (o.ntohl_host b5 b6 b7 b8 h5 h6 h7 h8) (omega arith),
          cc (e0, e1, e2, be16-read b3 b4 h3 h4, be32-read b5 b6 b7 b8 h5 h6 h7 h8),
        )
  found-IsFrame processors b n existing out r hb hn h c =
      absurd (found_long processors b n existing out r h c (omega arith))
