-- ===== src/Protocol/Parser/Safety.antt =====
-- What `ValidateProtocolAndExtractRequest` of Pulsar/src/RequestParser.cpp reads and hands out, on any
-- bytes.
use pulsar_server_framework.Prelude.{
  ℕ, ◌+◌, ◌≤◌, ◌<◌, ◌≡◌, ◌≢◌, refl, inl, inr, List, [], ◌∷◌, Option, none, some, Bool, true, false,
  ltb, ◌==◌, if◌then◌else◌, get_elem?-lt, length, arith, Bool-cases,
}
use pulsar_server_framework.ByteOrder.{ByteOrder}
use pulsar_server_framework.Protocol.Constants.{
  msg_preamble, preamble_bytes, version_bytes, header_size, uninitialized_version,
}
use pulsar_server_framework.Protocol.Reader.{read16-lt, read32-lt}
use pulsar_server_framework.Protocol.Parser.{
  VersionParameters, request_found, invalid_header, invalid_version, wait_for_more_bytes, Buffer,
  Parsed, Registry, preamble_matches, check_size, version_refused, check_version,
  validate_protocol_and_extract_request,
}

preamble_matches-total :
    (b : List ℕ) (i : ℕ) (cs : List ℕ)
    → i + length cs ≤ length b
    → (r : Bool) × (preamble_matches b i cs ≡ some r)
unfolding preamble_matches
preamble_matches-total b i [] h = (true, refl)
preamble_matches-total b i (c ∷ cs) h =
    let (x, e) = get_elem?-lt b i (omega arith) in
    let (r, f) = preamble_matches-total b (i + 1) cs (omega arith) in
    (if x == c then r else false, rw (e, f) (ground arith))

-- A request of this length is allowed by the version's processor, and there is one.
abbrev pub FitsRequest : Option VersionParameters → ℕ → Type 0
FitsRequest none len = ⊥
FitsRequest (some p) len = len ≤ p.max_request_size

-- What the parser guarantees of its answer.
pub record IsSafe (processors : Registry) (buffer_length existing : ℕ) (r : Parsed) : Type 0 where
  -- A request that is found is not empty, follows the header and has arrived whole.
  pub found_inside :
      r.code ≡ request_found
      → (r.request_out.base ≡ some header_size)
        × (0 < r.request_out.len)
        × (r.request_out.len + header_size ≤ buffer_length)
  -- Its version has a processor, and is the client's own once that is known.
  pub found_known :
      r.code ≡ request_found → FitsRequest (processors r.existing_version) r.request_out.len
  pub version_kept : existing ≢ uninitialized_version → r.existing_version ≡ existing

check_size-IsSafe :
    (processors : Registry) (n existing version : ℕ) (out : Buffer) (size : ℕ)
    → (existing ≢ uninitialized_version → version ≡ existing)
    → IsSafe processors n existing (check_size processors n version out size)
unfolding check_size
check_size-IsSafe processors n existing version out size same = ground arith

check_version-total :
    ⦃o : ByteOrder⦄ (processors : Registry) (b : List ℕ) (n existing version : ℕ) (out : Buffer)
    → header_size ≤ length b
    → (r : Parsed) × (check_version processors b n existing out version ≡ some r)
      × IsSafe processors n existing r
unfolding check_version version_refused
check_version-total processors b n existing version out h =
    let (size, e) = read32-lt b (preamble_bytes + version_bytes) (omega arith) in
    elim (Bool-cases (version_refused existing version)) [
      | inl refused ↦ (
        record { code = invalid_version; existing_version = existing; request_out = out },
        rw refused,
        ground arith,
      )
      | inr accepted ↦ (
        check_size processors n version out size,
        rw (accepted, e),
        check_size-IsSafe processors n existing version out size (ground arith),
      )
    ]

-- Whatever bytes arrive, the parser answers and reads none past the first `buffer_length`; a request
-- that it finds is not empty, lies behind the header within those bytes, has a version whose
-- processor allows its size, and that version is the client's own once it is initialised.
pub validate-IsSafe :
    ⦃o : ByteOrder⦄ (processors : Registry) (b : List ℕ) (n existing : ℕ) (out : Buffer)
    → n ≤ length b
    → (r : Parsed) × (validate_protocol_and_extract_request processors b n existing out ≡ some r)
      × IsSafe processors n existing r
unfolding validate_protocol_and_extract_request
validate-IsSafe processors b n existing out h = elim (Bool-cases (ltb n (header_size + 1))) [
  | inl short ↦ (
    record { code = wait_for_more_bytes; existing_version = existing; request_out = out },
    rw short,
    ground arith,
  )
  | inr long ↦
      let (m, e) = preamble_matches-total b 0 msg_preamble (ground arith) in
      let (v, f) = read16-lt b preamble_bytes (ground arith) in
      elim (Bool-cases m) [
        | inl yes' ↦
            let (r, g, s) = check_version-total processors b n existing v out (ground arith) in
            (r, rw (long, e, yes', f) g, s)
        | inr no' ↦ (
          record { code = invalid_header; existing_version = existing; request_out = out },
          rw (long, e, no'),
          ground arith,
        )
      ]
]

-- Before a header and one byte have arrived, the parser waits.
pub validate-short :
    ⦃o : ByteOrder⦄ (processors : Registry) (b : List ℕ) (n existing : ℕ) (out : Buffer)
    → n < header_size + 1
    → validate_protocol_and_extract_request processors b n existing out
      ≡ some (record { code = wait_for_more_bytes; existing_version = existing; request_out = out })
unfolding validate_protocol_and_extract_request
validate-short processors b n existing out h = ground arith
