-- ===== src/Receiver/Stream/Waiting.antt =====
-- What `ExtractRequestOffTheBuffer` of Pulsar/src/LocalClientsManager.cpp does with a part of a frame: it
-- waits for more bytes.
use pulsar_server_framework.Prelude.{
  ℕ, ◌+◌, ◌≤◌, ◌<◌, ◌≡◌, ◌^◌, refl, inl, inr, List, ◌++◌, none, some, true, ◌||◌, length, le→ltb,
  arith,
}
use pulsar_server_framework.ByteOrder.{ByteOrder}
use pulsar_server_framework.Client.{Client, Server, heap}
use pulsar_server_framework.Protocol.Constants.{header_size}
use pulsar_server_framework.Protocol.Frame.{framed}
use pulsar_server_framework.Protocol.Parser.{VersionParameters, Buffer, Registry}
use pulsar_server_framework.Protocol.Parser.Parts.{parsed_part}
use pulsar_server_framework.Protocol.Parser.Safety.{validate-short}
use pulsar_server_framework.Receiver.{header_length}
use pulsar_server_framework.Receiver.Reading.{
  Making, received, wait, is_header, extract_request_off_the_buffer,
}
use pulsar_server_framework.Receiver.Stream.Phases.{
  IsHeaderBase, IsAtHeader, IsAtBody, IsOfVersion, not_refused,
}

pub in_header_buffer :
    (c : Client) → IsHeaderBase c → (c.allocated_for_streaming || is_header c.request_base) ≡ true
unfolding is_header
in_header_buffer c (inl (e, f)) = rw (f, e) refl
in_header_buffer c (inr (n, e, f, g)) = rw g refl

pub wait_at_header :
    (request : Buffer) (s : Server) (c : Client)
    → IsHeaderBase c
    → c.request_len ≡ header_length
    → length c.request_bytes < header_length
    → wait request s c ≡ some (received s c)
unfolding wait
wait_at_header request s c base len short = ground (arith, in_header_buffer c base, len)

pub wait_at_size :
    (request : Buffer) (s : Server) (c : Client)
    → IsHeaderBase c
    → c.request_len ≡ header_length
    → length c.request_bytes ≡ header_length
    → 0 < request.len
    → wait request s c ≡ some (received s (record c { request_size_found = request.len }))
unfolding wait
wait_at_size request s c base len full pos = ground (arith, in_header_buffer c base, len, full)

pub wait_at_body :
    (request : Buffer) (s : Server) (c : Client) (n : ℕ)
    → c.request_base ≡ heap n
    → c.request_len ≡ request.len + header_size
    → header_length < length c.request_bytes
    → length c.request_bytes < request.len + header_size
    → 0 < request.len
    → wait request s c ≡ some (received s c)
unfolding wait is_header
wait_at_body request s c n base len long short pos = ground (arith, base, len)

-- Which of a frame's bytes have been read, and what is left of it.
abbrev pub IsRead : ℕ → VersionParameters → List ℕ → List ℕ → List ℕ → List ℕ → Client → Type 0
IsRead version p b rest bytes ys c =
    ((c.request_bytes ++ bytes) ++ ys ≡ framed version (length b) (b ++ rest))
    × (0 < length b)
    × (length b ≤ p.max_request_size)
    × (length b < 2 ^ 32)
    × IsOfVersion version c

module _ ⦃o : ByteOrder⦄ (processors : Registry) (version : ℕ) (p : VersionParameters)
    (hv : version < 2 ^ 16) (pos : 0 < version) (known : processors version ≡ some p) where
  pub extract_short :
      (m : Making) (bytes : List ℕ) (s : Server) (c : Client)
      → IsAtHeader c
      → length (c.request_bytes ++ bytes) < header_length
      → extract_request_off_the_buffer processors m bytes s c
        ≡ some (received s (record c { request_bytes = c.request_bytes ++ bytes }))
  unfolding extract_request_off_the_buffer
  extract_short m bytes s c h short =
      let all = c.request_bytes ++ bytes in
      simp (
        validate-short processors all (length all) c.version (record { base = none; len = 0 })
            short,
        le→ltb c.request_len (length all) (omega (arith, h.len)),
        wait_at_header (record { base = none; len = 0 }) s (record c { request_bytes = all }) h.base
            h.len short,
      )

  pub extract_size :
      (m : Making) (b rest bytes ys : List ℕ) (s : Server) (c : Client)
      → IsRead version p b rest bytes ys c
      → IsAtHeader c
      → length (c.request_bytes ++ bytes) ≡ header_length
      → 1 < length b
      → extract_request_off_the_buffer processors m bytes s c
        ≡ some (
            received s (record c {
              request_bytes = c.request_bytes ++ bytes;
              version = version;
              request_size_found = length b;
            }))
  unfolding extract_request_off_the_buffer
  extract_size m b rest bytes ys s c (e, some_size, fits, hs, v) h full more =
      let all = c.request_bytes ++ bytes in
      simp (
        parsed_part processors version p hv known b rest all ys c.version
            (record { base = none; len = 0 }) e some_size fits hs (not_refused version c pos hv v)
            (omega (arith, full)) (omega (arith, full)),
        le→ltb c.request_len (length all) (omega (arith, h.len, full)),
        wait_at_size (record { base = none; len = length b }) s
            (record c { request_bytes = all; version = version }) h.base h.len full some_size,
      )

  pub extract_more :
      (m : Making) (b rest bytes ys : List ℕ) (s : Server) (c : Client)
      → IsRead version p b rest bytes ys c
      → IsAtBody (length b) c
      → header_length < length (c.request_bytes ++ bytes)
      → length (c.request_bytes ++ bytes) < length b + header_size
      → extract_request_off_the_buffer processors m bytes s c
        ≡ some
            (received s (record c { request_bytes = c.request_bytes ++ bytes; version = version }))
  unfolding extract_request_off_the_buffer
  extract_more m b rest bytes ys s c (e, some_size, fits, hs, v) h long short =
      let all = c.request_bytes ++ bytes in
      simp (
        parsed_part processors version p hv known b rest all ys c.version
            (record { base = none; len = 0 }) e some_size fits hs (not_refused version c pos hv v)
            (omega arith) short,
        le→ltb c.request_len (length all) (omega (arith, h.len)),
        wait_at_body (record { base = none; len = length b }) s
            (record c { request_bytes = all; version = version }) h.base.0 h.base.1 h.len long short
            some_size,
      )
