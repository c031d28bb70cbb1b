-- ===== src/Receiver/Frames.antt =====
-- What `ExtractRequestOffTheBuffer` of Pulsar/src/LocalClientsManager.cpp does with a MAI frame.
use pulsar_server_framework.Prelude.{
  ℕ, ◌+◌, ◌^◌, ◌≤◌, ◌<◌, ◌≡◌, refl, ap, List, [], ◌∷◌, ◌++◌, none, some, true, false, length, take,
  arith, le→ltb, ==_self,
}
use mathlib.Core.List.{append-nil}
use pulsar_server_framework.ByteOrder.{ByteOrder}
use pulsar_server_framework.Client.{Client, Server}
use pulsar_server_framework.Pool.{increase_count_for_client, counted_up}
use pulsar_server_framework.Protocol.Constants.{header_size}
use pulsar_server_framework.Protocol.Frame.{framed}
use pulsar_server_framework.Protocol.Parser.{
  VersionParameters, request_found, Buffer, Registry, version_refused,
  validate_protocol_and_extract_request,
}
use pulsar_server_framework.Protocol.Parser.Frames.{validate-frame}
use pulsar_server_framework.Receiver.Reading.{
  Making, queue_request, create_request_and_queue, reject_if_none, found,
  extract_request_off_the_buffer,
}

-- A client that may send a request: in the pool, not marked, with no request in processing.
pub record IsWaiting (c : Client) : Type 0 where
  pub in_pool : c.in_pool ≡ true
  pub unmarked : c.to_be_disconnected ≡ false
  pub not_processing : c.request_is_being_processed ≡ false

created_lem :
    (m : Making) (body : List ℕ) (s : Server) (c : Client)
    → m.allocation_fails ≡ false
    → IsWaiting c
    → (s' : Server) × (create_request_and_queue m body s c
        ≡ some (record {
          server = s';
          client = record c {
            requests = c.requests + 1;
            last_activity_time = m.now;
            request_is_being_processed = true;
            request_processing_finished = false;
          };
          queued = some body;
        }))
unfolding create_request_and_queue queue_request increase_count_for_client counted_up
created_lem m body s c memory w =
    let t = s.stat in
    (
      record s {
        stat = record t {
          requests_arrived = t.requests_arrived + 1;
          memory_consumption_by_requests_in_queue =
              t.memory_consumption_by_requests_in_queue + (length body + m.size_of_request);
        };
      },
      simp (
        memory,
        w.in_pool,
        w.unmarked,
        w.not_processing,
        ==_self c.client_handle.client_registration_number,
        ==_self c.client_handle.server_ipv4_address,
      ),
    )

take_all : (xs : List ℕ) → take (length xs) xs ≡ xs
take_all [] = refl
take_all (x ∷ xs) = ap (◌∷◌ x) (take_all xs)

-- The client when the bytes of a whole frame have queued its body.
abbrev pub after_frame : Making → ℕ → List ℕ → Client → Client
after_frame m version body c = record c {
  request_bytes = framed version (length body) body;
  version = version;
  rejected_previous_bytes = false;
  requests = c.requests + 1;
  last_activity_time = m.now;
  request_is_being_processed = true;
  request_processing_finished = false;
}

module _ ⦃o : ByteOrder⦄ (processors : Registry) where
  parsed_whole :
      (version : ℕ) (body : List ℕ) (existing : ℕ) (out : Buffer) (p : VersionParameters)
      → version < 2 ^ 16
      → length body < 2 ^ 32
      → version_refused existing version ≡ false
      → processors version ≡ some p
      → 0 < length body
      → length body ≤ p.max_request_size
      → validate_protocol_and_extract_request processors
          (framed version (length body) body)
          (length (framed version (length body) body))
          existing
          out
        ≡ some (record {
          code = request_found;
          existing_version = version;
          request_out = record { base = some header_size; len = length body };
        })
  parsed_whole version body existing out p hv hs accepted known pos fits =
      let n = length (framed version (length body) body) in
      rw
        (
          append-nil body,
          le→ltb n (header_size + 1) (omega arith),
          le→ltb n (length body + header_size) (omega arith),
        )
        at
        (validate-frame processors version body [] n existing out p hv hs accepted known pos fits)

  found_whole :
      (m : Making) (version : ℕ) (body : List ℕ) (s s' : Server) (c c' : Client)
      → length body + header_size ≤ c.request_len
      → create_request_and_queue m body s (record c {
        request_bytes = framed version (length body) body;
        version = version;
        rejected_previous_bytes = false;
      })
        ≡ some (record { server = s'; client = c'; queued = some body })
      → found m
          (record { base = some header_size; len = length body })
          s
          (record c { request_bytes = framed version (length body) body; version = version })
        ≡ some (record { server = s'; client = c'; queued = some body })
  unfolding found reject_if_none
  found_whole m version body s s' c c' room made = simp (
    le→ltb (length (framed version (length body) body)) (header_size + length body) (omega arith),
    le→ltb c.request_len (header_size + length body) (omega arith),
    take_all body,
    made,
  )

  pub extract_request-whole :
      (m : Making) (version : ℕ) (body bytes : List ℕ) (p : VersionParameters) (s : Server)
      (c : Client)
      → c.request_bytes ++ bytes ≡ framed version (length body) body
      → version < 2 ^ 16
      → length body < 2 ^ 32
      → version_refused c.version version ≡ false
      → processors version ≡ some p
      → 0 < length body
      → length body ≤ p.max_request_size
      → length body + header_size ≤ c.request_len
      → m.allocation_fails ≡ false
      → IsWaiting c
      → (s' : Server) × (extract_request_off_the_buffer processors m bytes s c
          ≡ some
              (record { server = s'; client = after_frame m version body c; queued = some body }))
  unfolding extract_request_off_the_buffer found reject_if_none
  extract_request-whole m version body bytes p s c e hv hs accepted known pos fits room memory w =
      let c1 : Client = record c {
        request_bytes = framed version (length body) body;
        version = version;
        rejected_previous_bytes = false;
      } in
      let (s', made) = created_lem m body s c1 memory (record {
        in_pool = w.in_pool;
        unmarked = w.unmarked;
        not_processing = w.not_processing;
      }) in
      (
        s',
        simp (
          e,
          parsed_whole version body c.version (record { base = none; len = 0 }) p hv hs accepted
              known pos fits,
          le→ltb c.request_len (length (framed version (length body) body)) (omega arith),
          found_whole m version body s s' c (after_frame m version body c) room made,
        ),
      )

  -- The bytes that complete a frame, for a client that may send a request and whose buffer is no shorter
  -- than the frame, queue one request: the frame's body, nothing else. The version is one that has a
  -- processor and is not refused for this client, the processor allows the body's length, and memory
  -- lasts for the request. No assertion fails, and the client has one more request pending.
  pub extract_request-frame :
      (m : Making) (version : ℕ) (body bytes : List ℕ) (p : VersionParameters) (s : Server)
      (c : Client)
      → c.request_bytes ++ bytes ≡ framed version (length body) body
      → version < 2 ^ 16
      → length body < 2 ^ 32
      → version_refused c.version version ≡ false
      → processors version ≡ some p
      → 0 < length body
      → length body ≤ p.max_request_size
      → length body + header_size ≤ c.request_len
      → m.allocation_fails ≡ false
      → IsWaiting c
      → (s' : Server) × (c' : Client) × (extract_request_off_the_buffer processors m bytes s c
          ≡ some (record { server = s'; client = c'; queued = some body }))
        × (c'.version ≡ version)
        × (c'.request_is_being_processed ≡ true)
        × (c'.requests ≡ c.requests + 1)
  extract_request-frame m version body bytes p s c e hv hs accepted known pos fits room memory w =
      let (s', run) =
        extract_request-whole m version body bytes p s c e hv hs accepted known pos fits room memory
          w in
      (s', after_frame m version body c, run, refl, refl, refl)
