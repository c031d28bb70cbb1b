-- ===== src/Peers/Reading/Loop.antt =====
-- The loop of `on_read` of Pulsar/src/PeerServersManager.cpp over what a peer server sends back.
use pulsar_server_framework.Prelude.{
  ℕ, zero, suc, ◌+◌, ◌≤◌, ◌<◌, ◌≡◌, ◌≢◌, ◌⊎◌, refl, sym, ap, ◌∙◌, inl, inr, List, [], ◌++◌, Option,
  some, none, true, false, length, drop, arith, Bool-cases, length-drop, get_elem?-lt,
  if◌then◌else◌, ltb,
}
use pulsar_server_framework.ByteOrder.{ByteOrder}
use pulsar_server_framework.Protocol.Constants.{header_size}
use pulsar_server_framework.Protocol.Parser.{
  ParseCode, request_found, invalid_header, invalid_version, invalid_size, wait_for_more_bytes,
  Parsed, Registry, validate_protocol_and_extract_request,
}
use pulsar_server_framework.Protocol.Parser.Safety.{validate-IsSafe, validate-short}
use pulsar_server_framework.Peers.{response_buffer_size, PeerServer, PeerManager, disconnect_server}
use pulsar_server_framework.Peers.States.{Others, IsConnection, requeued-IsConnection, same_counts}
use pulsar_server_framework.Peers.Sending.Forwards.{finished_count}
use pulsar_server_framework.Peers.Sending.Rounds.{IsForwarding, pending_count}
use pulsar_server_framework.Peers.Reading.{
  Period, nothing_extracted, strip, read_round, unless_done, extract_responses, room_left,
  on_response_read,
}
use pulsar_server_framework.Peers.Reading.Responses.{IsCalm, IsReady, process_response-IsRead}
use pulsar_server_framework.Peers.Phases.{phase_of_reading}

-- The codes for which the input is dropped.
data IsRefused : ParseCode → Type 0 where
  refused_header : IsRefused invalid_header
  refused_version : IsRefused invalid_version
  refused_size : IsRefused invalid_size

code_cases : (c : ParseCode) → (c ≡ request_found) ⊎ (c ≡ wait_for_more_bytes) ⊎ IsRefused c
code_cases request_found = inl refl
code_cases wait_for_more_bytes = inr (inl refl)
code_cases invalid_header = inr (inr refused_header)
code_cases invalid_version = inr (inr refused_version)
code_cases invalid_size = inr (inr refused_size)

read_round-refused :
    (c : ParseCode) (len : ℕ) (w : Period) (m : PeerManager) (p : PeerServer)
    → IsRefused c
    → read_round c len w m p ≡ some (false, m, record p { response_bytes = [] })
unfolding read_round
read_round-refused request_found len w m p h = elim h [ ]
read_round-refused wait_for_more_bytes len w m p h = elim h [ ]
read_round-refused invalid_header len w m p refused_header = refl
read_round-refused invalid_version len w m p refused_version = refl
read_round-refused invalid_size len w m p refused_size = refl

refused-not_waiting : (c : ParseCode) → IsRefused c → c ≢ wait_for_more_bytes
refused-not_waiting request_found h e = elim h [ ]
refused-not_waiting wait_for_more_bytes h e = elim h [ ]
refused-not_waiting invalid_header refused_header e = cc
refused-not_waiting invalid_version refused_version e = cc
refused-not_waiting invalid_size refused_size e = cc

-- A round of the loop that does not leave it: something is taken from the input.
record IsProgress (k : Others) (m : PeerManager) (p : PeerServer) (m' : PeerManager)
    (p' : PeerServer) : Type 0 where
  ready : IsReady k m' p'
  shorter : length p'.response_bytes < length p.response_bytes
  balanced : finished_count m' + pending_count p' ≡ finished_count m + pending_count p

module _ (k : Others) where
  input_dropped-IsReady :
      (m : PeerManager) (p : PeerServer) (b : List ℕ) (v : ℕ)
      → IsReady k m p
      → IsReady k m (record p { response_bytes = b; version = v })
  input_dropped-IsReady m p b v h = record {
    consistent =
        requeued-IsConnection k m m p p.responses_queue1 p.responses_queue2 p.responses_being_sent
          p.in_set1 p.in_set2 b v (same_counts m) h.consistent;
    forwarding = record {
      underway = h.forwarding.underway;
      forward_queue1 = h.forwarding.forward_queue1;
      forward_queue2 = h.forwarding.forward_queue2;
    };
    open_status = h.open_status;
  }

  found-IsProgress :
      (len : ℕ) (w : Period) (m : PeerManager) (p : PeerServer)
      → 0 < len
      → len + header_size ≤ length p.response_bytes
      → IsCalm w
      → IsReady k m p
      → (m' : PeerManager) × (p' : PeerServer) × (read_round request_found len w m p
          ≡ some (false, m', p'))
        × IsProgress k m p m' p'
  unfolding read_round strip
  found-IsProgress len w m p pos fits c h =
      let (b, e) = get_elem?-lt p.response_bytes header_size (omega arith) in
      let (m', p', made, s) = process_response-IsRead k w b m p c h in
      (
        m',
        strip (len + header_size) p',
        rw (e, made) refl,
        record {
          ready =
              input_dropped-IsReady m' p' (drop (len + header_size) p'.response_bytes) p'.version
                s.ready;
          shorter = rw (s.input) (omega (arith, length-drop (len + header_size) p.response_bytes));
          balanced = s.balanced;
        },
      )

-- The parser waits for more of what is left.
pub record IsWaiting ⦃o : ByteOrder⦄ (processors : Registry) (existing : ℕ) (b : List ℕ)
    : Type 0 where
  pub answer : Parsed
  pub parsed :
      validate_protocol_and_extract_request processors b (length b) existing nothing_extracted
      ≡ some answer
  pub waits : answer.code ≡ wait_for_more_bytes

-- What the loop leaves.
pub record IsExtracted ⦃o : ByteOrder⦄ (k : Others) (processors : Registry) (m : PeerManager)
    (p : PeerServer) (m' : PeerManager) (p' : PeerServer) : Type 0 where
  pub ready : IsReady k m' p'
  pub waiting : (existing : ℕ) × IsWaiting processors existing p'.response_bytes
  pub not_longer : length p'.response_bytes ≤ length p.response_bytes
  pub balanced : finished_count m' + pending_count p' ≡ finished_count m + pending_count p

module _ ⦃o : ByteOrder⦄ (k : Others) (processors : Registry) where
  -- A code other than waiting needs a header and a byte.
  refused_long :
      (b : List ℕ) (existing : ℕ) (r : Parsed)
      → validate_protocol_and_extract_request processors b (length b) existing nothing_extracted
        ≡ some r
      → r.code ≢ wait_for_more_bytes
      → 0 < length b
  refused_long b existing r e n = elim (Bool-cases (ltb (length b) (header_size + 1))) [
    | inr long ↦ ground (arith, long)
    | inl short ↦
        let s =
          validate-short processors b (length b) existing nothing_extracted
            (ground (arith, short)) in
        absurd (n (ap (λ (x : Option Parsed). code_of x) (sym e ∙ s)))
  ]
    where
      code_of : Option Parsed → ParseCode
      code_of none = wait_for_more_bytes
      code_of (some x) = x.code

  further :
      (m : PeerManager) (p : PeerServer) (m1 : PeerManager) (p1 : PeerServer) (m2 : PeerManager)
      (p2 : PeerServer)
      → length p1.response_bytes < length p.response_bytes
      → finished_count m1 + pending_count p1 ≡ finished_count m + pending_count p
      → IsExtracted k processors m1 p1 m2 p2
      → IsExtracted k processors m p m2 p2
  further m p m1 p1 m2 p2 shorter balanced x = record {
    ready = x.ready;
    waiting = x.waiting;
    not_longer = omega (arith, x.not_longer);
    balanced = x.balanced ∙ balanced;
  }

  -- With fuel for every byte the loop ends, where the parser waits, and fails no assertion.
  pub extract_responses-IsExtracted :
      (n : ℕ) (period : ℕ → Period) (m : PeerManager) (p : PeerServer)
      → length p.response_bytes < n
      → ((i : ℕ) → IsCalm (period i))
      → IsReady k m p
      → (m' : PeerManager) × (p' : PeerServer) × (extract_responses n period processors m p
          ≡ some (m', p'))
        × IsExtracted k processors m p m' p'
  unfolding extract_responses unless_done
  extract_responses-IsExtracted zero period m p enough c h = absurd (omega arith)
  extract_responses-IsExtracted (suc n) period m p enough c h =
      let b = p.response_bytes in
      let (r, e, safe) =
        validate-IsSafe processors b (length b) p.version nothing_extracted (omega arith) in
      let v = r.existing_version in
      let h1 = input_dropped-IsReady k m p b v h in
      elim (code_cases r.code) [
        | inl found ↦
            let inside = safe.found_inside found in
            let (m1, p1, made, g) =
              found-IsProgress k r.request_out.len (period n) m (record p { version = v })
                (inside.1) (inside.2) (c n) h1 in
            let (m2, p2, rest, x) =
              extract_responses-IsExtracted n period m1 p1 (omega (arith, g.shorter)) c g.ready in
            (m2, p2, rw (e, found, made) rest, further m p m1 p1 m2 p2 g.shorter g.balanced x)
        | inr (inl waits) ↦ (
          m,
          record p { version = v },
          rw (e, waits) (unfold read_round in refl),
          record {
            ready = h1;
            waiting = (p.version, record { answer = r; parsed = e; waits = waits });
            not_longer = omega arith;
            balanced = refl;
          },
        )
        | inr (inr refused) ↦
            let q : PeerServer = record p { response_bytes = []; version = v } in
            let (m2, p2, rest, x) =
              extract_responses-IsExtracted n period m q
                (omega (arith, refused_long b p.version r e (refused-not_waiting r.code refused))) c
                (input_dropped-IsReady k m p [] v h) in
            (
              m2,
              p2,
              rw
                  (
                    e,
                    read_round-refused r.code r.request_out.len (period n) m
                        (record p { version = v }) refused,
                  )
                  rest,
              further m p m q m2 p2
                  (refused_long b p.version r e (refused-not_waiting r.code refused)) refl x,
            )
      ]

  -- For bytes that fit into the room that alloc_buffer gave, from a server that is being read, whose
  -- connection is consistent and whose queues are right, while writes are accepted and nothing is shut
  -- down, the loop of on_read ends with one round more than there are bytes as fuel, where the parser
  -- waits for more of what is left; no response is lost or finished twice; and on_read fails its
  -- assertion exactly if what is left fills the buffer.
  pub on_response_read-IsExtracted :
      (period : ℕ → Period) (read_bytes : List ℕ) (m : PeerManager) (p : PeerServer)
      → length p.response_bytes + length read_bytes ≤ response_buffer_size
      → ((i : ℕ) → IsCalm (period i))
      → p.is_reading ≡ true
      → IsConnection k m p
      → IsForwarding k.address p
      → (m' : PeerManager) × (p' : PeerServer) × (on_response_read period processors
            (some read_bytes)
            m
            p
          ≡ (if ltb (length p'.response_bytes) response_buffer_size then some (m', p') else none))
        × IsExtracted k processors m
            (record p { response_bytes = p.response_bytes ++ read_bytes })
            m'
            p'
  unfolding on_response_read room_left
  on_response_read-IsExtracted period read_bytes m p fits c reading h g =
      let b = p.response_bytes ++ read_bytes in
      let ready = input_dropped-IsReady k m p b p.version (record {
        consistent = h;
        forwarding = g;
        open_status = (phase_of_reading p h.phase reading).0;
      }) in
      let (m', p', made, x) =
        extract_responses-IsExtracted (length b + 1) period m (record p { response_bytes = b })
          (omega arith) c ready in
      (m', p', rw made refl, x)

pub on_response_read_error :
    ⦃o : ByteOrder⦄ (period : ℕ → Period) (processors : Registry) (m : PeerManager) (p : PeerServer)
    → on_response_read period processors none m p ≡ disconnect_server true m p
unfolding on_response_read
on_response_read_error period processors m p = refl
