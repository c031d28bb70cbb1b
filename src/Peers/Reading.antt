-- ===== src/Peers/Reading.antt =====
-- What a peer server sends back: `alloc_buffer`, `on_read` and `ProcessResponse` of
-- Pulsar/src/PeerServersManager.cpp.
pub mod Responses
pub mod Loop
use pulsar_server_framework.Prelude.{
  ℕ, zero, suc, ◌+◌, ◌-◌, List, [], ◌++◌, Option, none, some, Bool, true, false, ltb, ◌==◌,
  if◌then◌else◌, ◌>>=◌, length, drop, get_elem?,
}
use pulsar_server_framework.ByteOrder.{ByteOrder}
use pulsar_server_framework.Protocol.Constants.{header_size, response_acknowledgement}
use pulsar_server_framework.Protocol.Parser.{
  ParseCode, request_found, invalid_header, invalid_version, invalid_size, wait_for_more_bytes,
  Buffer, Parsed, Registry, validate_protocol_and_extract_request,
}
use pulsar_server_framework.Peers.{
  decreased, less_than_one, response_buffer_size, connected, PeerServer, PeerManager,
  disconnect_server, World,
}
use pulsar_server_framework.Peers.Sending.{send_to_server}

-- alloc_buffer: the bytes that libuv may read.
pub alloc_response_buffer : PeerServer → Option ℕ
alloc_response_buffer p =
    let n = length p.response_bytes in
    if ltb n response_buffer_size then some (response_buffer_size - n) else none

-- What DoPeriodicActivities meets: responses wait in some queue, and the shutdown has come to
-- DisconnectAndCloseAllConnections.
pub record Period : Type 0 where
  pub world : World
  pub has_responses_in_queue : Bool
  pub closes_connections : Bool

-- DoPeriodicActivities, as far as this server is concerned.
pub do_periodic_activities : Period → PeerManager → PeerServer → Option (PeerManager × PeerServer)
do_periodic_activities w m p =
    let sent = if w.has_responses_in_queue then send_to_server w.world m p else some (m, p) in
    sent >>= λ (m', p').
    if w.closes_connections then disconnect_server true m' p' else some (m', p')

-- The acknowledgement of a forwarded response.
pub acknowledge : Period → PeerManager → PeerServer → Option (PeerManager × PeerServer)
acknowledge w m p =
    let n = decreased p.responses_forwarded in
    let c : PeerServer = record p { responses_forwarded = n } in
    let done = do_periodic_activities w m (record c { status = connected }) in
    if less_than_one n then done else some (m, c)

-- ProcessResponse, for a response that begins with this byte.
pub process_response : Period → ℕ → PeerManager → PeerServer → Option (PeerManager × PeerServer)
process_response w b m p =
    let done = acknowledge w m p in if b == response_acknowledgement then done else some (m, p)

pub nothing_extracted : Buffer
nothing_extracted = record { base = none; len = 0 }

-- The first `n` bytes are stripped off.
pub strip : ℕ → PeerServer → PeerServer
strip n p = record p { response_bytes = drop n p.response_bytes }

-- What a round of the loop of `on_read` makes of the parser's answer; the Bool is the `break`.
pub read_round :
    ParseCode → ℕ → Period → PeerManager → PeerServer → Option (Bool × PeerManager × PeerServer)
read_round request_found len w m p = get_elem? p.response_bytes header_size >>= λ b.
    process_response w b m p >>= λ (m', p'). some (false, m', strip (len + header_size) p')
read_round invalid_header len w m p = some (false, m, record p { response_bytes = [] })
read_round invalid_version len w m p = some (false, m, record p { response_bytes = [] })
read_round invalid_size len w m p = some (false, m, record p { response_bytes = [] })
read_round wait_for_more_bytes len w m p = some (true, m, p)

-- On to the next round, unless the loop was left.
pub unless_done :
    Option (PeerManager × PeerServer)
    → Bool
    → PeerManager
    → PeerServer
    → Option (PeerManager × PeerServer)
unless_done next true m p = some (m, p)
unless_done next false m p = next

-- The loop `while(1)` of `on_read`, on fuel, with what each round's DoPeriodicActivities meets.
pub extract_responses :
    ⦃o : ByteOrder⦄
    → ℕ
    → (ℕ → Period)
    → Registry
    → PeerManager
    → PeerServer
    → Option (PeerManager × PeerServer)
extract_responses zero period processors m p = none
extract_responses (suc n) period processors m p =
    let b = p.response_bytes in
    validate_protocol_and_extract_request processors b (length b) p.version nothing_extracted
    >>= λ r.
        read_round r.code r.request_out.len (period n) m (record p { version = r.existing_version })
        >>= λ (done, m', p'). unless_done (extract_responses n period processors m' p') done m' p'

-- The assertion at the end of `on_read`.
pub room_left : PeerManager → PeerServer → Option (PeerManager × PeerServer)
room_left m p = if ltb (length p.response_bytes) response_buffer_size then some (m, p) else none

-- on_read of the bytes that were read, or of an error.
pub on_response_read :
    ⦃o : ByteOrder⦄
    → (ℕ → Period)
    → Registry
    → Option (List ℕ)
    → PeerManager
    → PeerServer
    → Option (PeerManager × PeerServer)
on_response_read period processors none m p = disconnect_server true m p
on_response_read period processors (some read_bytes) m p =
    let b = p.response_bytes ++ read_bytes in
    extract_responses (length b + 1) period processors m (record p { response_bytes = b })
    >>= λ (m', p'). room_left m' p'
