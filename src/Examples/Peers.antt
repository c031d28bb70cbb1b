-- ===== src/Examples/Peers.antt =====
-- A peer server at concrete states: Pulsar/src/PeerServersManager.cpp.
use pulsar_server_framework.Prelude.{
  ℕ, ◌+◌, ◌≡◌, refl, inl, List, [], ◌∷◌, ◌++◌, some, none, true, false, ltb, if◌then◌else◌, length,
  arith,
}
use pulsar_server_framework.Delivery.{Memory}
use pulsar_server_framework.Protocol.Constants.{response_acknowledgement, special_communication}
use pulsar_server_framework.Protocol.Frame.{framed}
use pulsar_server_framework.Protocol.Response.{Response}
use pulsar_server_framework.Peers.{
  connected, accepted, response_buffer_size, ForwardStat, PeerServer, PeerManager, World, construct,
  initial_manager,
}
use pulsar_server_framework.Peers.States.{Others, is_open}
use pulsar_server_framework.Peers.Sending.Forwards.{IsForwardable, finished_count}
use pulsar_server_framework.Peers.Sending.Rounds.{pending_count}
use pulsar_server_framework.Peers.Sending.Adding.{IsPeer}
use pulsar_server_framework.Peers.Reading.{Period, on_response_read}
use pulsar_server_framework.Peers.Reading.Responses.{IsCalm}
use pulsar_server_framework.Peers.Reading.Loop.{IsExtracted, on_response_read-IsExtracted}
use pulsar_server_framework.Peers.Traffic.{
  PeerEvent, add_forwarded, send_forwarded, forwarded_back, handle_closed, bytes_read, peer_run,
}
use pulsar_server_framework.Peers.Traffic.Draining.{IsWilling, peer_run-drains}
use pulsar_server_framework.Examples.Machine.{little_endian}
use pulsar_server_framework.Examples.Frames.{registry}

abbrev no_forwards : ForwardStat
no_forwards = record {
  responses_forwarded = 0;
  responses_failed_to_forward = 0;
  forward_error_connecting_timedout = 0;
  forward_error_overflowed = 0;
  forward_error_disconnecting = 0;
  forward_error_disconnected = 0;
  forward_error_writing_server = 0;
  responses_sent = 0;
  total_response_bytes_sent = 0;
  responses_being_sent_count = 0;
  memory_allocation_exceptions = 0;
}

-- Two more servers are connected.
abbrev two_others : Others
two_others = record {
  address = 1000;
  others_connected = 2;
  others_connecting = 0;
  others_closing = 0;
  connected_fits = omega arith;
  connecting_fits = omega arith;
  closing_fits = omega arith;
}

abbrev peer_manager : PeerManager
peer_manager = record (initial_manager no_forwards) { servers_connected = 3 }

abbrev forwarded : Response
forwarded = record {
  bytes = 77 ∷ 65 ∷ 73 ∷ [];
  is_forward = true;
  is_update = false;
  is_multicast = false;
  server_ipv4_address = 1000;
  response_type = 255;
}

forwarded-IsForwardable : IsForwardable 1000 forwarded
forwarded-IsForwardable = record { forward_flag = refl; addressed = refl; not_blank = omega arith }

-- A connected server with a response in the queue that is not sent from, and nothing under way.
abbrev peer : PeerServer
peer = record (construct 1000) {
  status = connected;
  has_connection = true;
  is_reading = true;
  responses_forwarded = 1;
  responses_queue1 = forwarded ∷ [];
  in_set1 = true;
}

peer-IsPeer : IsPeer two_others peer_manager peer
unfolding construct initial_manager
peer-IsPeer = record {
  connection = record {
    phase = is_open true refl (record {
      connection_flag = refl;
      reading_flag = refl;
      resolving_flag = refl;
      connect_flag = refl;
      close_flag = refl;
    });
    addressed = refl;
    connected_count = refl;
    connecting_count = refl;
    closing_count = refl;
  };
  forwarding = record {
    underway = tt;
    forward_queue1 = record {
      forwards = (forwarded-IsForwardable, tt);
      has_work = λ e. omega arith;
      announced = λ e. inl refl;
    };
    forward_queue2 = record {
      forwards = tt;
      has_work = λ e. absurd (cc e);
      announced = λ e. absurd (omega arith);
    };
  };
}

abbrev willing : World
willing = record {
  now = 100;
  new_fails = false;
  uv_getaddrinfo = accepted;
  reserve_fails = false;
  uv_write_ok = true;
}

willing-IsWilling : IsWilling willing
willing-IsWilling = record { answers = λ e. cc; writes = refl; lasts = refl }

abbrev calm : ℕ → Period
calm i = record { world = willing; has_responses_in_queue = true; closes_connections = false }

calm-IsCalm : (i : ℕ) → IsCalm (calm i)
calm-IsCalm i = record { writes = refl; answers = λ e. cc; stays_open = refl }

-- An acknowledgement, and the beginning of another.
abbrev acknowledgements : List ℕ
acknowledgements = framed special_communication 1 (response_acknowledgement ∷ []) ++ 77 ∷ 65 ∷ []

abbrev enough_memory : Memory
enough_memory = record { queue_push_fails = false; set_insert_fails = false }

abbrev life : List PeerEvent
life =
    bytes_read calm (some acknowledgements)
    ∷ add_forwarded enough_memory forwarded
    ∷ send_forwarded willing
    ∷ forwarded_back false 200
    ∷ handle_closed 201
    ∷ []

on_response_read-IsExtracted_example :
    (m' : PeerManager) × (p' : PeerServer) × (on_response_read calm registry
        (some acknowledgements)
        peer_manager
        peer
      ≡ (if ltb (length p'.response_bytes) response_buffer_size then some (m', p') else none))
    × IsExtracted two_others registry peer_manager
        (record peer { response_bytes = peer.response_bytes ++ acknowledgements })
        m'
        p'
on_response_read-IsExtracted_example =
    on_response_read-IsExtracted two_others registry calm acknowledgements peer_manager peer
      (unfold construct in omega arith) calm-IsCalm refl peer-IsPeer.connection
      peer-IsPeer.forwarding

peer_run-drains_example :
    (m' : PeerManager) × (p' : PeerServer) × (peer_run 10 registry
        (send_forwarded willing
          ∷ forwarded_back true 5
          ∷ send_forwarded willing
          ∷ forwarded_back true 6
          ∷ [])
        peer_manager
        peer
      ≡ some (0, m', p'))
    × (pending_count p' ≡ 0)
    × (finished_count m' ≡ finished_count peer_manager + pending_count peer)
peer_run-drains_example =
    peer_run-drains two_others 10 registry willing willing 5 6 peer_manager peer willing-IsWilling
      willing-IsWilling
      (record { peer = peer-IsPeer; is_open = refl; nothing_sent = unfold construct in refl })
