-- ===== src/Peers/Phases.antt =====
-- Which phase a connection to a peer server is in, by what libuv has to answer:
-- Pulsar/src/PeerServersManager.cpp.
use pulsar_server_framework.Prelude.{◌≡◌, true, false}
use pulsar_server_framework.Peers.{connecting, connected, disconnecting, PeerServer}
use pulsar_server_framework.Peers.States.{
  HasFlags, IsPhase, is_new, is_resolving_name, is_awaiting, is_open, is_closing, is_closed,
}

-- The one phase in which libuv has this to answer.
pub phase_of_close :
    (p : PeerServer)
    → IsPhase p
    → p.is_close_pending ≡ true
    → (p.status ≡ disconnecting) × HasFlags p true false false false true
phase_of_close p (is_new e f) t = absurd (cc (f.close_flag, t))
phase_of_close p (is_resolving_name e f) t = absurd (cc (f.close_flag, t))
phase_of_close p (is_awaiting e f) t = absurd (cc (f.close_flag, t))
phase_of_close p (is_open r e f) t = absurd (cc (f.close_flag, t))
phase_of_close p (is_closing e f) t = (e, f)
phase_of_close p (is_closed e f) t = absurd (cc (f.close_flag, t))

pub phase_of_resolving :
    (p : PeerServer)
    → IsPhase p
    → p.is_resolving ≡ true
    → (p.status ≡ connecting) × HasFlags p false false true false false
phase_of_resolving p (is_new e f) t = absurd (cc (f.resolving_flag, t))
phase_of_resolving p (is_resolving_name e f) t = (e, f)
phase_of_resolving p (is_awaiting e f) t = absurd (cc (f.resolving_flag, t))
phase_of_resolving p (is_open r e f) t = absurd (cc (f.resolving_flag, t))
phase_of_resolving p (is_closing e f) t = absurd (cc (f.resolving_flag, t))
phase_of_resolving p (is_closed e f) t = absurd (cc (f.resolving_flag, t))

pub phase_of_connect :
    (p : PeerServer)
    → IsPhase p
    → p.is_connect_pending ≡ true
    → (p.status ≡ connecting) × HasFlags p false false false true false
phase_of_connect p (is_new e f) t = absurd (cc (f.connect_flag, t))
phase_of_connect p (is_resolving_name e f) t = absurd (cc (f.connect_flag, t))
phase_of_connect p (is_awaiting e f) t = (e, f)
phase_of_connect p (is_open r e f) t = absurd (cc (f.connect_flag, t))
phase_of_connect p (is_closing e f) t = absurd (cc (f.connect_flag, t))
phase_of_connect p (is_closed e f) t = absurd (cc (f.connect_flag, t))

-- libuv reads only from a server that is connected.
pub phase_of_reading :
    (p : PeerServer)
    → IsPhase p
    → p.is_reading ≡ true
    → (p.status ≡ connected) × HasFlags p true true false false false
phase_of_reading p (is_new e f) t = absurd (cc (f.reading_flag, t))
phase_of_reading p (is_resolving_name e f) t = absurd (cc (f.reading_flag, t))
phase_of_reading p (is_awaiting e f) t = absurd (cc (f.reading_flag, t))
phase_of_reading p (is_open r e f) t = (
  e,
  record {
    connection_flag = f.connection_flag;
    reading_flag = t;
    resolving_flag = f.resolving_flag;
    connect_flag = f.connect_flag;
    close_flag = f.close_flag;
  },
)
phase_of_reading p (is_closing e f) t = absurd (cc (f.reading_flag, t))
phase_of_reading p (is_closed e f) t = absurd (cc (f.reading_flag, t))
