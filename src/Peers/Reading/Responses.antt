-- ===== src/Peers/Reading/Responses.antt =====
-- What one response of a peer server does: `ProcessResponse` of Pulsar/src/PeerServersManager.cpp.
use pulsar_server_framework.Prelude.{
  ℕ, ◌+◌, ◌≡◌, ◌≢◌, refl, sym, inl, inr, some, true, false, arith, Bool-cases, ◌==◌,
}
use pulsar_server_framework.Protocol.Constants.{response_acknowledgement}
use pulsar_server_framework.Peers.{
  decreased, less_than_one, connected, other_error, PeerServer, PeerManager,
}
use pulsar_server_framework.Peers.States.{Others, IsConnection, IsConnection-moved, same_counts}
use pulsar_server_framework.Peers.Sending.Forwards.{finished_count, counted_connection}
use pulsar_server_framework.Peers.Sending.Rounds.{IsForwarding, pending_count}
use pulsar_server_framework.Peers.Sending.Servers.{send_to_server-IsSent, toggled-finished}
use pulsar_server_framework.Peers.Sending.Connected.{send_to_server-connected}
use pulsar_server_framework.Peers.Reading.{
  Period, do_periodic_activities, acknowledge, process_response,
}

-- While responses are read, libuv accepts what it is given, and the server is not shut down.
pub record IsCalm (w : Period) : Type 0 where
  pub writes : w.world.uv_write_ok ≡ true
  pub answers : w.world.uv_getaddrinfo ≢ other_error
  pub stays_open : w.closes_connections ≡ false

-- A connected server whose queues are right.
pub record IsReady (k : Others) (m : PeerManager) (p : PeerServer) : Type 0 where
  pub consistent : IsConnection k m p
  pub forwarding : IsForwarding k.address p
  pub open_status : p.status ≡ connected

-- What a step of the loop keeps: no response is lost or sent twice.
pub record IsRead (k : Others) (m : PeerManager) (p : PeerServer) (m' : PeerManager)
    (p' : PeerServer) : Type 0 where
  pub ready : IsReady k m' p'
  pub input : p'.response_bytes ≡ p.response_bytes
  pub same_version : p'.version ≡ p.version
  pub balanced : finished_count m' + pending_count p' ≡ finished_count m + pending_count p

module _ (k : Others) where
  do_periodic-IsRead :
      (w : Period) (m : PeerManager) (p : PeerServer)
      → IsCalm w
      → IsReady k m p
      → (m' : PeerManager) × (p' : PeerServer) × (do_periodic_activities w m p ≡ some (m', p'))
        × IsRead k m p m' p'
  unfolding do_periodic_activities
  do_periodic-IsRead w m p c h = elim (Bool-cases w.has_responses_in_queue) [
    | inr quiet ↦ (
      m,
      p,
      rw (quiet, c.stays_open) refl,
      record { ready = h; input = refl; same_version = refl; balanced = refl },
    )
    | inl queued ↦
        let (m', p', made, s) =
          send_to_server-IsSent k w.world m p h.consistent h.forwarding c.answers in
        (
          m',
          p',
          rw (made, queued, c.stays_open) refl,
          record {
            ready = record {
              consistent = s.consistent;
              forwarding = s.forwarding;
              open_status = send_to_server-connected w.world m m' p p' h.open_status c.writes made;
            };
            input = s.input;
            same_version = s.same_version;
            balanced = omega (arith, s.balanced, toggled-finished m);
          },
        )
  ]

  -- The server once an acknowledgement was counted.
  abbrev acknowledged : ℕ → PeerServer → PeerServer
  acknowledged n p = record p { responses_forwarded = n; status = connected }

  acknowledged-IsReady :
      (n : ℕ) (m : PeerManager) (p : PeerServer) → IsReady k m p → IsReady k m (acknowledged n p)
  acknowledged-IsReady n m p h = record {
    consistent =
        IsConnection-moved k m m p (acknowledged n p) (same_counts m)
          (record {
            same_status = sym h.open_status;
            same_address = refl;
            same_flags = record {
              connection_flag = refl;
              reading_flag = refl;
              resolving_flag = refl;
              connect_flag = refl;
              close_flag = refl;
            };
          })
          h.consistent;
    forwarding = record {
      underway = h.forwarding.underway;
      forward_queue1 = h.forwarding.forward_queue1;
      forward_queue2 = h.forwarding.forward_queue2;
    };
    open_status = refl;
  }

  acknowledge-IsRead :
      (w : Period) (m : PeerManager) (p : PeerServer)
      → IsCalm w
      → IsReady k m p
      → (m' : PeerManager) × (p' : PeerServer) × (acknowledge w m p ≡ some (m', p'))
        × IsRead k m p m' p'
  unfolding acknowledge
  acknowledge-IsRead w m p c h =
      let n = decreased p.responses_forwarded in
      let r = acknowledged-IsReady n m p h in
      elim (Bool-cases (less_than_one n)) [
        | inl y ↦
            let (m', p', made, s) = do_periodic-IsRead w m (acknowledged n p) c r in
            (
              m',
              p',
              rw y made,
              record {
                ready = s.ready;
                input = s.input;
                same_version = s.same_version;
                balanced = s.balanced;
              },
            )
        | inr n' ↦ (
          m,
          record p { responses_forwarded = n },
          rw n' refl,
          record {
            ready = record {
              consistent =
                  IsConnection-moved k m m p (record p { responses_forwarded = n }) (same_counts m)
                    (counted_connection p n p.overflowed_time) h.consistent;
              forwarding = record {
                underway = h.forwarding.underway;
                forward_queue1 = h.forwarding.forward_queue1;
                forward_queue2 = h.forwarding.forward_queue2;
              };
              open_status = h.open_status;
            };
            input = refl;
            same_version = refl;
            balanced = refl;
          },
        )
      ]

  pub process_response-IsRead :
      (w : Period) (b : ℕ) (m : PeerManager) (p : PeerServer)
      → IsCalm w
      → IsReady k m p
      → (m' : PeerManager) × (p' : PeerServer) × (process_response w b m p ≡ some (m', p'))
        × IsRead k m p m' p'
  unfolding process_response
  process_response-IsRead w b m p c h = elim (Bool-cases (b == response_acknowledgement)) [
    | inl y ↦ let (m', p', made, s) = acknowledge-IsRead w m p c h in (m', p', rw y made, s)
    | inr n ↦
        (m, p, rw n refl, record { ready = h; input = refl; same_version = refl; balanced = refl })
  ]
