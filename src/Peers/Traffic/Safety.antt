-- ===== src/Peers/Traffic/Safety.antt =====
-- What every event leaves of a peer server: Pulsar/src/PeerServersManager.cpp.
use pulsar_server_framework.Prelude.{
  ℕ, ◌+◌, ◌<◌, ◌≡◌, inl, inr, refl, List, [], ◌∷◌, some, none, Bool, true, false, if◌then◌else◌,
  length, length-append, arith, Bool-cases, lt→ltb,
}
use pulsar_server_framework.ByteOrder.{ByteOrder}
use pulsar_server_framework.Protocol.Parser.{Registry}
use pulsar_server_framework.Peers.{
  accepted, response_buffer_size, Forwarding, PeerServer, PeerManager, on_server_closed,
  after_getaddrinfo, connect,
}
use pulsar_server_framework.Peers.States.{
  Others, IsConnection, IsUntouched, disconnect_server-IsConnection,
}
use pulsar_server_framework.Peers.Callbacks.{
  on_server_closed-IsConnection, after_getaddrinfo-IsConnection, after_connect-IsConnection,
}
use pulsar_server_framework.Peers.Sending.{add_to_server_queue, toggled}
use pulsar_server_framework.Peers.Sending.Forwards.{finished_count}
use pulsar_server_framework.Peers.Sending.Rounds.{
  IsForwarding, pending_count, IsSent, after_forwarding-IsSent,
}
use pulsar_server_framework.Peers.Sending.Servers.{send_to_server-IsSent, toggled-finished}
use pulsar_server_framework.Peers.Reading.Loop.{
  on_response_read-IsExtracted, on_response_read_error,
}
use pulsar_server_framework.Peers.Traffic.{
  PeerEvent, add_forwarded, send_forwarded, forwarded_back, address_found, connection_made,
  handle_closed, bytes_read, close_all, is_underway, peer_step, IsRegularFor,
}
use pulsar_server_framework.Peers.Sending.Adding.{
  IsPeer, IsStep, unchanged-IsStep, add_to_server_queue-IsStep,
}

pub not_underway : (fs : List Forwarding) → is_underway fs ≡ false → fs ≡ []
unfolding is_underway
not_underway [] e = refl
not_underway (f ∷ fs) e = absurd (ground (arith, e))

pub pos_underway : (fs : List Forwarding) → is_underway fs ≡ true → 0 < length fs
unfolding is_underway
pos_underway [] e = absurd (ground (arith, e))
pos_underway (f ∷ fs) e = omega arith

module _ (k : Others) where
  sent-IsStep :
      (m m0 : PeerManager) (p : PeerServer) (m' : PeerManager) (p' : PeerServer)
      → finished_count m ≡ finished_count m0
      → IsSent k m p m' p'
      → IsStep k 0 m0 p m' p'
  sent-IsStep m m0 p m' p' e s = record {
    peer = record { connection = s.consistent; forwarding = s.forwarding };
    balanced = omega (arith, s.balanced, e);
  }

  -- A step of the connection alone.
  connection-IsStep :
      (m m' : PeerManager) (p p' : PeerServer)
      → IsConnection k m' p'
      → IsUntouched p p'
      → m'.stat ≡ m.stat
      → IsForwarding k.address p
      → IsStep k 0 m p m' p'
  connection-IsStep m m' p p' h u e g = record {
    peer = record {
      connection = h;
      forwarding = record {
        underway = rw (u.being_sent) g.underway;
        forward_queue1 = rw (u.queue1, u.set1, u.being_sent) g.forward_queue1;
        forward_queue2 = rw (u.queue2, u.set2, u.being_sent) g.forward_queue2;
      };
    };
    balanced = rw (e, u.queue1, u.queue2, u.being_sent) (omega arith);
  }

module _ ⦃o : ByteOrder⦄ (k : Others) (max_pending : ℕ) (processors : Registry) where
  found :
      (status_ok : Bool) (m : PeerManager) (p : PeerServer)
      → p.is_resolving ≡ true
      → IsPeer k m p
      → (n : ℕ) × (m' : PeerManager) × (p' : PeerServer) × (peer_step max_pending processors
            (address_found status_ok accepted)
            m
            p
          ≡ some (n, m', p'))
        × IsStep k n m p m' p'
  unfolding peer_step after_getaddrinfo connect
  found true m p asked h = (
    0,
    (after_getaddrinfo true accepted m p).0,
    (after_getaddrinfo true accepted m p).1,
    rw asked refl,
    record {
      peer = record {
        connection = after_getaddrinfo-IsConnection k m p true h.connection asked;
        forwarding = record {
          underway = h.forwarding.underway;
          forward_queue1 = h.forwarding.forward_queue1;
          forward_queue2 = h.forwarding.forward_queue2;
        };
      };
      balanced = omega arith;
    },
  )
  found false m p asked h = (
    0,
    (after_getaddrinfo false accepted m p).0,
    (after_getaddrinfo false accepted m p).1,
    rw asked refl,
    record {
      peer = record {
        connection = after_getaddrinfo-IsConnection k m p false h.connection asked;
        forwarding = record {
          underway = h.forwarding.underway;
          forward_queue1 = h.forwarding.forward_queue1;
          forward_queue2 = h.forwarding.forward_queue2;
        };
      };
      balanced = omega arith;
    },
  )

  -- An event that is regular in the state in which it comes fails no assertion, closes no handle twice,
  -- and keeps the connection consistent and the queues right.
  pub peer_step-IsStep :
      (e : PeerEvent) (m : PeerManager) (p : PeerServer)
      → IsRegularFor k.address e p
      → IsPeer k m p
      → (n : ℕ) × (m' : PeerManager) × (p' : PeerServer) × (peer_step max_pending processors e m p
          ≡ some (n, m', p'))
        × IsStep k n m p m' p'
  unfolding peer_step after_getaddrinfo connect on_server_closed
  peer_step-IsStep (add_forwarded mem r) m p v h =
      let a = add_to_server_queue max_pending mem m.response_direction_flag r p in
      (
        if a.added then 1 else 0,
        m,
        a.server,
        refl,
        add_to_server_queue-IsStep k max_pending mem m.response_direction_flag r m p v h,
      )
  peer_step-IsStep (send_forwarded w) m p v h =
      let (m', p', made, s) = send_to_server-IsSent k w m p h.connection h.forwarding v in
      (0, m', p', rw made refl, sent-IsStep k (toggled m) m p m' p' (toggled-finished m) s)
  peer_step-IsStep (forwarded_back write_ok now) m p v h =
      elim (Bool-cases (is_underway p.responses_being_sent)) [
        | inr idle ↦ (0, m, p, rw idle refl, unchanged-IsStep k m p h)
        | inl busy ↦
            let (m', p', made, _, s, _, _) =
              after_forwarding-IsSent k false write_ok now m p
                (pos_underway p.responses_being_sent busy) h.connection h.forwarding in
            (0, m', p', rw (made, busy) refl, sent-IsStep k m m p m' p' refl s)
      ]
  peer_step-IsStep (address_found status_ok uv_tcp_connect) m p v h =
      elim (Bool-cases p.is_resolving) [
        | inr idle ↦ (0, m, p, rw idle refl, unchanged-IsStep k m p h)
        | inl asked ↦ rw v (found status_ok m p asked h)
      ]
  peer_step-IsStep (connection_made status_ok setsockopt_ok uv_read_start) m p v h =
      elim (Bool-cases p.is_connect_pending) [
        | inr idle ↦ (0, m, p, rw idle refl, unchanged-IsStep k m p h)
        | inl asked ↦
            let (m', p', made, c, u, e) =
              after_connect-IsConnection k m p status_ok uv_read_start h.connection asked in
            (0, m', p', rw (v, made, asked) refl, connection-IsStep k m m' p p' c u e h.forwarding)
      ]
  peer_step-IsStep (handle_closed now) m p v h = elim (Bool-cases p.is_close_pending) [
    | inr idle ↦ (0, m, p, rw idle refl, unchanged-IsStep k m p h)
    | inl asked ↦ (
      0,
      (on_server_closed now m p).0,
      (on_server_closed now m p).1,
      rw asked refl,
      record {
        peer = record {
          connection = on_server_closed-IsConnection k m p now h.connection asked;
          forwarding = record {
            underway = h.forwarding.underway;
            forward_queue1 = h.forwarding.forward_queue1;
            forward_queue2 = h.forwarding.forward_queue2;
          };
        };
        balanced = omega arith;
      },
    )
  ]
  peer_step-IsStep (bytes_read period none) m p v h = elim (Bool-cases p.is_reading) [
    | inr idle ↦ (0, m, p, rw idle refl, unchanged-IsStep k m p h)
    | inl asked ↦
        let (m', p', made, c, u, d, e) =
          disconnect_server-IsConnection k m p true h.connection (λ _. refl) in
        (
          0,
          m',
          p',
          rw (on_response_read_error period processors m p, made, asked) refl,
          connection-IsStep k m m' p p' c u e h.forwarding,
        )
  ]
  peer_step-IsStep (bytes_read period (some b)) m p (fits, calm) h =
      elim (Bool-cases p.is_reading) [
        | inr idle ↦ (0, m, p, rw idle refl, unchanged-IsStep k m p h)
        | inl asked ↦
            let (m', p', made, x) =
              on_response_read-IsExtracted k processors period b m p (omega arith) calm asked
                h.connection h.forwarding in
            let shorter = length-append p.response_bytes b in
            let room =
              lt→ltb (length p'.response_bytes) response_buffer_size
                (omega (arith, x.not_longer, fits, shorter)) in
            (
              0,
              m',
              p',
              rw (made, room, asked) refl,
              record {
                peer = record { connection = x.ready.consistent; forwarding = x.ready.forwarding };
                balanced = omega (arith, x.balanced);
              },
            )
      ]
  peer_step-IsStep close_all m p v h =
      let (m', p', made, c, u, d, e) =
        disconnect_server-IsConnection k m p true h.connection (λ _. refl) in
      (0, m', p', rw made refl, connection-IsStep k m m' p p' c u e h.forwarding)

  -- What a run leaves.
  pub record IsRun (n : ℕ) (m : PeerManager) (p : PeerServer) (m' : PeerManager) (p' : PeerServer)
      : Type 0 where
    pub peer : IsPeer k m' p'
    -- Each response that was added is finished once, or still pending.
    pub balanced : finished_count m' + pending_count p' ≡ finished_count m + pending_count p + n
