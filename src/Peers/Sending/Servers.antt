-- ===== src/Peers/Sending/Servers.antt =====
-- A round of `SendPeerServersResponses` for a peer server, and `SendResponses` as it sees it:
-- Pulsar/src/PeerServersManager.cpp, Pulsar/src/ConnectionsManager.cpp.
use pulsar_server_framework.Prelude.{
  ℕ, ◌+◌, ◌<◌, ◌≡◌, ◌≢◌, ◌⊎◌, refl, ap, ◌∙◌, inl, inr, List, [], ◌∷◌, some, Bool, true, false, not,
  ◌&&◌, length, arith, Bool-cases, ◌==◌, subst,
}
use pulsar_server_framework.Peers.{
  Status, other_error, Forwarding, PeerServer, PeerManager, is_connected, World,
}
use pulsar_server_framework.Peers.Sending.{
  peer_unlocked_queue, peer_unlocked_set, server_erased, take_queue, is_connecting, forward,
  forward_queue, send_peer_server_responses, toggled, send_to_server,
}
use pulsar_server_framework.Peers.States.{
  Others, IsConnection, IsUntouched, SameCounts, same_connection, IsConnection-moved,
  requeued-IsConnection, same_counts,
}
use pulsar_server_framework.Peers.Callbacks.Starting.{get_server_connection-IsConnectionFound}
use pulsar_server_framework.Peers.Sending.Forwards.{finished_count}
use pulsar_server_framework.Peers.Sending.Rounds.{
  IsForwarding, IsForwardQueue, IsSent, forwardable-all_forward,
}
use pulsar_server_framework.Peers.Sending.Writes.{written-IsSent, failed-IsSent}

pub sent_queue :
    {a : ℕ} (flag : Bool) (p : PeerServer)
    → IsForwarding a p
    → IsForwardQueue a
        (peer_unlocked_queue flag p)
        (peer_unlocked_set flag p)
        (length p.responses_being_sent)
sent_queue true p g = g.forward_queue2
sent_queue false p g = g.forward_queue1

some_work : (n : ℕ) → 0 < n → (0 == n) ≡ false
some_work n pos = ground arith

none_underway : (fs : List Forwarding) → fs ≡ [] → (0 == length fs) ≡ true
none_underway fs e = rw e refl

module _ (k : Others) where
  unsent :
      (m m' : PeerManager) (p : PeerServer)
      → SameCounts m m'
      → finished_count m' ≡ finished_count m
      → m'.response_direction_flag ≡ m.response_direction_flag
      → IsConnection k m p
      → IsForwarding k.address p
      → IsSent k m p m' p
  unsent m m' p s f d h g = record {
    consistent = IsConnection-moved k m m' p p s (same_connection p) h;
    forwarding = g;
    input = refl;
    same_version = refl;
    same_direction = d;
    balanced = omega (arith, f);
  }

  -- While a write has not ended, the server only leaves the set.
  busy-IsSent :
      (flag : Bool) (m : PeerManager) (p : PeerServer)
      → IsConnection k m p
      → IsForwarding k.address p
      → 0 < length p.responses_being_sent
      → IsSent k m p m (server_erased flag p)
  unfolding server_erased
  busy-IsSent true m p h g pos = record {
    consistent =
        requeued-IsConnection k m m p p.responses_queue1 p.responses_queue2 p.responses_being_sent
          p.in_set1 false p.response_bytes p.version (same_counts m) h;
    forwarding = record {
      underway = g.underway;
      forward_queue1 = g.forward_queue1;
      forward_queue2 = record {
        forwards = g.forward_queue2.forwards;
        has_work = λ e. cc;
        announced = λ e. inr pos;
      };
    };
    input = refl;
    same_version = refl;
    same_direction = refl;
    balanced = refl;
  }
  busy-IsSent false m p h g pos = record {
    consistent =
        requeued-IsConnection k m m p p.responses_queue1 p.responses_queue2 p.responses_being_sent
          false p.in_set2 p.response_bytes p.version (same_counts m) h;
    forwarding = record {
      underway = g.underway;
      forward_queue1 = record {
        forwards = g.forward_queue1.forwards;
        has_work = λ e. cc;
        announced = λ e. inr pos;
      };
      forward_queue2 = g.forward_queue2;
    };
    input = refl;
    same_version = refl;
    same_direction = refl;
    balanced = refl;
  }

  taken-IsSent :
      (w : World) (flag : Bool) (s : Status) (m : PeerManager) (p : PeerServer)
      → IsConnection k m p
      → IsForwarding k.address p
      → p.responses_being_sent ≡ []
      → 0 < length (peer_unlocked_queue flag p)
      → (m' : PeerManager) × (p' : PeerServer) × (forward w s m (take_queue flag s p)
          ≡ some (m', p'))
        × IsSent k m p m' (server_erased flag p')
  taken-IsSent w flag s m p h g idle pos = elim (Bool-cases (is_connected s && w.uv_write_ok)) [
    | inl ok ↦ written-IsSent k w flag s m p h g idle pos ok
    | inr bad ↦ failed-IsSent k w flag s m p h g idle pos bad
  ]

  idle_cases : (fs : List Forwarding) → (fs ≡ []) ⊎ ((0 < length fs) × ((0 == length fs) ≡ false))
  idle_cases [] = inl refl
  idle_cases (f ∷ fs) = inr (omega arith, ground arith)

  -- The exception that is counted where memory cannot be reserved.
  abbrev excepted : PeerManager → PeerManager
  excepted m = record m {
    stat = record (m.stat) {
      memory_allocation_exceptions = m.stat.memory_allocation_exceptions + 1;
    };
  }

  forward_queue-IsSent :
      (w : World) (flag : Bool) (s : Status) (m : PeerManager) (p : PeerServer)
      → IsConnection k m p
      → IsForwarding k.address p
      → peer_unlocked_set flag p ≡ true
      → (m' : PeerManager) × (p' : PeerServer) × (forward_queue w flag s m p ≡ some (m', p'))
        × IsSent k m p m' p'
  unfolding forward_queue
  forward_queue-IsSent w flag s m p h g listed =
      let q = sent_queue flag p g in
      let work = q.has_work listed in
      let w1 = some_work (length (peer_unlocked_queue flag p)) work in
      let w2 = none_underway p.responses_being_sent in
      elim (Bool-cases (is_connecting s)) [
        | inl y ↦ (m, p, rw y refl, unsent m m p (same_counts m) refl refl h g)
        | inr n ↦ elim (idle_cases p.responses_being_sent) [
          | inr (pos, busy) ↦
              (m, server_erased flag p, rw (n, busy) refl, busy-IsSent flag m p h g pos)
          | inl idle ↦ elim (Bool-cases w.reserve_fails) [
            | inl fails ↦ (
              excepted m,
              p,
              rw (n, w2 idle, w1, fails) refl,
              unsent m (excepted m) p
                  (record { same_connected = refl; same_connecting = refl; same_closing = refl })
                  refl refl h g,
            )
            | inr lasts ↦
                let (m', p', made, u) = taken-IsSent w flag s m p h g idle work in
                (
                  m',
                  server_erased flag p',
                  rw
                      (
                        made,
                        n,
                        w2 idle,
                        w1,
                        lasts,
                        forwardable-all_forward k.address (peer_unlocked_queue flag p) q.forwards,
                      )
                      refl,
                  u,
                )
          ]
        ]
      ]

  sets_same :
      (p q : PeerServer) (flag : Bool)
      → IsUntouched p q
      → peer_unlocked_set flag q ≡ peer_unlocked_set flag p
  sets_same p q true u = u.set2
  sets_same p q false u = u.set1

  IsForwarding-same :
      (p q : PeerServer) → IsUntouched p q → IsForwarding k.address p → IsForwarding k.address q
  IsForwarding-same p q u g = record {
    underway = rw (u.being_sent) g.underway;
    forward_queue1 = rw (u.queue1, u.set1, u.being_sent) g.forward_queue1;
    forward_queue2 = rw (u.queue2, u.set2, u.being_sent) g.forward_queue2;
  }

  -- A round for a server of the set fails no assertion.
  pub send_peer_server_responses-IsSent :
      (w : World) (m : PeerManager) (p : PeerServer)
      → IsConnection k m p
      → IsForwarding k.address p
      → peer_unlocked_set m.response_direction_flag p ≡ true
      → w.uv_getaddrinfo ≢ other_error
      → (m' : PeerManager) × (p' : PeerServer) × (send_peer_server_responses w m p ≡ some (m', p'))
        × IsSent k m p m' p'
  unfolding send_peer_server_responses
  send_peer_server_responses-IsSent w m p h g listed answered =
      let (c, found, u) = get_server_connection-IsConnectionFound k m p w h answered in
      let v = u.same_server in
      let h' = subst (λ (n : PeerManager). IsConnection k n c.server) u.same_manager u.consistent in
      let (m', p', made, s) =
        forward_queue-IsSent w m.response_direction_flag c.conn_status m c.server h'
          (IsForwarding-same p c.server v g)
          (sets_same p c.server m.response_direction_flag v ∙ listed) in
      (
        m',
        p',
        rw (found, u.same_manager) made,
        record {
          consistent = s.consistent;
          forwarding = s.forwarding;
          input = s.input ∙ v.input;
          same_version = s.same_version ∙ v.same_version;
          same_direction = s.same_direction;
          balanced =
              omega
                (arith, s.balanced, ap length v.queue1, ap length v.queue2, ap length v.being_sent);
        },
      )

  -- SendResponses, for a server in or out of the set, fails no assertion.
  pub send_to_server-IsSent :
      (w : World) (m : PeerManager) (p : PeerServer)
      → IsConnection k m p
      → IsForwarding k.address p
      → w.uv_getaddrinfo ≢ other_error
      → (m' : PeerManager) × (p' : PeerServer) × (send_to_server w m p ≡ some (m', p'))
        × IsSent k (toggled m) p m' p'
  unfolding send_to_server toggled
  send_to_server-IsSent w m p h g answered =
      let h' =
        IsConnection-moved k m (toggled m) p p
          (record { same_connected = refl; same_connecting = refl; same_closing = refl })
          (same_connection p) h in
      elim (Bool-cases (peer_unlocked_set (toggled m).response_direction_flag p)) [
        | inl listed ↦
            let (m', p', made, s) =
              send_peer_server_responses-IsSent w (toggled m) p h' g listed answered in
            (m', p', rw listed made, s)
        | inr out ↦ (
          toggled m,
          p,
          rw out refl,
          unsent (toggled m) (toggled m) p (same_counts (toggled m)) refl refl h' g,
        )
      ]

pub toggled-finished : (m : PeerManager) → finished_count (toggled m) ≡ finished_count m
unfolding toggled
toggled-finished m = refl

pub toggled-direction :
    (m : PeerManager) → (toggled m).response_direction_flag ≡ not m.response_direction_flag
unfolding toggled
toggled-direction m = refl
