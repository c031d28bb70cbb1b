-- ===== src/Peers/Traffic/Draining.antt =====
-- That a connected peer server's queues empty: `SendPeerServersResponses` of
-- Pulsar/src/PeerServersManager.cpp and `after_send_responses` of Pulsar/src/ConnectionsManager.cpp.
use pulsar_server_framework.Prelude.{
  ℕ, ◌+◌, ◌≡◌, ◌≢◌, inl, inr, refl, ap, ◌∙◌, [], ◌∷◌, some, Bool, true, false, length, arith,
  Bool-cases, not,
}
use pulsar_server_framework.ByteOrder.{ByteOrder}
use pulsar_server_framework.Protocol.Parser.{Registry}
use pulsar_server_framework.Peers.{connected, other_error, PeerServer, PeerManager, World}
use pulsar_server_framework.Peers.States.{Others}
use pulsar_server_framework.Peers.Sending.{peer_locked_queue, peer_unlocked_queue}
use pulsar_server_framework.Peers.Sending.Forwards.{finished_count}
use pulsar_server_framework.Peers.Sending.Rounds.{pending_count, after_forwarding-IsSent}
use pulsar_server_framework.Peers.Sending.Servers.{
  send_to_server-IsSent, toggled-finished, toggled-direction,
}
use pulsar_server_framework.Peers.Sending.Connected.{
  send_to_server-connected, send_to_server-IsTaken, after_forwarding-status,
}
use pulsar_server_framework.Peers.Sending.Adding.{IsPeer}
use pulsar_server_framework.Peers.Traffic.{
  send_forwarded, forwarded_back, peer_step, peer_run, is_underway,
}
use pulsar_server_framework.Peers.Traffic.Safety.{pos_underway, not_underway}

-- A connected server, its connection consistent and its queues right, that nothing is being sent to.
pub record IsIdle (k : Others) (m : PeerManager) (p : PeerServer) : Type 0 where
  pub peer : IsPeer k m p
  pub is_open : p.status ≡ connected
  pub nothing_sent : p.responses_being_sent ≡ []

-- libuv and the memory do what they are asked.
pub record IsWilling (w : World) : Type 0 where
  pub answers : w.uv_getaddrinfo ≢ other_error
  pub writes : w.uv_write_ok ≡ true
  pub lasts : w.reserve_fails ≡ false

-- What SendResponses and the callback of its write leave.
record IsDrained (k : Others) (m : PeerManager) (p : PeerServer) (m' : PeerManager)
    (p' : PeerServer) : Type 0 where
  idle : IsIdle k m' p'
  turned : m'.response_direction_flag ≡ not m.response_direction_flag
  sent_from : peer_unlocked_queue (not m.response_direction_flag) p' ≡ []
  other_queue :
      peer_locked_queue (not m.response_direction_flag) p'
      ≡ peer_locked_queue (not m.response_direction_flag) p
  balanced : finished_count m' + pending_count p' ≡ finished_count m + pending_count p

queues_of :
    (flag : Bool) (p q : PeerServer)
    → q.responses_queue1 ≡ p.responses_queue1
    → q.responses_queue2 ≡ p.responses_queue2
    → (peer_unlocked_queue flag q ≡ peer_unlocked_queue flag p)
      × (peer_locked_queue flag q ≡ peer_locked_queue flag p)
queues_of true p q e1 e2 = (e2, e1)
queues_of false p q e1 e2 = (e1, e2)

module _ ⦃o : ByteOrder⦄ (k : Others) (max_pending : ℕ) (processors : Registry) where
  drain_once :
      (w : World) (now : ℕ) (m : PeerManager) (p : PeerServer)
      → IsWilling w
      → IsIdle k m p
      → (m1 : PeerManager) × (p1 : PeerServer) × (m' : PeerManager) × (p' : PeerServer) × (peer_step
            max_pending processors
            (send_forwarded w)
            m
            p
          ≡ some (0, m1, p1))
        × (peer_step max_pending processors (forwarded_back true now) m1 p1 ≡ some (0, m', p'))
        × IsDrained k m p m' p'
  unfolding peer_step
  drain_once w now m p v h =
      let (m1, p1, sent, s) =
        send_to_server-IsSent k w m p h.peer.connection h.peer.forwarding v.answers in
      let t =
        send_to_server-IsTaken w m m1 p p1 h.peer.forwarding h.is_open h.nothing_sent v.writes
          v.lasts sent in
      let stays = send_to_server-connected w m m1 p p1 h.is_open v.writes sent in
      elim (Bool-cases (is_underway p1.responses_being_sent)) [
        | inr none_sent ↦ (
          m1,
          p1,
          m1,
          p1,
          rw sent refl,
          rw none_sent refl,
          record {
            idle = record {
              peer = record { connection = s.consistent; forwarding = s.forwarding };
              is_open = stays;
              nothing_sent = not_underway p1.responses_being_sent none_sent;
            };
            turned = s.same_direction ∙ toggled-direction m;
            sent_from = t.sent_from;
            other_queue = t.other_queue;
            balanced = omega (arith, s.balanced, toggled-finished m);
          },
        )
        | inl some_sent ↦
            let (m2, p2, called, empty, u, e1, e2) =
              after_forwarding-IsSent k false true now m1 p1
                (pos_underway p1.responses_being_sent some_sent) s.consistent s.forwarding in
            let (q1, q2) = queues_of (not m.response_direction_flag) p1 p2 e1 e2 in
            (
              m1,
              p1,
              m2,
              p2,
              rw sent refl,
              rw (some_sent, called) refl,
              record {
                idle = record {
                  peer = record { connection = u.consistent; forwarding = u.forwarding };
                  is_open = after_forwarding-status now m1 m2 p1 p2 called ∙ stays;
                  nothing_sent = empty;
                };
                turned = u.same_direction ∙ (s.same_direction ∙ toggled-direction m);
                sent_from = q1 ∙ t.sent_from;
                other_queue = q2 ∙ t.other_queue;
                balanced = omega (arith, u.balanced, s.balanced, toggled-finished m);
              },
            )
      ]

both_empty :
    (flag : Bool) (p : PeerServer)
    → peer_unlocked_queue flag p ≡ []
    → peer_locked_queue flag p ≡ []
    → (p.responses_queue1 ≡ []) × (p.responses_queue2 ≡ [])
both_empty true p e1 e2 = (e2, e1)
both_empty false p e1 e2 = (e1, e2)

swapped_back :
    (flag : Bool) (p : PeerServer) → peer_locked_queue (not flag) p ≡ peer_unlocked_queue flag p
swapped_back true p = refl
swapped_back false p = refl

module _ ⦃o : ByteOrder⦄ (k : Others) (max_pending : ℕ) (processors : Registry) where
  -- For a connected server whose connection is consistent and whose queues are right, which means that
  -- they hold responses for its address, with nothing under way: two runs of SendResponses, each with a
  -- successful callback, finish every pending response, while libuv and the memory do what they are
  -- asked.
  pub peer_run-drains :
      (w1 w2 : World) (t1 t2 : ℕ) (m : PeerManager) (p : PeerServer)
      → IsWilling w1
      → IsWilling w2
      → IsIdle k m p
      → (m' : PeerManager) × (p' : PeerServer) × (peer_run max_pending processors
            (send_forwarded w1
              ∷ forwarded_back true t1
              ∷ send_forwarded w2
              ∷ forwarded_back true t2
              ∷ [])
            m
            p
          ≡ some (0, m', p'))
        × (pending_count p' ≡ 0)
        × (finished_count m' ≡ finished_count m + pending_count p)
  unfolding peer_run
  peer_run-drains w1 w2 t1 t2 m p v1 v2 h =
      let (_, _, m1, p1, sent1, called1, d1) = drain_once k max_pending processors w1 t1 m p v1 h in
      let (_, _, m2, p2, sent2, called2, d2) =
        drain_once k max_pending processors w2 t2 m1 p1 v2 d1.idle in
      let f1 = m.response_direction_flag in
      let f2 = m1.response_direction_flag in
      let e =
        d2.other_queue
        ∙ (swapped_back f2 p1
            ∙ (ap (λ (f : Bool). peer_unlocked_queue f p1) d1.turned ∙ d1.sent_from)) in
      let (q1, q2) = both_empty (not f2) p2 d2.sent_from e in
      let zero_left : pending_count p2 ≡ 0 =
        omega (arith, ap length q1, ap length q2, ap length d2.idle.nothing_sent) in
      (
        m2,
        p2,
        rw (sent1, called1, sent2, called2) refl,
        zero_left,
        omega (arith, d1.balanced, d2.balanced, zero_left),
      )
