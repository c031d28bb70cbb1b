-- ===== src/Peers/Sending/Writes.antt =====
-- How the queue of a peer server is handed to libuv in a round of `SendPeerServersResponses` of
-- Pulsar/src/PeerServersManager.cpp.
use pulsar_server_framework.Prelude.{
  ℕ, ◌+◌, ◌<◌, ◌≡◌, refl, ap, [], some, Bool, true, false, ◌&&◌, length, arith,
}
use pulsar_server_framework.Peers.{Status, PeerServer, PeerManager, is_connected, World}
use pulsar_server_framework.Peers.Sending.{
  peer_unlocked_queue, server_erased, to_forward, take_queue, forward,
}
use pulsar_server_framework.Peers.States.{Others, IsConnection, requeued-IsConnection, same_counts}
use pulsar_server_framework.Peers.Sending.Rounds.{
  IsForwarding, IsSent, empty_queue, written_queue, relisted_queue, length-to_forward,
  IsUnderway-to_forward, after_forwarding-IsCalled,
}

module _ (k : Others) where
  -- The manager once libuv has accepted a write.
  abbrev writing_manager : PeerManager → ℕ → PeerManager
  writing_manager m n = record m {
    stat = record (m.stat) { responses_being_sent_count = m.stat.responses_being_sent_count + n };
  }

  -- The queue that is sent from, taken: libuv accepts it.
  pub written-IsSent :
      (w : World) (flag : Bool) (s : Status) (m : PeerManager) (p : PeerServer)
      → IsConnection k m p
      → IsForwarding k.address p
      → p.responses_being_sent ≡ []
      → 0 < length (peer_unlocked_queue flag p)
      → (is_connected s && w.uv_write_ok) ≡ true
      → (m' : PeerManager) × (p' : PeerServer) × (forward w s m (take_queue flag s p)
          ≡ some (m', p'))
        × IsSent k m p m' (server_erased flag p')
  unfolding forward take_queue server_erased
  written-IsSent w true s m p h g idle pos ok =
      let fs = to_forward s p.responses_queue2 in
      let l = length-to_forward s p.responses_queue2 in
      (
        writing_manager m (length fs),
        take_queue true s p,
        rw ok refl,
        record {
          consistent =
              requeued-IsConnection k m (writing_manager m (length fs)) p p.responses_queue1 [] fs
                p.in_set1 false p.response_bytes p.version
                (record { same_connected = refl; same_connecting = refl; same_closing = refl }) h;
          forwarding = record {
            underway =
                IsUnderway-to_forward k.address s p.responses_queue2 g.forward_queue2.forwards;
            forward_queue1 =
                written_queue p.responses_queue1 p.in_set1 (length p.responses_being_sent)
                  (length fs) (omega (arith, l)) g.forward_queue1;
            forward_queue2 = empty_queue (length fs);
          };
          input = refl;
          same_version = refl;
          same_direction = refl;
          balanced = omega (arith, l, ap length idle);
        },
      )
  written-IsSent w false s m p h g idle pos ok =
      let fs = to_forward s p.responses_queue1 in
      let l = length-to_forward s p.responses_queue1 in
      (
        writing_manager m (length fs),
        take_queue false s p,
        rw ok refl,
        record {
          consistent =
              requeued-IsConnection k m (writing_manager m (length fs)) p [] p.responses_queue2 fs
                false p.in_set2 p.response_bytes p.version
                (record { same_connected = refl; same_connecting = refl; same_closing = refl }) h;
          forwarding = record {
            underway =
                IsUnderway-to_forward k.address s p.responses_queue1 g.forward_queue1.forwards;
            forward_queue1 = empty_queue (length fs);
            forward_queue2 =
                written_queue p.responses_queue2 p.in_set2 (length p.responses_being_sent)
                  (length fs) (omega (arith, l)) g.forward_queue2;
          };
          input = refl;
          same_version = refl;
          same_direction = refl;
          balanced = omega (arith, l, ap length idle);
        },
      )

  -- The queue that is sent from, taken: its callback is called at once.
  pub failed-IsSent :
      (w : World) (flag : Bool) (s : Status) (m : PeerManager) (p : PeerServer)
      → IsConnection k m p
      → IsForwarding k.address p
      → p.responses_being_sent ≡ []
      → 0 < length (peer_unlocked_queue flag p)
      → (is_connected s && w.uv_write_ok) ≡ false
      → (m' : PeerManager) × (p' : PeerServer) × (forward w s m (take_queue flag s p)
          ≡ some (m', p'))
        × IsSent k m p m' (server_erased flag p')
  unfolding forward take_queue server_erased
  failed-IsSent w true s m p h g idle pos bad =
      let fs = to_forward s p.responses_queue2 in
      let l = length-to_forward s p.responses_queue2 in
      let c =
        requeued-IsConnection k m m p p.responses_queue1 [] fs p.in_set1 p.in_set2 p.response_bytes
          p.version (same_counts m) h in
      let (m', p', made, u) =
        after_forwarding-IsCalled k true false w.now m (take_queue true s p) (omega (arith, l))
          (IsUnderway-to_forward k.address s p.responses_queue2 g.forward_queue2.forwards) c in
      (
        m',
        p',
        rw bad made,
        record {
          consistent =
              requeued-IsConnection k m' m' p' p'.responses_queue1 p'.responses_queue2
                p'.responses_being_sent p'.in_set1 false p'.response_bytes p'.version
                (same_counts m') u.consistent;
          forwarding = record {
            underway = rw (u.being_sent) tt;
            forward_queue1 =
                rw (u.queue1, u.set1, u.being_sent)
                  (relisted_queue p.responses_queue1 p.in_set1 (length p.responses_being_sent) 0
                    g.forward_queue1);
            forward_queue2 = rw (u.queue2, u.being_sent) (empty_queue 0);
          };
          input = u.input;
          same_version = u.same_version;
          same_direction = u.same_direction;
          balanced = omega (
            arith,
            l,
            u.finished,
            ap length idle,
            ap length u.queue1,
            ap length u.queue2,
            ap length u.being_sent,
          );
        },
      )
  failed-IsSent w false s m p h g idle pos bad =
      let fs = to_forward s p.responses_queue1 in
      let l = length-to_forward s p.responses_queue1 in
      let c =
        requeued-IsConnection k m m p [] p.responses_queue2 fs p.in_set1 p.in_set2 p.response_bytes
          p.version (same_counts m) h in
      let (m', p', made, u) =
        after_forwarding-IsCalled k true false w.now m (take_queue false s p) (omega (arith, l))
          (IsUnderway-to_forward k.address s p.responses_queue1 g.forward_queue1.forwards) c in
      (
        m',
        p',
        rw bad made,
        record {
          consistent =
              requeued-IsConnection k m' m' p' p'.responses_queue1 p'.responses_queue2
                p'.responses_being_sent false p'.in_set2 p'.response_bytes p'.version
                (same_counts m') u.consistent;
          forwarding = record {
            underway = rw (u.being_sent) tt;
            forward_queue1 = rw (u.queue1, u.being_sent) (empty_queue 0);
            forward_queue2 =
                rw (u.queue2, u.set2, u.being_sent)
                  (relisted_queue p.responses_queue2 p.in_set2 (length p.responses_being_sent) 0
                    g.forward_queue2);
          };
          input = u.input;
          same_version = u.same_version;
          same_direction = u.same_direction;
          balanced = omega (
            arith,
            l,
            u.finished,
            ap length idle,
            ap length u.queue1,
            ap length u.queue2,
            ap length u.being_sent,
          );
        },
      )
