-- ===== src/Peers/Sending/Adding.antt =====
-- `AddResponseToQueue` of Pulsar/src/PeerServersManager.cpp, called by threads.
use pulsar_server_framework.Prelude.{
  ℕ, ◌+◌, ◌≡◌, inl, inr, refl, List, [], ◌∷◌, ◌++◌, Bool, true, false, if◌then◌else◌, length,
  length-append, All, arith, Bool-cases, ◌==◌, ◌&&◌, not,
}
use pulsar_server_framework.Delivery.{Memory}
use pulsar_server_framework.Protocol.Response.{Response}
use pulsar_server_framework.Peers.{PeerServer, PeerManager}
use pulsar_server_framework.Peers.States.{Others, IsConnection, requeued-IsConnection, same_counts}
use pulsar_server_framework.Peers.Sending.{peer_locked_set, peer_pushed, add_to_server_queue}
use pulsar_server_framework.Peers.Sending.Forwards.{IsForwardable, finished_count}
use pulsar_server_framework.Peers.Sending.Rounds.{IsForwardQueue, IsForwarding, pending_count}

-- The connection is consistent, and the queues are right.
pub record IsPeer (k : Others) (m : PeerManager) (p : PeerServer) : Type 0 where
  pub connection : IsConnection k m p
  pub forwarding : IsForwarding k.address p

-- What an event leaves, if it adds `n` responses.
pub record IsStep (k : Others) (n : ℕ) (m : PeerManager) (p : PeerServer) (m' : PeerManager)
    (p' : PeerServer) : Type 0 where
  pub peer : IsPeer k m' p'
  pub balanced : finished_count m' + pending_count p' ≡ finished_count m + pending_count p + n

forwards_append :
    {a : ℕ} (q : List Response) (r : Response)
    → All (IsForwardable a) q
    → IsForwardable a r
    → All (IsForwardable a) (q ++ r ∷ [])
forwards_append [] r v w = (w, tt)
forwards_append (x ∷ q) r (v, vs) w = (v, forwards_append q r vs w)

pushed_queue :
    {a : ℕ} (q : List Response) (listed : Bool) (n : ℕ) (r : Response)
    → IsForwardable a r
    → IsForwardQueue a q listed n
    → IsForwardQueue a (q ++ r ∷ []) true n
pushed_queue q listed n r v h = record {
  forwards = forwards_append q r h.forwards v;
  has_work = λ e. omega (arith, length-append q (r ∷ []));
  announced = λ e. inl refl;
}

module _ (k : Others) where
  pushed-IsStep :
      (flag : Bool) (r : Response) (m : PeerManager) (p : PeerServer)
      → IsForwardable k.address r
      → IsPeer k m p
      → IsStep k 1 m p m (peer_pushed flag r p)
  unfolding peer_pushed
  pushed-IsStep true r m p v h = record {
    peer = record {
      connection =
          requeued-IsConnection k m m p (p.responses_queue1 ++ r ∷ []) p.responses_queue2
            p.responses_being_sent true p.in_set2 p.response_bytes p.version (same_counts m)
            h.connection;
      forwarding = record {
        underway = h.forwarding.underway;
        forward_queue1 =
            pushed_queue p.responses_queue1 p.in_set1 (length p.responses_being_sent) r v
              h.forwarding.forward_queue1;
        forward_queue2 = h.forwarding.forward_queue2;
      };
    };
    balanced = omega (arith, length-append p.responses_queue1 (r ∷ []));
  }
  pushed-IsStep false r m p v h = record {
    peer = record {
      connection =
          requeued-IsConnection k m m p p.responses_queue1 (p.responses_queue2 ++ r ∷ [])
            p.responses_being_sent p.in_set1 true p.response_bytes p.version (same_counts m)
            h.connection;
      forwarding = record {
        underway = h.forwarding.underway;
        forward_queue1 = h.forwarding.forward_queue1;
        forward_queue2 =
            pushed_queue p.responses_queue2 p.in_set2 (length p.responses_being_sent) r v
              h.forwarding.forward_queue2;
      };
    };
    balanced = omega (arith, length-append p.responses_queue2 (r ∷ []));
  }

  pub unchanged-IsStep : (m : PeerManager) (p : PeerServer) → IsPeer k m p → IsStep k 0 m p m p
  unchanged-IsStep m p h = record { peer = h; balanced = omega arith }

  -- Either the response is in the queue of the threads and its set has the server, or nothing changed.
  pub add_to_server_queue-IsStep :
      (max_pending : ℕ) (mem : Memory) (flag : Bool) (r : Response) (m : PeerManager)
      (p : PeerServer)
      → IsForwardable k.address r
      → IsPeer k m p
      → IsStep k
          (if (add_to_server_queue max_pending mem flag r p).added then 1 else 0)
          m
          p
          m
          (add_to_server_queue max_pending mem flag r p).server
  unfolding add_to_server_queue
  add_to_server_queue-IsStep max_pending mem flag r m p v h = elim (Bool-cases (max_pending == 0)) [
    | inl full ↦ rw full (unchanged-IsStep m p h)
    | inr room ↦ elim (Bool-cases mem.queue_push_fails) [
      | inl fails ↦ rw (room, fails) (unchanged-IsStep m p h)
      | inr lasts ↦ elim (Bool-cases (not (peer_locked_set flag p) && mem.set_insert_fails)) [
        | inl out ↦ rw (room, lasts, out) (unchanged-IsStep m p h)
        | inr ins ↦ rw (room, lasts, ins) (pushed-IsStep flag r m p v h)
      ]
    ]
  ]
