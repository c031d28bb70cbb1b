-- ===== src/Peers/Sending/Rounds.antt =====
-- What a round of `SendPeerServersResponses` of Pulsar/src/PeerServersManager.cpp and the callback of
-- its write do to a peer server's queues.
use pulsar_server_framework.Prelude.{
  ℕ, ◌+◌, ◌<◌, ◌≡◌, ◌⊎◌, refl, sym, ap, ◌∙◌, inl, inr, List, [], ◌∷◌, some, Bool, true, false, ◌||◌,
  length, All, arith, Bool-cases,
}
use pulsar_server_framework.Protocol.Response.{Response}
use pulsar_server_framework.Delivery.{not_empty}
use pulsar_server_framework.Delivery.Queues.{not_empty-pos, pos-not_empty}
use pulsar_server_framework.Peers.{Status, PeerServer, PeerManager}
use pulsar_server_framework.Peers.Sending.{
  forwarding_done, after_forwarding, to_forward, all_forward,
}
use pulsar_server_framework.Peers.States.{
  Others, IsConnection, SameCounts, IsConnection-moved, requeued_connection,
}
use pulsar_server_framework.Peers.Sending.Forwards.{
  IsForwardable, IsUnderway, finished_count, after_each-IsForwarded,
}

-- One of the two queues: responses for the peer server of this address; a server in the set has responses there;
-- responses that wait are announced by the set, or by a write that has not ended.
pub record IsForwardQueue (address : ℕ) (queue : List Response) (listed : Bool) (underway : ℕ)
    : Type 0 where
  pub forwards : All (IsForwardable address) queue
  pub has_work : listed ≡ true → 0 < length queue
  pub announced : 0 < length queue → (listed ≡ true) ⊎ (0 < underway)

pub record IsForwarding (address : ℕ) (p : PeerServer) : Type 0 where
  pub underway : All (IsUnderway address) p.responses_being_sent
  pub forward_queue1 :
      IsForwardQueue address p.responses_queue1 p.in_set1 (length p.responses_being_sent)
  pub forward_queue2 :
      IsForwardQueue address p.responses_queue2 p.in_set2 (length p.responses_being_sent)

-- The responses that the server has accepted and not finished.
abbrev pub pending_count : PeerServer → ℕ
pending_count p =
    length p.responses_queue1 + length p.responses_queue2 + length p.responses_being_sent

-- What an operation of the event loop on the queues guarantees: no response is lost or sent twice.
pub record IsSent (k : Others) (m : PeerManager) (p : PeerServer) (m' : PeerManager)
    (p' : PeerServer) : Type 0 where
  pub consistent : IsConnection k m' p'
  pub forwarding : IsForwarding k.address p'
  pub input : p'.response_bytes ≡ p.response_bytes
  pub same_version : p'.version ≡ p.version
  pub same_direction : m'.response_direction_flag ≡ m.response_direction_flag
  pub balanced : finished_count m' + pending_count p' ≡ finished_count m + pending_count p

pub empty_queue : {a : ℕ} (n : ℕ) → IsForwardQueue a [] false n
empty_queue n = record { forwards = tt; has_work = λ e. cc; announced = λ h. absurd (omega arith) }

pub written_queue :
    {a : ℕ} (q : List Response) (listed : Bool) (n i : ℕ)
    → 0 < i
    → IsForwardQueue a q listed n
    → IsForwardQueue a q listed i
written_queue q listed n i pos h = record {
  forwards = h.forwards;
  has_work = h.has_work;
  announced = λ e. inr pos;
}

-- After a callback the set has the server if its queue has responses.
pub relisted_queue :
    {a : ℕ} (q : List Response) (listed : Bool) (n i : ℕ)
    → IsForwardQueue a q listed n
    → IsForwardQueue a q (listed || not_empty q) i
relisted_queue q listed n i h = record {
  forwards = h.forwards;
  has_work = λ e. elim (Bool-cases listed) [
    | inl l ↦ h.has_work l
    | inr l ↦ not_empty-pos q (sym (rw l refl) ∙ e)
  ];
  announced = λ e. inl (rw (pos-not_empty q e) (ground arith));
}

pub length-to_forward : (s : Status) (q : List Response) → length (to_forward s q) ≡ length q
unfolding to_forward
length-to_forward s [] = refl
length-to_forward s (r ∷ q) = omega (arith, length-to_forward s q)

pub IsUnderway-to_forward :
    (a : ℕ) (s : Status) (q : List Response)
    → All (IsForwardable a) q
    → All (IsUnderway a) (to_forward s q)
unfolding to_forward
IsUnderway-to_forward a s [] v = tt
IsUnderway-to_forward a s (r ∷ q) (v, vs) = (v, IsUnderway-to_forward a s q vs)

pub forwardable-all_forward :
    (a : ℕ) (q : List Response) → All (IsForwardable a) q → all_forward q ≡ true
unfolding all_forward
forwardable-all_forward a [] v = refl
forwardable-all_forward a (r ∷ q) (v, vs) = rw (v.forward_flag, forwardable-all_forward a q vs) refl

-- What the callback of a write leaves.
pub record IsCalled (k : Others) (m : PeerManager) (p : PeerServer) (m' : PeerManager)
    (p' : PeerServer) : Type 0 where
  pub consistent : IsConnection k m' p'
  pub queue1 : p'.responses_queue1 ≡ p.responses_queue1
  pub queue2 : p'.responses_queue2 ≡ p.responses_queue2
  pub being_sent : p'.responses_being_sent ≡ []
  pub input : p'.response_bytes ≡ p.response_bytes
  pub same_version : p'.version ≡ p.version
  pub set1 : p'.in_set1 ≡ (p.in_set1 || not_empty p.responses_queue1)
  pub set2 : p'.in_set2 ≡ (p.in_set2 || not_empty p.responses_queue2)
  pub same_direction : m'.response_direction_flag ≡ m.response_direction_flag
  pub finished : finished_count m' ≡ finished_count m + length p.responses_being_sent

done-kept :
    (called : Bool) (n : ℕ) (m : PeerManager)
    → SameCounts m (forwarding_done called n m)
      × (finished_count (forwarding_done called n m) ≡ finished_count m)
      × ((forwarding_done called n m).response_direction_flag ≡ m.response_direction_flag)
unfolding forwarding_done
done-kept true n m =
    (record { same_connected = refl; same_connecting = refl; same_closing = refl }, refl, refl)
done-kept false n m =
    (record { same_connected = refl; same_connecting = refl; same_closing = refl }, refl, refl)

module _ (k : Others) where
  pub after_forwarding-IsCalled :
      (called write_ok : Bool) (now : ℕ) (m : PeerManager) (p : PeerServer)
      → 0 < length p.responses_being_sent
      → All (IsUnderway k.address) p.responses_being_sent
      → IsConnection k m p
      → (m' : PeerManager) × (p' : PeerServer) × (after_forwarding called write_ok now m p
          ≡ some (m', p'))
        × IsCalled k m p m' p'
  unfolding after_forwarding
  after_forwarding-IsCalled called write_ok now m p pos v h =
      let fs = p.responses_being_sent in
      let (m1, p1, made, u) = after_each-IsForwarded k write_ok now fs m p v h in
      let (s, f, d) = done-kept called (length fs) m1 in
      let p' : PeerServer = record p1 { responses_being_sent = [] } in
      (
        forwarding_done called (length fs) m1,
        p',
        rw made (ground (arith, pos)),
        record {
          consistent =
              IsConnection-moved k m1 (forwarding_done called (length fs) m1) p1 p' s
                (requeued_connection p1 p1.responses_queue1 p1.responses_queue2 [] p1.in_set1
                  p1.in_set2 p1.response_bytes p1.version)
                u.consistent;
          queue1 = u.queue1;
          queue2 = u.queue2;
          being_sent = refl;
          input = u.input;
          same_version = u.same_version;
          set1 = u.set1 pos;
          set2 = u.set2 pos;
          same_direction = d ∙ u.same_direction;
          finished = f ∙ u.finished;
        },
      )

  -- The callback of a write keeps the queues right.
  pub after_forwarding-IsSent :
      (called write_ok : Bool) (now : ℕ) (m : PeerManager) (p : PeerServer)
      → 0 < length p.responses_being_sent
      → IsConnection k m p
      → IsForwarding k.address p
      → (m' : PeerManager) × (p' : PeerServer) × (after_forwarding called write_ok now m p
          ≡ some (m', p'))
        × (p'.responses_being_sent ≡ [])
        × IsSent k m p m' p'
        × (p'.responses_queue1 ≡ p.responses_queue1)
        × (p'.responses_queue2 ≡ p.responses_queue2)
  after_forwarding-IsSent called write_ok now m p pos h g =
      let (m', p', made, u) = after_forwarding-IsCalled called write_ok now m p pos g.underway h in
      (
        m',
        p',
        made,
        u.being_sent,
        record {
          consistent = u.consistent;
          forwarding = record {
            underway = rw (u.being_sent) tt;
            forward_queue1 =
                rw (u.queue1, u.set1, u.being_sent)
                  (relisted_queue p.responses_queue1 p.in_set1 (length p.responses_being_sent) 0
                    g.forward_queue1);
            forward_queue2 =
                rw (u.queue2, u.set2, u.being_sent)
                  (relisted_queue p.responses_queue2 p.in_set2 (length p.responses_being_sent) 0
                    g.forward_queue2);
          };
          input = u.input;
          same_version = u.same_version;
          same_direction = u.same_direction;
          balanced =
              omega
                (arith, u.finished, ap length u.queue1, ap length u.queue2, ap length u.being_sent);
        },
        u.queue1,
        u.queue2,
      )
