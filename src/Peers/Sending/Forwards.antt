-- ===== src/Peers/Sending/Forwards.antt =====
-- What the callback of a write makes of the responses to a peer server:
-- `AfterSendingPeerServersResponses` of Pulsar/src/PeerServersManager.cpp and `after_send_responses` of
-- Pulsar/src/ConnectionsManager.cpp.
use pulsar_server_framework.Prelude.{
  ℕ, zero, suc, ◌+◌, ◌<◌, ◌≡◌, refl, ap, ◌∙◌, inl, inr, List, [], ◌∷◌, Option, some, none, Bool,
  true, false, ◌||◌, if◌then◌else◌, length, All, arith, Bool-cases,
}
use pulsar_server_framework.Protocol.Response.{Response}
use pulsar_server_framework.Delivery.{not_empty}
use pulsar_server_framework.Peers.{
  less_than_one, increased, Status, connecting, connected, disconnecting, uninitiated, disconnected,
  connecting_timed_out, overflowed, Forwarding, ForwardStat, PeerServer, PeerManager, is_connected,
}
use pulsar_server_framework.Peers.Sending.{
  increase_forwarded_responses_count, count_forward_error, count_forwarded, count_forwarding,
  server_back_to_sets, after_sending_peer_servers_responses, after_sending_response,
  after_each_forwarding,
}
use pulsar_server_framework.Peers.States.{
  Others, IsConnection, IsUntouched, untouched, disconnect_server-IsConnection, SameConnection,
  same_connection, IsConnection-moved,
}

-- A response for the peer server of this address, with bytes.
pub record IsForwardable (address : ℕ) (r : Response) : Type 0 where
  pub forward_flag : r.is_forward ≡ true
  pub addressed : address ≡ r.server_ipv4_address
  pub not_blank : 0 < length r.bytes

abbrev pub IsUnderway : ℕ → Forwarding → Type 0
IsUnderway address f = IsForwardable address f.response

-- The responses that are done with.
abbrev pub finished_count : PeerManager → ℕ
finished_count m = m.stat.responses_forwarded + m.stat.responses_failed_to_forward

-- The number of acknowledgements that are awaited and the time do not matter to the connection.
pub counted_connection :
    (p : PeerServer) (n t : ℕ)
    → SameConnection p (record p { responses_forwarded = n; overflowed_time = t })
counted_connection p n t = record {
  same_status = refl;
  same_address = refl;
  same_flags = record {
    connection_flag = refl;
    reading_flag = refl;
    resolving_flag = refl;
    connect_flag = refl;
    close_flag = refl;
  };
}

counted-IsUntouched :
    (p : PeerServer) (n t : ℕ)
    → IsUntouched p (record p { responses_forwarded = n; overflowed_time = t })
counted-IsUntouched p n t = record {
  queue1 = refl;
  queue2 = refl;
  being_sent = refl;
  set1 = refl;
  set2 = refl;
  input = refl;
  same_version = refl;
}

increase-same :
    (now : ℕ) (p : PeerServer)
    → SameConnection p (increase_forwarded_responses_count now p)
      × IsUntouched p (increase_forwarded_responses_count now p)
unfolding increase_forwarded_responses_count
increase-same now p =
    let n = increased p.responses_forwarded in
    let t = if less_than_one n then p.overflowed_time else now in
    elim (Bool-cases (is_connected p.status)) [
      | inl y ↦ rw y (counted_connection p n t, counted-IsUntouched p n t)
      | inr n' ↦ rw n' (same_connection p, untouched p)
    ]

count_forward_error-kept :
    (e : Option Status) (t : ForwardStat)
    → ((count_forward_error e t).responses_forwarded ≡ t.responses_forwarded)
      × ((count_forward_error e t).responses_failed_to_forward ≡ t.responses_failed_to_forward)
unfolding count_forward_error
count_forward_error-kept none t = (refl, refl)
count_forward_error-kept (some connecting) t = (refl, refl)
count_forward_error-kept (some connected) t = (refl, refl)
count_forward_error-kept (some disconnecting) t = (refl, refl)
count_forward_error-kept (some uninitiated) t = (refl, refl)
count_forward_error-kept (some disconnected) t = (refl, refl)
count_forward_error-kept (some connecting_timed_out) t = (refl, refl)
count_forward_error-kept (some overflowed) t = (refl, refl)

-- What the callback of one response does, before the sets: the response is finished.
record IsCounted (k : Others) (m : PeerManager) (p : PeerServer) (n : PeerManager) (q : PeerServer)
    : Type 0 where
  consistent : IsConnection k n q
  same_server : IsUntouched p q
  same_direction : n.response_direction_flag ≡ m.response_direction_flag
  one_finished : finished_count n ≡ finished_count m + 1

module _ (k : Others) where
  count_forwarding-IsCounted :
      (write_ok : Bool) (now : ℕ) (f : Forwarding) (m : PeerManager) (p : PeerServer)
      → IsUnderway k.address f
      → IsConnection k m p
      → (n : PeerManager) × (q : PeerServer) × (count_forwarding write_ok now f m p ≡ some (n, q))
        × IsCounted k m p n q
  unfolding count_forwarding count_forwarded
  count_forwarding-IsCounted true now f m p v h =
      let (g, u) = increase-same now p in
      let n : PeerManager = record m { stat = count_forwarded f.response m.stat } in
      (
        n,
        increase_forwarded_responses_count now p,
        ground (arith, v.not_blank),
        record {
          consistent =
              IsConnection-moved k m n p (increase_forwarded_responses_count now p)
                (record { same_connected = refl; same_connecting = refl; same_closing = refl }) g h;
          same_server = u;
          same_direction = refl;
          one_finished = omega arith;
        },
      )
  count_forwarding-IsCounted false now f m p v h =
      let t = m.stat in
      let m0 : PeerManager = record m {
        stat = record t { responses_failed_to_forward = t.responses_failed_to_forward + 1 };
      } in
      let h0 =
        IsConnection-moved k m m0 p p
          (record { same_connected = refl; same_connecting = refl; same_closing = refl })
          (same_connection p) h in
      let (m1, q, made, c, u, d, s) = disconnect_server-IsConnection k m0 p true h0 (λ _. refl) in
      let n : PeerManager = record m1 { stat = count_forward_error f.forward_error m1.stat } in
      let (e1, e2) = count_forward_error-kept f.forward_error m1.stat in
      (
        n,
        q,
        rw made refl,
        record {
          consistent =
              IsConnection-moved k m1 n q q
                (record { same_connected = refl; same_connecting = refl; same_closing = refl })
                (same_connection q) c;
          same_server = u;
          same_direction = d;
          one_finished = omega (
            arith,
            e1,
            e2,
            ap (λ (z : ForwardStat). z.responses_forwarded) s,
            ap (λ (z : ForwardStat). z.responses_failed_to_forward) s,
          );
        },
      )

-- What the callbacks of `n` responses do: the queues are the same, and the sets get the server back
-- where its queues have responses.
pub record IsForwarded (k : Others) (n : ℕ) (m : PeerManager) (p : PeerServer) (m' : PeerManager)
    (p' : PeerServer) : Type 0 where
  pub consistent : IsConnection k m' p'
  pub queue1 : p'.responses_queue1 ≡ p.responses_queue1
  pub queue2 : p'.responses_queue2 ≡ p.responses_queue2
  pub being_sent : p'.responses_being_sent ≡ p.responses_being_sent
  pub input : p'.response_bytes ≡ p.response_bytes
  pub same_version : p'.version ≡ p.version
  pub set1 : 0 < n → p'.in_set1 ≡ (p.in_set1 || not_empty p.responses_queue1)
  pub set2 : 0 < n → p'.in_set2 ≡ (p.in_set2 || not_empty p.responses_queue2)
  pub unset1 : n ≡ 0 → p'.in_set1 ≡ p.in_set1
  pub unset2 : n ≡ 0 → p'.in_set2 ≡ p.in_set2
  pub same_direction : m'.response_direction_flag ≡ m.response_direction_flag
  pub finished : finished_count m' ≡ finished_count m + n

back_connection : (p : PeerServer) → SameConnection p (server_back_to_sets p)
unfolding server_back_to_sets
back_connection p = record {
  same_status = refl;
  same_address = refl;
  same_flags = record {
    connection_flag = refl;
    reading_flag = refl;
    resolving_flag = refl;
    connect_flag = refl;
    close_flag = refl;
  };
}

-- A set that the server is put back to twice.
or_twice : (a b : Bool) → ((a || b) || b) ≡ (a || b)
or_twice a b = ground arith

module _ (k : Others) where
  after_sending-IsForwarded :
      (write_ok : Bool) (now : ℕ) (f : Forwarding) (m : PeerManager) (p : PeerServer)
      → IsUnderway k.address f
      → IsConnection k m p
      → (m' : PeerManager) × (p' : PeerServer) × (after_sending_response write_ok now f m p
          ≡ some (m', p'))
        × IsForwarded k 1 m p m' p'
  unfolding after_sending_response after_sending_peer_servers_responses server_back_to_sets
  after_sending-IsForwarded write_ok now f m p v h =
      let (n, q, made, c) = count_forwarding-IsCounted k write_ok now f m p v h in
      let u = c.same_server in
      (
        n,
        server_back_to_sets q,
        ground (arith, made, v.forward_flag, h.addressed, v.addressed),
        record {
          consistent =
              IsConnection-moved k n n q (server_back_to_sets q)
                (record { same_connected = refl; same_connecting = refl; same_closing = refl })
                (back_connection q) c.consistent;
          queue1 = u.queue1;
          queue2 = u.queue2;
          being_sent = u.being_sent;
          input = u.input;
          same_version = u.same_version;
          set1 = λ _. rw (u.set1, u.queue1) refl;
          set2 = λ _. rw (u.set2, u.queue2) refl;
          unset1 = λ e. absurd (omega arith);
          unset2 = λ e. absurd (omega arith);
          same_direction = c.same_direction;
          finished = c.one_finished;
        },
      )

  none-IsForwarded :
      (m : PeerManager) (p : PeerServer) → IsConnection k m p → IsForwarded k 0 m p m p
  none-IsForwarded m p h = record {
    consistent = h;
    queue1 = refl;
    queue2 = refl;
    being_sent = refl;
    input = refl;
    same_version = refl;
    set1 = λ e. absurd (omega arith);
    set2 = λ e. absurd (omega arith);
    unset1 = λ e. refl;
    unset2 = λ e. refl;
    same_direction = refl;
    finished = omega arith;
  }

  -- A set after a first callback and `n` more.
  set_twice :
      (n : ℕ) (a b c : Bool) (q q' : List Response)
      → b ≡ (a || not_empty q)
      → q' ≡ q
      → (0 < n → c ≡ (b || not_empty q'))
      → (n ≡ 0 → c ≡ b)
      → c ≡ (a || not_empty q)
  set_twice zero a b c q q' e s f g = g refl ∙ e
  set_twice (suc n) a b c q q' e s f g = f (omega arith) ∙ rw (e, s) (or_twice a (not_empty q))

  IsForwarded-trans :
      (n : ℕ) (m m1 m2 : PeerManager) (p p1 p2 : PeerServer)
      → IsForwarded k 1 m p m1 p1
      → IsForwarded k n m1 p1 m2 p2
      → IsForwarded k (suc n) m p m2 p2
  IsForwarded-trans n m m1 m2 p p1 p2 u v = record {
    consistent = v.consistent;
    queue1 = v.queue1 ∙ u.queue1;
    queue2 = v.queue2 ∙ u.queue2;
    being_sent = v.being_sent ∙ u.being_sent;
    input = v.input ∙ u.input;
    same_version = v.same_version ∙ u.same_version;
    set1 = λ _.
        set_twice n p.in_set1 p1.in_set1 p2.in_set1 p.responses_queue1 p1.responses_queue1
          (u.set1 (omega arith)) u.queue1 v.set1 v.unset1;
    set2 = λ _.
        set_twice n p.in_set2 p1.in_set2 p2.in_set2 p.responses_queue2 p1.responses_queue2
          (u.set2 (omega arith)) u.queue2 v.set2 v.unset2;
    unset1 = λ e. absurd (omega arith);
    unset2 = λ e. absurd (omega arith);
    same_direction = v.same_direction ∙ u.same_direction;
    finished = omega (arith, u.finished, v.finished);
  }

  pub after_each-IsForwarded :
      (write_ok : Bool) (now : ℕ) (fs : List Forwarding) (m : PeerManager) (p : PeerServer)
      → All (IsUnderway k.address) fs
      → IsConnection k m p
      → (m' : PeerManager) × (p' : PeerServer) × (after_each_forwarding write_ok now fs m p
          ≡ some (m', p'))
        × IsForwarded k (length fs) m p m' p'
  unfolding after_each_forwarding
  after_each-IsForwarded write_ok now [] m p v h = (m, p, refl, none-IsForwarded m p h)
  after_each-IsForwarded write_ok now (f ∷ fs) m p (v, vs) h =
      let (m1, p1, first, u) = after_sending-IsForwarded write_ok now f m p v h in
      let (m2, p2, rest, w) = after_each-IsForwarded write_ok now fs m1 p1 vs u.consistent in
      (m2, p2, rw first rest, IsForwarded-trans (length fs) m m1 m2 p p1 p2 u w)
