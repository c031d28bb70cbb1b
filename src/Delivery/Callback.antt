-- ===== src/Delivery/Callback.antt =====
-- What a round of `SendLocalClientsResponses` and the callback of its write do to a client's queues:
-- Pulsar/src/LocalClientsManager.cpp and Pulsar/src/ConnectionsManager.cpp.
use pulsar_server_framework.Prelude.{
  ℕ, zero, suc, ◌+◌, ◌-◌, ◌≤◌, ◌<◌, ◌≡◌, ◌≢◌, ◌⊎◌, refl, inl, inr, List, [], ◌∷◌, ◌++◌, none, some,
  Bool, true, false, not, ◌&&◌, ◌||◌, ◌==◌, length, All, arith, Bool-cases, Option-cases,
}
use pulsar_server_framework.Client.{Client, Server, ServerStat}
use pulsar_server_framework.Lifecycle.{
  mark_to_disconnect, stop_reading, queue_disconnection, try_to_remove, disconnect_and_delete,
}
use pulsar_server_framework.Pool.{remove_client, decrease_count_for_client}
use pulsar_server_framework.Protocol.Constants.{
  response_keep_alive, response_error, response_acknowledgement, response_fatal_error,
  response_ordinary,
}
use pulsar_server_framework.Protocol.Response.{Response}
use pulsar_server_framework.Delivery.{
  Filled, fill, count_type, count_sent, count_status, not_empty, back_to_sets, disconnect_if_done,
  after_sending_local_clients_responses, after_each,
}

-- What the loop takes and what it leaves.
pub record IsFilled (marked : Bool) (i : ℕ) (queue : List Response) (f : Filled) : Type 0 where
  -- Nothing is lost, and the order is kept.
  pub in_order : f.taken ++ f.left ≡ queue
  -- A marked client's queue is emptied.
  pub all_if_marked : marked ≡ true → f.left ≡ []
  -- The first round always takes its response.
  pub some_taken : i ≡ 0 → 0 < length queue → 0 < length f.taken
  pub not_more : length f.taken + length f.left ≡ length queue

pub fill-IsFilled :
    (marked : Bool) (i : ℕ) (queue : List Response) → IsFilled marked i queue (fill marked i queue)
unfolding fill
fill-IsFilled marked i [] = record {
  in_order = refl;
  all_if_marked = λ h. refl;
  some_taken = λ h k. k;
  not_more = omega arith;
}
fill-IsFilled marked i (r ∷ queue) =
    let ih = fill-IsFilled marked (i + 1) queue in
    ground (arith, ih.in_order, ih.not_more, ih.all_if_marked)

-- One of the five response codes.
abbrev pub IsCode : ℕ → Type 0
IsCode t =
    (t ≡ response_keep_alive)
    ⊎ (t ≡ response_error)
    ⊎ (t ≡ response_acknowledgement)
    ⊎ (t ≡ response_fatal_error)
    ⊎ (t ≡ response_ordinary)

-- A response for local clients of a type that the server knows, with bytes.
pub record IsSendable (r : Response) : Type 0 where
  pub local : r.is_forward ≡ false
  pub not_blank : 0 < length r.bytes
  pub known : IsCode r.response_type

-- What a client keeps of its queues, apart from the counts and the sets.
pub record SameQueues (c d : Client) : Type 0 where
  pub queue1 : d.responses_queue1 ≡ c.responses_queue1
  pub queue2 : d.responses_queue2 ≡ c.responses_queue2
  pub being_sent : d.responses_being_sent ≡ c.responses_being_sent

-- What AfterSendingLocalClientsResponses does to a client, for `n` responses.
pub record IsCalledBack (n : ℕ) (c d : Client) : Type 0 where
  pub queues : SameQueues c d
  pub responses : d.responses + n ≡ c.responses
  pub set1 : 0 < n → d.in_set1 ≡ (c.in_set1 || not_empty c.responses_queue1)
  pub set2 : 0 < n → d.in_set2 ≡ (c.in_set2 || not_empty c.responses_queue2)
  pub unset1 : n ≡ 0 → d.in_set1 ≡ c.in_set1
  pub unset2 : n ≡ 0 → d.in_set2 ≡ c.in_set2

-- Disconnecting touches neither queues nor counts nor sets.
pub record SameDelivery (c d : Client) : Type 0 where
  pub queues : SameQueues c d
  pub responses : d.responses ≡ c.responses
  pub set1 : d.in_set1 ≡ c.in_set1
  pub set2 : d.in_set2 ≡ c.in_set2

pub mark-SameDelivery :
    (by_server : Bool) (s : Server) (c : Client)
    → SameDelivery c (mark_to_disconnect by_server s c).1
unfolding mark_to_disconnect
mark-SameDelivery by_server s c = ground arith

mark-flag :
    (by_server : Bool) (s : Server) (c : Client)
    → (mark_to_disconnect by_server s c).0.response_direction_flag ≡ s.response_direction_flag
unfolding mark_to_disconnect
mark-flag by_server s c = ground arith

stop-SameDelivery : (c : Client) → SameDelivery c (stop_reading c)
unfolding stop_reading
stop-SameDelivery c = ground arith

remove-SameDelivery : (s : Server) (c : Client) → SameDelivery c (try_to_remove s c).client
unfolding try_to_remove queue_disconnection remove_client
remove-SameDelivery s c = ground arith

SameDelivery-trans : {c d e : Client} → SameDelivery c d → SameDelivery d e → SameDelivery c e
SameDelivery-trans p q = ground arith

pub disconnect-SameDelivery :
    (by_server : Bool) (s : Server) (c : Client)
    → SameDelivery c (disconnect_and_delete by_server s c).client
unfolding disconnect_and_delete
disconnect-SameDelivery by_server s c =
    let m = mark_to_disconnect by_server s c in
    ground (
      arith,
      SameDelivery-trans (mark-SameDelivery by_server s c)
          (SameDelivery-trans (stop-SameDelivery m.1) (remove-SameDelivery m.0 (stop_reading m.1))),
    )

count_type-some : (r : Response) (t : ServerStat) → IsCode r.response_type → count_type r t ≢ none
unfolding count_type
count_type-some r t k e = ground arith

count_type-total :
    (r : Response) (t : ServerStat)
    → IsCode r.response_type
    → (t' : ServerStat) × (count_type r t ≡ some t')
count_type-total r t k = elim (Option-cases (count_type r t)) [
  | inl e ↦ absurd (count_type-some r t k e)
  | inr found ↦ found
]

-- The statistics never stop the server on a response that can be sent, and leave the queues alone.
count_status-total :
    (write_ok : Bool) (r : Response) (s : Server) (c : Client)
    → IsSendable r
    → (s' : Server) × (c' : Client) × (count_status write_ok r s c ≡ some (s', c'))
      × SameDelivery c c'
      × (s'.response_direction_flag ≡ s.response_direction_flag)
unfolding count_status count_sent
count_status-total true r s c v =
    let (t, e) = count_type-total r s.stat v.known in
    let s' : Server = record s { stat = count_sent r t } in
    (s', c, rw e (ground (arith, v.not_blank)), ground arith, refl)
count_status-total false r s c v =
    let s' : Server = record s {
      stat = record (s.stat) { responses_failed_to_send = s.stat.responses_failed_to_send + 1 };
    } in
    let m = mark_to_disconnect true s' c in
    (m.0, m.1, refl, mark-SameDelivery true s' c, mark-flag true s' c)

done-SameDelivery : (s : Server) (c : Client) → SameDelivery c (disconnect_if_done s c).1
unfolding disconnect_if_done
done-SameDelivery s c =
    elim (Bool-cases (
      c.to_be_disconnected && not (not_empty c.responses_queue1 || not_empty c.responses_queue2))) [
        | inl done ↦ simp done (disconnect-SameDelivery true s c)
        | inr waiting ↦ simp waiting (ground arith)
      ]

pub pos_test : (n : ℕ) → 1 ≤ n → (n == 0) ≡ false
pos_test n h = ground arith

after_run :
    (write_ok : Bool) (now : ℕ) (r : Response) (s : Server) (c : Client) (s1 : Server) (c1 : Client)
    → r.is_forward ≡ false
    → count_status write_ok r s c ≡ some (s1, c1)
    → 1 ≤ c1.responses
    → after_sending_local_clients_responses write_ok now r s c
      ≡ some (
          disconnect_if_done s1
            (back_to_sets (record c1 { responses = c1.responses - 1; last_activity_time = now })))
unfolding after_sending_local_clients_responses decrease_count_for_client
after_run write_ok now r s c s1 c1 local e h = simp (local, e, pos_test c1.responses h)

back-IsCalledBack :
    (now : ℕ) (c c1 d : Client)
    → SameDelivery c c1
    → 1 ≤ c.responses
    → SameDelivery
        (back_to_sets (record c1 { responses = c1.responses - 1; last_activity_time = now }))
        d
    → IsCalledBack 1 c d
unfolding back_to_sets
back-IsCalledBack now c c1 d p h q = record {
  queues = ground arith;
  responses = omega (arith, q.responses, p.responses);
  set1 = λ k. rw (q.set1, p.set1, p.queues.queue1);
  set2 = λ k. rw (q.set2, p.set2, p.queues.queue2);
  unset1 = λ k. absurd (omega arith);
  unset2 = λ k. absurd (omega arith);
}

-- One response: the callback ends, the count falls by one, the sets get the client back.
after_sending-IsCalledBack :
    (write_ok : Bool) (now : ℕ) (r : Response) (s : Server) (c : Client)
    → IsSendable r
    → 1 ≤ c.responses
    → (s' : Server) × (c' : Client) × (after_sending_local_clients_responses write_ok now r s c
        ≡ some (s', c'))
      × IsCalledBack 1 c c'
after_sending-IsCalledBack write_ok now r s c v h =
    let (s1, c1, e1, d1, _) = count_status-total write_ok r s c v in
    let c2 : Client = record c1 { responses = c1.responses - 1; last_activity_time = now } in
    let d2 = done-SameDelivery s1 (back_to_sets c2) in
    let last = disconnect_if_done s1 (back_to_sets c2) in
    (
      last.0,
      last.1,
      after_run write_ok now r s c s1 c1 v.local e1 (omega (arith, d1.responses)),
      back-IsCalledBack now c c1 last.1 d1 h d2,
    )

next-IsCalledBack :
    (n : ℕ) (c d e : Client) → IsCalledBack 1 c d → IsCalledBack n d e → IsCalledBack (suc n) c e
next-IsCalledBack zero c d e p q = ground arith
next-IsCalledBack (suc n) c d e p q = ground (arith, q.set1 (omega arith), q.set2 (omega arith))

-- All responses of a write, one after the other.
pub after_each-IsCalledBack :
    (write_ok : Bool) (now : ℕ) (rs : List Response) (s : Server) (c : Client)
    → All IsSendable rs
    → length rs ≤ c.responses
    → (s' : Server) × (c' : Client) × (after_each write_ok now rs s c ≡ some (s', c'))
      × IsCalledBack (length rs) c c'
unfolding after_each
after_each-IsCalledBack write_ok now [] s c v h = (s, c, refl, ground arith)
after_each-IsCalledBack write_ok now (r ∷ rs) s c (v, vs) h =
    let (s1, c1, e1, a1) = after_sending-IsCalledBack write_ok now r s c v (omega arith) in
    let (s2, c2, e2, a2) =
      after_each-IsCalledBack write_ok now rs s1 c1 vs (omega (arith, a1.responses)) in
    (s2, c2, rw e1 e2, next-IsCalledBack (length rs) c c1 c2 a1 a2)
