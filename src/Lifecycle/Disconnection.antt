-- ===== src/Lifecycle/Disconnection.antt =====
-- When a client is given to disconnection: Pulsar/src/LocalClientsManager.cpp.
use pulsar_server_framework.Prelude.{
  ◌+◌, ◌≤◌, ◌≡◌, refl, ◌∙◌, inl, inr, List, [], ◌∷◌, length, Bool, true, false, not, ◌&&◌, ◌||◌,
  ◌==◌, if◌then◌else◌, arith, Bool-cases,
}
use mathlib.Core.Path.{subst}
use pulsar_server_framework.Client.{Client, Server}
use pulsar_server_framework.Pool.{remove_client}
use pulsar_server_framework.Lifecycle.{
  mark_to_disconnect, stop_reading, Disconnected, queue_disconnection, try_to_remove,
  disconnect_and_delete,
}

-- The connection flags and the counts of a client between two events.
pub record IsConsistent (c : Client) : Type 0 where
  -- It has a request in processing exactly if that count says so.
  pub processing_counted : c.request_is_being_processed ≡ true → 1 ≤ c.requests
  pub idle_counted : c.request_is_being_processed ≡ false → c.requests ≡ 0
  pub finished : c.request_processing_finished ≡ not c.request_is_being_processed
  -- Each response that is pending is counted.
  pub responses_counted :
      c.responses
      ≡ length c.responses_queue1 + length c.responses_queue2 + length c.responses_being_sent
  pub pool_flag : c.is_added_to_pool ≡ c.in_pool
  pub accepted : c.in_pool ≡ true → c.is_accepted ≡ true
  -- Outside the pool nothing is pending.
  pub outside : c.in_pool ≡ false → (c.requests ≡ 0) × (c.responses ≡ 0)
  pub gone : c.disconnect_initiated ≡ true → (c.in_pool ≡ false) × (c.to_be_disconnected ≡ true)

-- What DisconnectAndDelete guarantees.
pub record IsSafeDisconnection (s : Server) (c : Client) (r : Disconnected) : Type 0 where
  pub consistent : IsConsistent r.client
  -- Work is queued exactly if it returns TRUE, and then for the first time.
  pub queued_once :
      r.result ≡ true
      → (c.disconnect_initiated ≡ false)
        × (r.client.disconnect_initiated ≡ true)
        × (r.server.queued_disconnections ≡ s.queued_disconnections + 1)
  pub kept :
      r.result ≡ false
      → (r.client.disconnect_initiated ≡ c.disconnect_initiated)
        × (r.server.queued_disconnections ≡ s.queued_disconnections)
  -- Then no request and no response refers to the client, and it is out of the pool.
  pub nothing_pending :
      r.result ≡ true
      → (r.client.in_pool ≡ false)
        × (r.client.requests ≡ 0)
        × (r.client.responses ≡ 0)
        × (r.client.responses_queue1 ≡ [])
        × (r.client.responses_queue2 ≡ [])
        × (r.client.responses_being_sent ≡ [])
  pub marked : r.client.to_be_disconnected ≡ true

length_zero {ℓ} : {A : Type ℓ} (xs : List A) → length xs ≡ 0 → xs ≡ []
length_zero [] h = refl
length_zero (x ∷ xs) h = absurd (omega arith)

-- The client as try_to_remove gets it.
abbrev stopped : Client → Client
stopped c = record c { to_be_disconnected = true; is_read_started = false }

stop_reading-mark :
    (by_server : Bool) (s : Server) (c : Client)
    → stop_reading (mark_to_disconnect by_server s c).1 ≡ stopped c
unfolding mark_to_disconnect stop_reading
stop_reading-mark by_server s c = ground arith

mark-queued :
    (by_server : Bool) (s : Server) (c : Client)
    → (mark_to_disconnect by_server s c).0.queued_disconnections ≡ s.queued_disconnections
unfolding mark_to_disconnect
mark-queued by_server s c = ground arith

stopped-IsConsistent : (c : Client) → IsConsistent c → IsConsistent (stopped c)
stopped-IsConsistent c v = record {
  processing_counted = v.processing_counted;
  idle_counted = v.idle_counted;
  finished = v.finished;
  responses_counted = v.responses_counted;
  pool_flag = v.pool_flag;
  accepted = v.accepted;
  outside = v.outside;
  gone = λ h. ((v.gone h).0, refl);
}

-- The work is queued for a client without requests and responses that has left the pool.
queued-IsSafe :
    (s s' : Server) (c : Client)
    → IsConsistent c
    → c.is_accepted ≡ true
    → c.disconnect_initiated ≡ false
    → c.to_be_disconnected ≡ true
    → c.request_is_being_processed ≡ false
    → c.requests ≡ 0
    → c.responses ≡ 0
    → s'.queued_disconnections ≡ s.queued_disconnections
    → IsSafeDisconnection s c (queue_disconnection s' (record c { in_pool = false }))
unfolding queue_disconnection
queued-IsSafe s s' c v a first marked idle no_requests no_responses q = rw a (record {
  consistent = record {
    processing_counted = λ h. cc;
    idle_counted = λ h. no_requests;
    finished = v.finished;
    responses_counted = v.responses_counted;
    pool_flag = refl;
    accepted = λ h. cc;
    outside = λ h. (no_requests, no_responses);
    gone = λ h. (refl, marked);
  };
  queued_once = λ h. (first, refl, omega arith);
  kept = λ h. cc;
  nothing_pending = λ h. (
    refl,
    no_requests,
    no_responses,
    length_zero c.responses_queue1 (omega (arith, v.responses_counted)),
    length_zero c.responses_queue2 (omega (arith, v.responses_counted)),
    length_zero c.responses_being_sent (omega (arith, v.responses_counted)),
  );
  marked = marked;
})

kept-IsSafe :
    (s s' : Server) (c : Client)
    → IsConsistent c
    → c.to_be_disconnected ≡ true
    → s'.queued_disconnections ≡ s.queued_disconnections
    → IsSafeDisconnection s c (record { server = s'; client = c; result = false })
kept-IsSafe s s' c v marked q = record {
  consistent = v;
  queued_once = λ h. cc;
  kept = λ h. (refl, q);
  nothing_pending = λ h. cc;
  marked = marked;
}

outside_pool : (c : Client) → c.in_pool ≡ false → record c { in_pool = false } ≡ c
outside_pool c h = ground arith

abbrev not_removed : Server → Client → Disconnected
not_removed s c = record { server = s; client = c; result = false }

module _ (s : Server) (c : Client) where
  try_busy :
      (c.request_is_being_processed || not c.request_processing_finished) ≡ true
      → try_to_remove s c ≡ not_removed s c
  unfolding try_to_remove
  try_busy h = simp h

  module _
      (free : (c.request_is_being_processed || not c.request_processing_finished) ≡ false) where
    try_outside : c.is_added_to_pool ≡ false → try_to_remove s c ≡ queue_disconnection s c
    unfolding try_to_remove
    try_outside h = simp (free, h)

    try_inside :
        c.is_added_to_pool ≡ true
        → c.in_pool ≡ true
        → (b : Bool) → (c.requests == 0 && c.responses == 0) ≡ b
        → try_to_remove s c
          ≡ (if b then queue_disconnection s (record c { in_pool = false }) else not_removed s c)
    unfolding try_to_remove remove_client
    try_inside h k true e = simp (free, h, k, e)
    try_inside h k false e = simp (free, h, k, e)

try_to_remove-IsSafe :
    (s s' : Server) (c : Client)
    → IsConsistent c
    → c.is_accepted ≡ true
    → c.disconnect_initiated ≡ false
    → c.to_be_disconnected ≡ true
    → s'.queued_disconnections ≡ s.queued_disconnections
    → IsSafeDisconnection s c (try_to_remove s' c)
try_to_remove-IsSafe s s' c v a first marked q =
    elim (Bool-cases (c.request_is_being_processed || not c.request_processing_finished)) [
      | inl busy ↦ rw (try_busy s' c busy) (kept-IsSafe s s' c v marked q)
      | inr free ↦ elim (Bool-cases c.in_pool) [
        | inl inside ↦ elim (Bool-cases (c.requests == 0 && c.responses == 0)) [
          | inl nothing ↦
              rw (try_inside s' c free (v.pool_flag ∙ inside) inside true nothing) (
                queued-IsSafe s s' c v a first marked (ground arith) (ground arith) (ground arith)
                  q)
          | inr pending ↦
              rw (try_inside s' c free (v.pool_flag ∙ inside) inside false pending)
                (kept-IsSafe s s' c v marked q)
        ]
        | inr outside ↦ rw (try_outside s' c free (v.pool_flag ∙ outside)) (
            subst (λ d. IsSafeDisconnection s c (queue_disconnection s' d)) (outside_pool c outside)
              (queued-IsSafe s s' c v a first marked (ground arith) (v.outside outside).0
                (v.outside outside).1 q))
      ]
    ]

module _ (by_server : Bool) (s : Server) (c : Client) where
  disconnect_again :
      c.disconnect_initiated ≡ true → disconnect_and_delete by_server s c ≡ not_removed s c
  unfolding disconnect_and_delete
  disconnect_again h = simp h

  disconnect_first :
      c.disconnect_initiated ≡ false
      → disconnect_and_delete by_server s c
        ≡ try_to_remove (mark_to_disconnect by_server s c).0 (stopped c)
  unfolding disconnect_and_delete
  disconnect_first h = simp (h, stop_reading-mark by_server s c)

-- On a consistent client that is accepted, DisconnectAndDelete marks the client, leaves it consistent,
-- queues its disconnection at most once, and does so only when no request and no response is pending.
pub disconnect_and_delete-IsSafe :
    (by_server : Bool) (s : Server) (c : Client)
    → IsConsistent c
    → c.is_accepted ≡ true
    → IsSafeDisconnection s c (disconnect_and_delete by_server s c)
disconnect_and_delete-IsSafe by_server s c v a = elim (Bool-cases c.disconnect_initiated) [
  | inl before ↦
      rw (disconnect_again by_server s c before) (kept-IsSafe s s c v (v.gone before).1 refl)
  | inr first ↦ rw (disconnect_first by_server s c first) (
      widen (
        try_to_remove-IsSafe s (mark_to_disconnect by_server s c).0 (stopped c)
          (stopped-IsConsistent c v) a first refl (mark-queued by_server s c)))
]
  where
    widen : {r : Disconnected} → IsSafeDisconnection s (stopped c) r → IsSafeDisconnection s c r
    widen w = record {
      consistent = w.consistent;
      queued_once = w.queued_once;
      kept = w.kept;
      nothing_pending = w.nothing_pending;
      marked = w.marked;
    }
