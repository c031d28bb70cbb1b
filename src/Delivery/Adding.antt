-- ===== src/Delivery/Adding.antt =====
-- Adding a response for a client, `AddResponseToClientsQueues` and `AddResponseToQueue` of
-- Pulsar/src/LocalClientsManager.cpp.
use pulsar_server_framework.Prelude.{
  ℕ, ◌+◌, ◌-◌, ◌/◌, ◌<◌, ◌≡◌, ◌⊎◌, refl, ap, inl, inr, [], ◌∷◌, ◌++◌, some, Bool, true, false, ltb,
  length, arith, Bool-cases, length-append, ltb→lt,
}
use pulsar_server_framework.Client.{Client}
use pulsar_server_framework.Handles.{ClientHandle}
use pulsar_server_framework.Pool.{
  response_count, increase_count_for_client, decrease_count_for_client, counted_up,
}
use pulsar_server_framework.Protocol.Response.{Response}
use pulsar_server_framework.Delivery.{
  locked_queue, unlocked_queue, Memory, Added, pushed, add_to_client_set_fails,
  add_response_to_queue, keep_count, add_response_to_client,
}
use pulsar_server_framework.Delivery.Callback.{IsSendable, pos_test}
use pulsar_server_framework.Delivery.Rounds.{locked_set, unlocked_set}
use pulsar_server_framework.Delivery.Queues.{
  IsDelivering, IsDeliveringBy, by_flag, of_flag, All-append, IsQueue-at,
}

-- What an attempt to queue a response leaves of a client.
pub record IsAdded (max_pending : ℕ) (flag : Bool) (r : Response) (c : Client) (a : Added)
    : Type 0 where
  -- An added response is the last of the queue of the threads, whose client is in its set.
  pub at_end : a.added ≡ true → locked_queue flag a.client ≡ locked_queue flag c ++ r ∷ []
  pub listed : a.added ≡ true → locked_set flag a.client ≡ true
  pub had_room : a.added ≡ true → length (locked_queue flag c) < max_pending / 2
  pub pending : a.added ≡ true → a.client.responses ≡ c.responses + 1
  -- A response that is not added leaves queues, sets and count.
  pub refused : a.added ≡ false → locked_queue flag a.client ≡ locked_queue flag c
  pub unlisted : a.added ≡ false → locked_set flag a.client ≡ locked_set flag c
  pub unchanged : a.added ≡ false → a.client.responses ≡ c.responses
  -- The queue that is sent from is not touched.
  pub other : unlocked_queue flag a.client ≡ unlocked_queue flag c
  pub other_set : unlocked_set flag a.client ≡ unlocked_set flag c
  pub sending : a.client.responses_being_sent ≡ c.responses_being_sent
  pub same_handle : a.client.client_handle ≡ c.client_handle

increase_cases :
    (clienthandle : ClientHandle) (now : ℕ) (c : Client)
    → c.client_handle.server_ipv4_address ≡ clienthandle.server_ipv4_address
    → (increase_count_for_client clienthandle response_count now c
        ≡ some (record c { responses = c.responses + 1; last_activity_time = now }, true))
      ⊎ (increase_count_for_client clienthandle response_count now c ≡ some (c, false))
unfolding increase_count_for_client counted_up
increase_cases clienthandle now c e = ground arith

queue_cases :
    (max_pending : ℕ) (m : Memory) (flag : Bool) (r : Response) (c : Client)
    → ((length (locked_queue flag c) < max_pending / 2)
        × (add_response_to_queue max_pending m flag r c
            ≡ record { client = pushed flag r c; added = true; has_encountered_exception = false }))
      ⊎ ((full : Bool) × (exception : Bool) × (add_response_to_queue max_pending m flag r c
            ≡ record {
              client = record c { response_queue_full = full };
              added = false;
              has_encountered_exception = exception;
            }))
unfolding add_response_to_queue
queue_cases max_pending m flag r c =
    elim (Bool-cases (ltb (length (locked_queue flag c)) (max_pending / 2))) [
      | inr full ↦ inr (true, false, simp full)
      | inl room ↦ elim (Bool-cases m.queue_push_fails) [
        | inl fails ↦ inr (c.response_queue_full, true, simp (room, fails))
        | inr push ↦ elim (Bool-cases (add_to_client_set_fails flag m c)) [
          | inl fails ↦ inr (false, false, simp (room, push, fails))
          | inr insert ↦ inl (ltb→lt _ _ room, simp (room, push, insert))
        ]
      ]
    ]

pushed-IsAdded :
    (max_pending : ℕ) (flag : Bool) (r : Response) (now : ℕ) (c : Client)
    → length (locked_queue flag c) < max_pending / 2
    → IsAdded max_pending flag r c (record {
      client = pushed flag r (record c { responses = c.responses + 1; last_activity_time = now });
      added = true;
      has_encountered_exception = false;
    })
unfolding pushed
pushed-IsAdded max_pending true r now c h = ground arith
pushed-IsAdded max_pending false r now c h = ground arith

refused-IsAdded :
    (max_pending : ℕ) (flag full exception : Bool) (r : Response) (now : ℕ) (c : Client)
    → IsAdded max_pending flag r c (record {
      client = record c { last_activity_time = now; response_queue_full = full };
      added = false;
      has_encountered_exception = exception;
    })
refused-IsAdded max_pending true full exception r now c = ground arith
refused-IsAdded max_pending false full exception r now c = ground arith

add_one_sub_one : (n : ℕ) → n + 1 - 1 ≡ n
add_one_sub_one n = omega arith

-- The assertions hold on the way of a response to its client's queue.
pub add_response_to_client-IsAdded :
    (max_pending : ℕ) (m : Memory) (flag : Bool) (clienthandle : ClientHandle) (now : ℕ)
    → (r : Response) (c : Client)
    → c.client_handle.server_ipv4_address ≡ clienthandle.server_ipv4_address
    → (a : Added) × (add_response_to_client max_pending m flag clienthandle now r c ≡ some a)
      × IsAdded max_pending flag r c a
unfolding add_response_to_client keep_count decrease_count_for_client
add_response_to_client-IsAdded max_pending m flag clienthandle now r c e =
    let c1 : Client = record c { responses = c.responses + 1; last_activity_time = now } in
    elim (increase_cases clienthandle now c e) [
      | inr gone ↦ (
        record { client = c; added = false; has_encountered_exception = false },
        simp gone,
        refused-IsAdded max_pending flag c.response_queue_full false r c.last_activity_time c,
      )
      | inl up ↦ elim (queue_cases max_pending m flag r c1) [
        | inl (room, q) ↦ (
          record { client = pushed flag r c1; added = true; has_encountered_exception = false },
          simp (up, q),
          pushed-IsAdded max_pending flag r now c room,
        )
        | inr (full, exception, q) ↦ (
          record {
            client = record c { last_activity_time = now; response_queue_full = full };
            added = false;
            has_encountered_exception = exception;
          },
          simp (up, q, pos_test (c.responses + 1) (omega arith), add_one_sub_one c.responses),
          refused-IsAdded max_pending flag full exception r now c,
        )
      ]
    ]

IsAdded-IsDelivering :
    (max_pending : ℕ) (flag : Bool) (r : Response) (c : Client) (a : Added)
    → IsSendable r
    → IsDeliveringBy max_pending flag c
    → IsAdded max_pending flag r c a
    → IsDeliveringBy max_pending flag a.client
IsAdded-IsDelivering max_pending flag r c a v p k =
    let n = ap length k.sending in
    elim (Bool-cases a.added) [
      | inl yes' ↦ record {
        counted = omega (
          arith,
          p.counted,
          n,
          k.pending yes',
          ap length k.other,
          ap length (k.at_end yes'),
          length-append (locked_queue flag c) (r ∷ []),
        );
        sending = rw k.sending p.sending;
        locked = IsQueue-at max_pending (k.at_end yes') (k.listed yes') n (record {
          bounded = omega (arith, k.had_room yes', length-append (locked_queue flag c) (r ∷ []));
          sendable = All-append (locked_queue flag c) (r ∷ []) p.locked.sendable (v, tt);
          has_work = λ e. omega (arith, length-append (locked_queue flag c) (r ∷ []));
          announced = λ h. inl refl;
        });
        unlocked = IsQueue-at max_pending k.other k.other_set n p.unlocked;
      }
      | inr no' ↦ record {
        counted =
            omega
              (arith, p.counted, n, k.unchanged no', ap length k.other, ap length (k.refused no'));
        sending = rw k.sending p.sending;
        locked = IsQueue-at max_pending (k.refused no') (k.unlisted no') n p.locked;
        unlocked = IsQueue-at max_pending k.other k.other_set n p.unlocked;
      }
    ]

-- For a response that can be sent and a handle of this server, no assertion fails on its way to the
-- client's queue. The response becomes the last of the queue of the threads, whose set has the client
-- then, and had room there; or queues, sets and count stay. Queues that were as they should be stay so.
pub add_response_to_client-IsDelivering :
    (max_pending : ℕ) (m : Memory) (flag : Bool) (clienthandle : ClientHandle) (now : ℕ)
    → (r : Response) (c : Client)
    → c.client_handle.server_ipv4_address ≡ clienthandle.server_ipv4_address
    → IsSendable r
    → IsDelivering max_pending c
    → (a : Added) × (add_response_to_client max_pending m flag clienthandle now r c ≡ some a)
      × IsAdded max_pending flag r c a
      × IsDelivering max_pending a.client
add_response_to_client-IsDelivering max_pending m flag clienthandle now r c e v p =
    let (a, run, k) = add_response_to_client-IsAdded max_pending m flag clienthandle now r c e in
    (
      a,
      run,
      k,
      of_flag max_pending flag a.client
          (IsAdded-IsDelivering max_pending flag r c a v (by_flag max_pending flag c p) k),
    )
