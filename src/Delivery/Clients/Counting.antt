-- ===== src/Delivery/Clients/Counting.antt =====
-- How many queues a response is in after `AddResponseToClientsQueues` of
-- Pulsar/src/LocalClientsManager.cpp.
use pulsar_server_framework.Prelude.{
  ℕ, ◌+◌, ◌≤◌, ◌≡◌, refl, sym, ap, ◌∙◌, inl, inr, List, [], ◌∷◌, some, Bool, false, ◌||◌,
  if◌then◌else◌, length, All, arith, Bool-cases,
}
use pulsar_server_framework.Client.{Client}
use pulsar_server_framework.Delivery.{Memory, Added}
use pulsar_server_framework.Delivery.Adding.{IsAdded, add_response_to_client-IsDelivering}
use pulsar_server_framework.Delivery.Callback.{IsSendable}
use pulsar_server_framework.Delivery.Clients.{
  QueuedFor, is_named, add_for_handle, add_response_to_clients_queues,
}
use pulsar_server_framework.Delivery.Queues.{IsDelivering}
use pulsar_server_framework.Handles.{ClientHandle}
use pulsar_server_framework.Protocol.Response.{Response}

-- A client of the server with this address whose queues are right.
pub record IsServed (server max_pending : ℕ) (c : Client) : Type 0 where
  pub delivering : IsDelivering max_pending c
  pub at_home : c.client_handle.server_ipv4_address ≡ server

-- The responses that all clients have pending.
abbrev pub pending_responses : List Client → ℕ
pending_responses [] = 0
pending_responses (c ∷ cs) = c.responses + pending_responses cs

-- What is left: each client is served, and as many more responses are pending as there are references.
pub record IsQueuedFor (server max_pending : ℕ) (cs : List Client) (q : QueuedFor) : Type 0 where
  pub served : All (IsServed server max_pending) q.clients
  pub references : pending_responses q.clients ≡ pending_responses cs + q.reference_count
  pub as_many : length q.clients ≡ length cs

module _ (server max_pending : ℕ) (flag : Bool) (now : ℕ) (r : Response) where
  pending_added :
      (c : Client) (a : Added)
      → IsAdded max_pending flag r c a
      → a.client.responses ≡ c.responses + (if a.added then 1 else 0)
  pending_added c a k = elim (Bool-cases a.added) [
    | inl y ↦ rw y (k.pending y)
    | inr n ↦ rw n (omega (arith, k.unchanged n))
  ]

  here-IsQueuedFor :
      (c : Client) (cs : List Client) (a : Added)
      → All (IsServed server max_pending) cs
      → c.client_handle.server_ipv4_address ≡ server
      → IsAdded max_pending flag r c a
      → IsDelivering max_pending a.client
      → IsQueuedFor server max_pending (c ∷ cs) (record {
        clients = a.client ∷ cs;
        reference_count = if a.added then 1 else 0;
        has_encountered_exception = a.has_encountered_exception;
      })
  here-IsQueuedFor c cs a v home k d = record {
    served = (
      record {
        delivering = d;
        at_home = ap (λ (h : ClientHandle). h.server_ipv4_address) (k.same_handle) ∙ home;
      },
      v,
    );
    references = omega (arith, pending_added c a k);
    as_many = refl;
  }

  add_for_handle-IsQueuedFor :
      (m : Memory) (h : ClientHandle) (cs : List Client)
      → IsSendable r
      → h.server_ipv4_address ≡ server
      → All (IsServed server max_pending) cs
      → (q : QueuedFor) × (add_for_handle max_pending m flag h now r cs ≡ some q)
        × IsQueuedFor server max_pending cs q
        × (q.reference_count ≤ 1)
  unfolding add_for_handle
  add_for_handle-IsQueuedFor m h [] v home vs = (
    record { clients = []; reference_count = 0; has_encountered_exception = false },
    refl,
    record { served = tt; references = refl; as_many = refl },
    omega arith,
  )
  add_for_handle-IsQueuedFor m h (c ∷ cs) v home (s, vs) = elim (Bool-cases (is_named h c)) [
    | inl y ↦
        let (a, made, k, d) =
          add_response_to_client-IsDelivering max_pending m flag h now r c (s.at_home ∙ sym home) v
            s.delivering in
        (
          record {
            clients = a.client ∷ cs;
            reference_count = if a.added then 1 else 0;
            has_encountered_exception = a.has_encountered_exception;
          },
          rw (made, y) refl,
          here-IsQueuedFor c cs a vs s.at_home k d,
          ground arith,
        )
    | inr n ↦
        let (q, made, k, few) = add_for_handle-IsQueuedFor m h cs v home vs in
        (
          record q { clients = c ∷ q.clients },
          rw (made, n) refl,
          record {
            served = (s, k.served);
            references = omega (arith, k.references);
            as_many = omega (arith, k.as_many);
          },
          few,
        )
  ]

  -- For a response that can be sent, and handles of this server, no assertion fails, each client's queues
  -- stay right, and the reference count of the response is the number of queues that it was put into:
  -- by so much the responses that clients have pending grow, and it is at most the number of handles.
  pub add_response_to_clients_queues-IsQueuedFor :
      (hs : List (ClientHandle × Memory)) (cs : List Client)
      → IsSendable r
      → All (λ (x : ClientHandle × Memory). x.0.server_ipv4_address ≡ server) hs
      → All (IsServed server max_pending) cs
      → (q : QueuedFor) × (add_response_to_clients_queues max_pending flag now r hs cs ≡ some q)
        × IsQueuedFor server max_pending cs q
        × (q.reference_count ≤ length hs)
  unfolding add_response_to_clients_queues
  add_response_to_clients_queues-IsQueuedFor [] cs v home vs = (
    record { clients = cs; reference_count = 0; has_encountered_exception = false },
    refl,
    record { served = vs; references = omega arith; as_many = refl },
    omega arith,
  )
  add_response_to_clients_queues-IsQueuedFor ((h, m) ∷ hs) cs v (home, homes) vs =
      let (q, first, k, one) = add_for_handle-IsQueuedFor m h cs v home vs in
      let (rest, others, l, few) =
        add_response_to_clients_queues-IsQueuedFor hs q.clients v homes k.served in
      (
        record {
          clients = rest.clients;
          reference_count = q.reference_count + rest.reference_count;
          has_encountered_exception = q.has_encountered_exception || rest.has_encountered_exception;
        },
        rw (first, others) refl,
        record {
          served = l.served;
          references = omega (arith, k.references, l.references);
          as_many = omega (arith, k.as_many, l.as_many);
        },
        omega (arith, one, few),
      )
