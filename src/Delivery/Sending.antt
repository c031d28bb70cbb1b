-- ===== src/Delivery/Sending.antt =====
-- A client's queues in a round of SendLocalClientsResponses and in the callback of a write:
-- Pulsar/src/LocalClientsManager.cpp and Pulsar/src/ConnectionsManager.cpp.
use pulsar_server_framework.Prelude.{
  ℕ, ◌≤◌, ◌<◌, ◌≡◌, ◌⊎◌, refl, ◌∙◌, inl, inr, List, [], ◌∷◌, some, Bool, true, false, length, arith,
  le→ltb,
}
use pulsar_server_framework.Client.{Client, Server}
use pulsar_server_framework.Protocol.Response.{Response}
use pulsar_server_framework.Delivery.{
  unlocked_queue, not_empty, erased, fill_and_write, send_local_client_responses,
}
use pulsar_server_framework.Delivery.Callback.{pos_test}
use pulsar_server_framework.Delivery.Rounds.{unlocked_set, filling, fill_and_write-IsRound}
use pulsar_server_framework.Delivery.Queues.{
  IsDelivering, IsStranded, by_flag, of_flag, pos-not_empty, round-IsDelivering,
}

-- A client whose last write has not ended only leaves the set.
erased-IsDelivering :
    (max_pending : ℕ) (flag : Bool) (c : Client)
    → IsDelivering max_pending c
    → 0 < length c.responses_being_sent
    → IsDelivering max_pending (erased flag c)
unfolding erased
erased-IsDelivering max_pending true c p pos = record {
  counted = p.counted;
  sending = p.sending;
  queue1 = p.queue1;
  queue2 = record {
    bounded = p.queue2.bounded;
    sendable = p.queue2.sendable;
    has_work = λ e. ground arith;
    announced = λ h. inr pos;
  };
}
erased-IsDelivering max_pending false c p pos = record {
  counted = p.counted;
  sending = p.sending;
  queue1 = record {
    bounded = p.queue1.bounded;
    sendable = p.queue1.sendable;
    has_work = λ e. ground arith;
    announced = λ h. inr pos;
  };
  queue2 = p.queue2;
}

empty_cases : (xs : List Response) → (xs ≡ []) ⊎ (0 < length xs)
empty_cases [] = inl refl
empty_cases (x ∷ xs) = inr (omega arith)

send_while_sending :
    (max_pending : ℕ) (uv_write_ok : Bool) (now : ℕ) (s : Server) (c : Client)
    → 0 < length c.responses_being_sent
    → send_local_client_responses max_pending uv_write_ok now s c
      ≡ some (s, erased s.response_direction_flag c)
unfolding send_local_client_responses not_empty
send_while_sending max_pending uv_write_ok now s c pos =
    simp (pos-not_empty c.responses_being_sent pos)

pub send_round :
    (max_pending : ℕ) (uv_write_ok : Bool) (now : ℕ) (s : Server) (c : Client)
    → c.responses_being_sent ≡ []
    → 0 < length (unlocked_queue s.response_direction_flag c)
    → length (unlocked_queue s.response_direction_flag c) ≤ max_pending
    → send_local_client_responses max_pending uv_write_ok now s c
      ≡ fill_and_write s.response_direction_flag uv_write_ok now s c
unfolding send_local_client_responses not_empty
send_round max_pending uv_write_ok now s c e pos h = simp (
  e,
  pos_test (length (unlocked_queue s.response_direction_flag c)) pos,
  le→ltb max_pending (length (unlocked_queue s.response_direction_flag c)) h,
)

-- A round of SendLocalClientsResponses for a client of the set whose queues are as they should be fails
-- no assertion, and leaves them so; or uv_write failed, and responses are left that nothing announces.
pub send_local_client_responses-IsDelivering :
    (max_pending : ℕ) (uv_write_ok : Bool) (now : ℕ) (s : Server) (c : Client)
    → IsDelivering max_pending c
    → unlocked_set s.response_direction_flag c ≡ true
    → (s' : Server) × (c' : Client) × (send_local_client_responses max_pending uv_write_ok now s c
        ≡ some (s', c'))
      × (IsDelivering max_pending c'
          ⊎ ((uv_write_ok ≡ false) × IsStranded s.response_direction_flag c'))
send_local_client_responses-IsDelivering max_pending uv_write_ok now s c p listed =
    let flag = s.response_direction_flag in
    let q = by_flag max_pending flag c p in
    elim (empty_cases c.responses_being_sent) [
      | inr pos ↦ (
        s,
        erased flag c,
        send_while_sending max_pending uv_write_ok now s c pos,
        inl (erased-IsDelivering max_pending flag c p pos),
      )
      | inl none_sent ↦
          let pos = q.unlocked.has_work listed in
          let (s', c', e, r) =
            fill_and_write-IsRound flag uv_write_ok now s c pos q.unlocked.sendable
              (omega (arith, q.counted)) in
          (
            s',
            c',
            send_round max_pending uv_write_ok now s c none_sent pos
                  (omega (arith, q.unlocked.bounded))
                ∙ e,
            elim (round-IsDelivering max_pending flag uv_write_ok c c' (filling flag s c).taken
                (filling flag s c).left q none_sent r) [
                  | inl k ↦ inl (of_flag max_pending flag c' k)
                  | inr k ↦ inr k
                ],
          )
    ]
