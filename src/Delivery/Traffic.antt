-- ===== src/Delivery/Traffic.antt =====
-- What threads and the event loop do with a client's queues: `SendResponses` of
-- Pulsar/src/ConnectionsManager.cpp, the additions between two of its runs, and the callbacks of writes.
pub mod Draining
use pulsar_server_framework.Prelude.{
  ℕ, ◌≡◌, ◌⊎◌, inl, inr, List, [], ◌∷◌, Option, some, Bool, true, false, not, if◌then◌else◌, ◌>>=◌,
  arith,
}
use pulsar_server_framework.Client.{Client, Server}
use pulsar_server_framework.Protocol.Response.{Response}
use pulsar_server_framework.Delivery.{
  Memory, not_empty, add_response_to_client, after_send_responses, send_local_client_responses,
}
use pulsar_server_framework.Delivery.Callback.{IsSendable}
use pulsar_server_framework.Delivery.Rounds.{unlocked_set}
use pulsar_server_framework.Delivery.Queues.{IsDelivering}

-- An addition with its time, a run of SendResponses with the result of uv_write, and the callback of a
-- write with its status.
pub data Event : Type 0 where
  add : Memory → ℕ → Response → Event
  send_responses : Bool → ℕ → Event
  callback : Bool → ℕ → Event

pub switched : Server → Server
switched s = record s { response_direction_flag = not s.response_direction_flag }

-- What an event does to a client: SendResponses passes a client by that is not in the set, and libuv
-- calls back only for a write.
pub step : ℕ → Event → Server → Client → Option (Server × Client)
step max_pending (add m now r) s c =
    add_response_to_client max_pending m s.response_direction_flag c.client_handle now r c >>= λ a.
    some (s, a.client)
step max_pending (send_responses uv_write_ok now) s c =
    let s' = switched s in
    let sent = send_local_client_responses max_pending uv_write_ok now s' c in
    if unlocked_set s'.response_direction_flag c then sent else some (s', c)
step max_pending (callback write_ok now) s c =
    let called = after_send_responses false write_ok now s c in
    if not_empty c.responses_being_sent then called else some (s, c)

pub run : ℕ → List Event → Server → Client → Option (Server × Client)
run max_pending [] s c = some (s, c)
run max_pending (e ∷ es) s c = step max_pending e s c >>= λ (s', c'). run max_pending es s' c'

-- Responses are ones that can be sent, and uv_write accepts them. Whether a write succeeds later and
-- whether memory lasts is open.
abbrev pub IsRegular : Event → Type 0
IsRegular (add m now r) = IsSendable r
IsRegular (send_responses uv_write_ok now) = uv_write_ok ≡ true
IsRegular (callback write_ok now) = Unit

sent_well :
    (max_pending : ℕ) (s : Server) (c : Client) (flag : Bool) (P : Type 0)
    → IsDelivering max_pending c ⊎ ((true ≡ false) × P)
    → IsDelivering max_pending c
sent_well max_pending s c flag P (inl p) = p
sent_well max_pending s c flag P (inr (e, q)) = absurd (ground arith)
