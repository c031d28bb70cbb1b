-- ===== src/Delivery.antt =====
-- How responses reach local clients: Pulsar/src/LocalClientsManager.cpp and
-- Pulsar/src/ConnectionsManager.cpp. Threads add to one of a client's two queues while the event loop
-- sends from the other; the direction flag says which is which. `none` is a failed assertion, on
-- which the server exits.
pub mod Callback
pub mod Rounds
pub mod Queues
pub mod Sending
pub mod Stranding
pub mod Traffic
pub mod Adding
pub mod Clients
use pulsar_server_framework.Prelude.{
  ℕ, ◌+◌, ◌-◌, ◌/◌, List, [], ◌∷◌, ◌++◌, Option, none, some, Bool, true, false, not, ◌&&◌, ◌||◌,
  ltb, ◌==◌, if◌then◌else◌, ◌>>=◌, length,
}
use pulsar_server_framework.Handles.{ClientHandle}
use pulsar_server_framework.Client.{Client, Server, ServerStat}
use pulsar_server_framework.Lifecycle.{Disconnected, mark_to_disconnect, disconnect_and_delete}
use pulsar_server_framework.Pool.{
  request_count, response_count, increase_count_for_client, decrease_count_for_client,
}
use pulsar_server_framework.Protocol.Constants.{
  response_keep_alive, response_error, response_acknowledgement, response_fatal_error,
  response_ordinary,
}
use pulsar_server_framework.Protocol.Response.{
  Response, is_fatal_error_for_locally_connected_client,
}

-- The queue that threads add to (Locked), and the queue that the event loop sends from (Unlocked).
abbrev pub locked_queue : Bool → Client → List Response
locked_queue flag c = if flag then c.responses_queue1 else c.responses_queue2

abbrev pub unlocked_queue : Bool → Client → List Response
unlocked_queue flag c = if flag then c.responses_queue2 else c.responses_queue1

-- Which operations of the containers run out of memory.
pub record Memory : Type 0 where
  pub queue_push_fails : Bool
  pub set_insert_fails : Bool

-- What AddResponseToQueue returns, with the exception flag that it may raise.
pub record Added : Type 0 where
  pub client : Client
  pub added : Bool
  pub has_encountered_exception : Bool

-- push_front on the queue of the threads, and the client in its set.
pub pushed : Bool → Response → Client → Client
pushed true r c = record c {
  responses_queue1 = c.responses_queue1 ++ r ∷ [];
  in_set1 = true;
  response_queue_full = false;
}
pushed false r c = record c {
  responses_queue2 = c.responses_queue2 ++ r ∷ [];
  in_set2 = true;
  response_queue_full = false;
}

-- AddToClientSet returns TRUE at once for a client that is in the set.
pub add_to_client_set_fails : Bool → Memory → Client → Bool
add_to_client_set_fails flag m c = not (if flag then c.in_set1 else c.in_set2) && m.set_insert_fails

-- AddResponseToQueue, up to the half of MaxPendingResponses.
pub add_response_to_queue : ℕ → Memory → Bool → Response → Client → Added
add_response_to_queue max_pending m flag r c =
    if ltb (length (locked_queue flag c)) (max_pending / 2)
    then if m.queue_push_fails
      then record { client = c; added = false; has_encountered_exception = true }
      else if add_to_client_set_fails flag m c
      then record {
        client = record c { response_queue_full = false };
        added = false;
        has_encountered_exception = false;
      }
      else record { client = pushed flag r c; added = true; has_encountered_exception = false }
    else record {
      client = record c { response_queue_full = true };
      added = false;
      has_encountered_exception = false;
    }

-- The end of a round of AddResponseToClientsQueues: a response that was not added is not counted.
pub keep_count : ℕ → Added → Option Added
keep_count now a = if a.added then some a else do
  c ← decrease_count_for_client response_count now a.client
  some (record a { client = c })

-- A round of AddResponseToClientsQueues, for the client that `clienthandle` names.
pub add_response_to_client : ℕ → Memory → Bool → ClientHandle → ℕ → Response → Client → Option Added
add_response_to_client max_pending m flag clienthandle now r c = do
  (c', increased) ← increase_count_for_client clienthandle response_count now c
  if increased
      then keep_count now (add_response_to_queue max_pending m flag r c')
      else some (record { client = c'; added = false; has_encountered_exception = false })

-- What the loop of SendLocalClientsResponses takes from the queue, and what it leaves: it stops at a
-- fatal error that is not the first, unless the client is marked. The loop's assertions on a response, that
-- it is referenced and not one to be forwarded, are left out: reference counts are not kept here, and
-- what is queued for a client was made for it.
pub record Filled : Type 0 where
  pub taken : List Response
  pub left : List Response

pub fill : Bool → ℕ → List Response → Filled
fill marked i [] = record { taken = []; left = [] }
fill marked i (r ∷ queue) =
    let next = fill marked (i + 1) queue in
    if is_fatal_error_for_locally_connected_client r && (not (i == 0) && not marked)
    then record { taken = []; left = r ∷ queue }
    else record { taken = r ∷ next.taken; left = next.left }

-- The round `i == 0`: a fatal error there marks the client.
pub mark_if_fatal : Server → Client → List Response → Server × Client
mark_if_fatal s c [] = (s, c)
mark_if_fatal s c (r ∷ queue) =
    if is_fatal_error_for_locally_connected_client r then mark_to_disconnect true s c else (s, c)

-- The statistics of a response that was sent; an unknown type fails an assertion.
pub count_type : Response → ServerStat → Option ServerStat
count_type r t =
    if r.response_type == response_keep_alive
    then some (record t { responses_keep_alives = t.responses_keep_alives + 1 })
    else if r.response_type == response_error
    then some (record t { responses_errors = t.responses_errors + 1 })
    else if r.response_type == response_acknowledgement
    then some (record t { responses_acknowledgements = t.responses_acknowledgements + 1 })
    else if r.response_type == response_fatal_error
    then some (record t { responses_fatal_errors = t.responses_fatal_errors + 1 })
    else if r.response_type == response_ordinary
    then some (record t { responses_ordinary = t.responses_ordinary + 1 })
    else none

pub count_sent : Response → ServerStat → ServerStat
count_sent r t = record t {
  responses_multicasts =
      if r.is_multicast then t.responses_multicasts + 1 else t.responses_multicasts;
  responses_updates = if r.is_update then t.responses_updates + 1 else t.responses_updates;
  responses_sent = t.responses_sent + 1;
  total_response_bytes_sent = t.total_response_bytes_sent + length r.bytes;
}

-- The switch on the status of the write.
pub count_status : Bool → Response → Server → Client → Option (Server × Client)
count_status true r s c = do
  t ← count_type r s.stat
  let s' : Server = record s { stat = count_sent r t }
  if s'.stat.total_response_bytes_sent == 0 then none else some (s', c)
count_status false r s c = some (
    mark_to_disconnect true
      (record s {
        stat = record (s.stat) { responses_failed_to_send = s.stat.responses_failed_to_send + 1 };
      })
      c)

pub not_empty : List Response → Bool
not_empty [] = false
not_empty (r ∷ rs) = true

-- Both sets get the client back if its queue has responses; memory is taken to last for them.
pub back_to_sets : Client → Client
back_to_sets c = record c {
  in_set1 = c.in_set1 || not_empty c.responses_queue1;
  in_set2 = c.in_set2 || not_empty c.responses_queue2;
}

-- The end of AfterSendingLocalClientsResponses.
pub disconnect_if_done : Server → Client → Server × Client
disconnect_if_done s c =
    let r = disconnect_and_delete true s c in
    if c.to_be_disconnected && not (not_empty c.responses_queue1 || not_empty c.responses_queue2)
    then (r.server, r.client)
    else (s, c)

-- AfterSendingLocalClientsResponses
pub after_sending_local_clients_responses :
    Bool → ℕ → Response → Server → Client → Option (Server × Client)
after_sending_local_clients_responses write_ok now r s c =
    let counted = count_status write_ok r s c >>= λ (s', c').
    decrease_count_for_client response_count now c' >>= λ c''.
    some (disconnect_if_done s' (back_to_sets c'')) in
    if r.is_forward then none else counted

-- The loop of after_send_responses over the responses that were sent.
pub after_each : Bool → ℕ → List Response → Server → Client → Option (Server × Client)
after_each write_ok now [] s c = some (s, c)
after_each write_ok now (r ∷ rs) s c =
    after_sending_local_clients_responses write_ok now r s c >>= λ (s', c').
    after_each write_ok now rs s' c'

-- Where libuv made the call, the responses are no longer being sent.
pub written : Bool → ℕ → Server → Server
written true n s = s
written false n s =
    let t = s.stat in
    record s { stat = record t { responses_being_sent_count = t.responses_being_sent_count - n } }

-- after_send_responses for a client. `called_by_send_response` is the manager's flag of that name.
pub after_send_responses : Bool → Bool → ℕ → Server → Client → Option (Server × Client)
after_send_responses called_by_send_response write_ok now s c =
    let n = length c.responses_being_sent in
    let done = after_each write_ok now c.responses_being_sent s c >>= λ (s', c').
    some (written called_by_send_response n s', record c' { responses_being_sent = [] }) in
    if n == 0 then none else done

-- The client leaves the set that is sent from.
pub erased : Bool → Client → Client
erased true c = record c { in_set2 = false }
erased false c = record c { in_set1 = false }

pub set_unlocked_queue : Bool → List Response → Client → Client
set_unlocked_queue true q c = record c { responses_queue2 = q }
set_unlocked_queue false q c = record c { responses_queue1 = q }

-- uv_write, if the client is not marked; where it fails or is not called, the callback is called at
-- once.
pub write : Bool → ℕ → Server → Client → Option (Server × Client)
write uv_write_ok now s c =
    let t = s.stat in
    let n = length c.responses_being_sent in
    let failed = after_send_responses true false now s c in
    if not c.to_be_disconnected && uv_write_ok
    then some (
      record s {
        stat = record t { responses_being_sent_count = t.responses_being_sent_count + n };
      },
      c,
    )
    else failed

pub fill_and_write : Bool → Bool → ℕ → Server → Client → Option (Server × Client)
fill_and_write flag uv_write_ok now s c = do
  let queue = unlocked_queue flag c
  let (s', c') = mark_if_fatal s c queue
  let filled = fill c'.to_be_disconnected 0 queue
  let c'' = set_unlocked_queue flag filled.left (record c' { responses_being_sent = filled.taken })
  (s3, c3) ← write uv_write_ok now s' c''
  some (s3, erased flag c3)

-- A round of SendLocalClientsResponses for a client of the set.
pub send_local_client_responses : ℕ → Bool → ℕ → Server → Client → Option (Server × Client)
send_local_client_responses max_pending uv_write_ok now s c =
    let flag = s.response_direction_flag in
    let n = length (unlocked_queue flag c) in
    let sent = fill_and_write flag uv_write_ok now s c in
    if not_empty c.responses_being_sent
    then some (s, erased flag c)
    else if n == 0 || ltb max_pending n
    then none
    else sent
