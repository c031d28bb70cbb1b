-- ===== src/Examples/Queues.antt =====
-- A client's queues at concrete states: Pulsar/src/LocalClientsManager.cpp,
-- Pulsar/src/ConnectionsManager.cpp.
use pulsar_server_framework.Prelude.{◌≡◌, ◌⊎◌, refl, inl, List, [], ◌∷◌, some, true, false, arith}
use pulsar_server_framework.Client.{Client, Server, initial_client}
use pulsar_server_framework.Protocol.Response.{
  Response, is_fatal_error_for_locally_connected_client,
}
use pulsar_server_framework.Delivery.{
  unlocked_queue, Memory, Added, add_response_to_client, fill_and_write,
  send_local_client_responses,
}
use pulsar_server_framework.Delivery.Callback.{IsSendable}
use pulsar_server_framework.Delivery.Rounds.{IsRound, filling, fill_and_write-IsRound}
use pulsar_server_framework.Delivery.Queues.{IsDelivering, IsStranded}
use pulsar_server_framework.Delivery.Sending.{send_local_client_responses-IsDelivering}
use pulsar_server_framework.Delivery.Adding.{IsAdded, add_response_to_client-IsDelivering}
use pulsar_server_framework.Delivery.Stranding.{fill_and_write-IsStranded}
use pulsar_server_framework.Delivery.Traffic.{Event, add, send_responses, callback}
use pulsar_server_framework.Delivery.Traffic.Draining.{Cycle}
use pulsar_server_framework.Examples.Frames.{sender}
use pulsar_server_framework.Examples.Clients.{server, pooled}

abbrev pub ordinary : Response
ordinary = record {
  bytes = 77 ∷ 65 ∷ 73 ∷ [];
  is_forward = false;
  is_update = false;
  is_multicast = false;
  server_ipv4_address = 2000;
  response_type = 255;
}

abbrev fatal : Response
fatal = record ordinary { response_type = 3 }

pub ordinary-IsSendable : IsSendable ordinary
ordinary-IsSendable = ground arith

fatal-IsSendable : IsSendable fatal
fatal-IsSendable = ground arith

-- One response waits in the queue that is sent from.
abbrev pub queued : Client
queued = record pooled { responses = 1; responses_queue2 = ordinary ∷ []; in_set2 = true }

pub queued-IsDelivering : IsDelivering 10 queued
unfolding initial_client
queued-IsDelivering = record {
  counted = refl;
  sending = tt;
  queue1 = ground arith;
  queue2 = record {
    bounded = omega arith;
    sendable = (ordinary-IsSendable, tt);
    has_work = λ e. omega arith;
    announced = λ h. inl refl;
  };
}

-- One response is being sent.
abbrev sending : Client
sending = record pooled { responses = 1; responses_being_sent = ordinary ∷ [] }

-- A fatal error waits behind an ordinary response.
abbrev fatal_behind_ordinary : Client
fatal_behind_ordinary = record pooled {
  responses = 2;
  responses_queue2 = ordinary ∷ fatal ∷ [];
  in_set2 = true;
}

abbrev enough : Memory
enough = record { queue_push_fails = false; set_insert_fails = false }

send_local_client_responses-IsDelivering_example :
    (s' : Server) × (c' : Client) × (send_local_client_responses 10 true 5 server queued
      ≡ some (s', c'))
    × (IsDelivering 10 c' ⊎ ((true ≡ false) × IsStranded true c'))
send_local_client_responses-IsDelivering_example =
    send_local_client_responses-IsDelivering 10 true 5 server queued queued-IsDelivering refl

add_response_to_client-IsDelivering_example :
    (a : Added) × (add_response_to_client 10 enough true sender 5 fatal queued ≡ some a)
    × IsAdded 10 true fatal queued a
    × IsDelivering 10 a.client
add_response_to_client-IsDelivering_example =
    add_response_to_client-IsDelivering 10 enough true sender 5 fatal queued
      (unfold initial_client in refl) fatal-IsSendable queued-IsDelivering

fill_and_write-IsRound_example :
    (s' : Server) × (c' : Client) × (fill_and_write true false 5 server fatal_behind_ordinary
      ≡ some (s', c'))
    × IsRound true false fatal_behind_ordinary c'
        (filling true server fatal_behind_ordinary).taken
        (filling true server fatal_behind_ordinary).left
fill_and_write-IsRound_example =
    fill_and_write-IsRound true false 5 server fatal_behind_ordinary (omega arith)
      (ordinary-IsSendable, (fatal-IsSendable, tt)) (omega arith)

fill_and_write-IsStranded_example :
    (s' : Server) × (c' : Client) × (fill_and_write true false 5 server fatal_behind_ordinary
      ≡ some (s', c'))
    × (unlocked_queue true c' ≡ fatal ∷ [])
    × IsStranded true c'
fill_and_write-IsStranded_example =
    fill_and_write-IsStranded true 5 server fatal_behind_ordinary ordinary fatal [] refl
      (ordinary-IsSendable, (fatal-IsSendable, tt)) (omega arith) (unfold initial_client in refl)
      (unfold is_fatal_error_for_locally_connected_client in refl)
      (unfold is_fatal_error_for_locally_connected_client in refl)

-- Two responses are added, sent one after the other, and the second write fails.
abbrev traffic : List Event
traffic =
    add enough 1 ordinary
    ∷ send_responses true 2
    ∷ add enough 3 fatal
    ∷ callback true 4
    ∷ send_responses true 5
    ∷ callback false 6
    ∷ []

abbrev a_cycle : Cycle
a_cycle = record { sent_at = 5; write_ok = true; written_at = 6 }
