-- ===== src/Examples/Streams.antt =====
-- A client that sends frames, and a request that is deferred, at concrete bytes: Pulsar/src/LocalClientsManager.cpp.
use pulsar_server_framework.Prelude.{
  ℕ, ◌≡◌, refl, inl, List, [], ◌∷◌, some, false, arith, none, inr, true,
}
use pulsar_server_framework.Client.{initial_client, Client, heap}
use pulsar_server_framework.Receiver.Frames.{IsWaiting}
use pulsar_server_framework.Receiver.Reading.{Received, Making}
use pulsar_server_framework.Receiver.Stream.{
  ClientConnection, ConnectionEvent, read, finished, run_connection,
}
use pulsar_server_framework.Receiver.Stream.Phases.{IsAtHeader}
use pulsar_server_framework.Receiver.Stream.Reads.{IsReading}
use pulsar_server_framework.Receiver.Stream.Run.{IsStream, opened, opened-IsStream}
use pulsar_server_framework.Receiver.Stream.Draining.{Round, rounds, opened-drains}
use pulsar_server_framework.Receiver.Stream.Steps.{IsFull}
use pulsar_server_framework.Receiver.Processing.{Outcome, Threads, process}
use pulsar_server_framework.Receiver.Processing.Deferral.{IsAccounted, process-IsAccounted}
use pulsar_server_framework.Protocol.Frame.{framed}
use pulsar_server_framework.Handles.{ClientHandles, contains}
use pulsar_server_framework.Pool.{ClientType, versioned_client, versionless_client}
use pulsar_server_framework.Pool.Counts.{found_with}
use pulsar_server_framework.KeepAlive.{Kept, send_keepalive_thread}
use pulsar_server_framework.KeepAlive.Reaching.{IsSent, IsStoredFor, send_keepalive_thread-reaches}
use pulsar_server_framework.Processor.{MessageMemory}
use pulsar_server_framework.Protocol.Constants.{response_keep_alive, response_fatal_error}
use pulsar_server_framework.Examples.Machine.{little_endian}
use pulsar_server_framework.Examples.Frames.{registry, default_parameters, hello, sender}
use pulsar_server_framework.Examples.Clients.{server, pooled}

abbrev making : Making
making = record { allocation_fails = false; now = 3; size_of_request = 64 }

pooled-IsWaiting : IsWaiting pooled
unfolding initial_client
pooled-IsWaiting = record { in_pool = refl; unmarked = refl; not_processing = refl }

pooled-IsAtHeader : IsAtHeader pooled
unfolding initial_client
pooled-IsAtHeader = record { len = refl; size = refl; short = omega arith; base = inl (refl, refl) }

pooled_bytes : pooled.request_bytes ≡ []
unfolding initial_client
pooled_bytes = refl

pooled_version : pooled.version ≡ 0
unfolding initial_client
pooled_version = refl

-- A header and one byte arrive, then three more, then the request has been processed, and so on.
abbrev some_events : List ConnectionEvent
some_events = read making 10 ∷ read making 3 ∷ read making 3 ∷ finished making ∷ read making 4 ∷ []

opened-IsStream_example :
    (todo : List (List ℕ)) × (k : ClientConnection) × (run_connection registry some_events
        (opened 5 (hello ∷ hello ∷ []) server pooled)
      ≡ some k)
    × IsStream 5 default_parameters (hello ∷ hello ∷ []) todo k
opened-IsStream_example =
    opened-IsStream registry 5 default_parameters (omega arith) (omega arith) refl (omega arith)
      some_events (hello ∷ hello ∷ []) server pooled (refl, (refl, (refl, (tt, (refl, tt)))))
      ((omega arith, omega arith, omega arith), ((omega arith, omega arith, omega arith), tt))
      pooled-IsWaiting (inl pooled_version) pooled-IsAtHeader pooled_bytes

abbrev a_round : Round
a_round = record { ending = making; reading = making; most = 2 }

abbrev ten_rounds : List Round
ten_rounds =
    a_round ∷ a_round ∷ a_round ∷ a_round ∷ a_round ∷ a_round ∷ a_round ∷ a_round ∷ a_round
    ∷ a_round ∷ []

opened-drains_example :
    (k : ClientConnection) × (run_connection registry
        (rounds making ten_rounds)
        (opened 5 ((104 ∷ []) ∷ []) server pooled)
      ≡ some k)
    × (k.requests ≡ (104 ∷ []) ∷ [])
    × (k.wire ≡ [])
    × IsReading 5 [] k
opened-drains_example =
    opened-drains registry 5 default_parameters (omega arith) (omega arith) refl (omega arith)
      making ten_rounds ((104 ∷ []) ∷ []) server pooled (omega arith)
      (
        (refl, omega arith),
        (
          (refl, omega arith),
          (
            (refl, omega arith),
            (
              (refl, omega arith),
              (
                (refl, omega arith),
                (
                  (refl, omega arith),
                  (
                    (refl, omega arith),
                    ((refl, omega arith), ((refl, omega arith), ((refl, omega arith), tt))),
                  ),
                ),
              ),
            ),
          ),
        ),
      )
      ((omega arith, omega arith, omega arith), tt) pooled-IsWaiting (inl pooled_version)
      pooled-IsAtHeader pooled_bytes

-- A client whose request of two bytes is being processed, and a thread that has not run before.
abbrev full : Client
full = record pooled {
  version = 5;
  request_is_being_processed = true;
  request_processing_finished = false;
  requests = 1;
  request_len = 11;
  request_bytes = framed 5 2 hello;
  request_base = heap 11;
}

full-IsFull : IsFull 5 full
unfolding initial_client
full-IsFull = record {
  same_version = refl;
  in_pool = refl;
  unmarked = refl;
  processing = refl;
  full = refl;
  none_found = refl;
  counted = omega arith;
  base = inr (11, refl, refl);
}

abbrev deferring : Outcome
deferring = record {
  returned = true;
  throws_bad_alloc = false;
  sending_met_bad_alloc = false;
  deferred = true;
}

abbrev processing : Outcome
processing = record {
  returned = false;
  throws_bad_alloc = false;
  sending_met_bad_alloc = false;
  deferred = false;
}

abbrev threads : Threads
threads = record { thread_index_counter = 2; thread_index = none }

process-IsAccounted_example :
    (r : Received) × (process registry making 5 false
        (deferring ∷ processing ∷ [])
        hello
        threads
        server
        full
      ≡ some r)
    × (r.queued ≡ none)
    × IsWaiting r.client
    × IsAtHeader r.client
    × IsAccounted 2 64 2 false server r.server
process-IsAccounted_example =
    process-IsAccounted registry 5 5 default_parameters (omega arith) refl making (deferring ∷ [])
      processing hello threads server full ((refl, (refl, refl)), tt) refl (refl, refl)
      (inr (refl, omega arith)) full-IsFull

-- The client has sent nothing for a minute, and no keep-alive can be made.
abbrev short_of_memory : ClientType → MessageMemory
short_of_memory versioned_client = record {
  map_fails = false;
  copy_fails = λ server. false;
  allocation_fails = λ server i. true;
}
short_of_memory versionless_client = record {
  map_fails = false;
  copy_fails = λ server. false;
  allocation_fails = λ server i. false;
}

send_keepalive_thread-reaches_example :
    (k : Kept) × (versioned : ClientHandles) × (versionless : ClientHandles)
    × (send_keepalive_thread registry 2000 short_of_memory 30 60 (pooled ∷ []) ≡ some k)
    × IsSent registry 2000 short_of_memory versioned_client response_keep_alive versioned
        k.keep_alives
    × IsSent registry 2000 short_of_memory versionless_client response_fatal_error versionless
        k.fatal_errors
    × IsStoredFor registry 2000 short_of_memory response_keep_alive versioned k.keep_alives
    × IsStoredFor registry 2000 short_of_memory response_fatal_error versionless k.fatal_errors
    × (contains sender versioned ≡ found_with sender 30 60 versioned_client (pooled ∷ []))
    × (contains sender versionless ≡ found_with sender 30 60 versionless_client (pooled ∷ []))
send_keepalive_thread-reaches_example =
    send_keepalive_thread-reaches registry 2000 short_of_memory 30 60 (pooled ∷ []) sender
      (unfold initial_client in omega arith, tt)
