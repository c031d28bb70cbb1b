-- ===== src/Receiver/Processing.antt =====
-- A worker thread processes a request: `request_processing_thread` of
-- Pulsar/src/LocalClientsManager.cpp, a disconnection, `disconnection_processing_thread`, and the rounds of a request that its processor defers. What the
-- application's ProcessRequest does is an argument.
pub mod Deferral
use pulsar_server_framework.Prelude.{
  ℕ, ◌+◌, ◌-◌, List, [], ◌∷◌, Option, none, some, Bool, true, false, not, ◌&&◌, ltb, ◌==◌,
  if◌then◌else◌, ◌>>=◌, length, ◌||◌,
}
use pulsar_server_framework.Client.{Client, Server}
use pulsar_server_framework.Handles.{ClientHandle}
use pulsar_server_framework.Protocol.Constants.{uninitialized_version}
use pulsar_server_framework.Protocol.Parser.{Registry}
use pulsar_server_framework.Receiver.Reading.{Received, Making, after_request_processing_thread}

-- What ProcessRequest does: it returns a value or throws bad_alloc; sending a response may have met
-- bad_alloc, and the request may have been deferred.
pub record Outcome : Type 0 where
  pub returned : Bool
  pub throws_bad_alloc : Bool
  pub sending_met_bad_alloc : Bool
  pub deferred : Bool

-- ThreadIndexCounter, and the thread-local m_ThreadIndex, `none` for -1.
pub record Threads : Type 0 where
  pub thread_index_counter : ℕ
  pub thread_index : Option ℕ

-- The thread's index, which it takes when it runs for the first time. `none` is the failed assertion
-- that there is a processor for the thread.
unfoldable pub get_thread_index : ℕ → Threads → Option (Threads × ℕ)
get_thread_index max_threads w = elim w.thread_index [
  | some i ↦ if ltb i max_threads then some (w, i) else none
  | none ↦
      if ltb w.thread_index_counter max_threads
      then some (
        record w {
          thread_index_counter = w.thread_index_counter + 1;
          thread_index = some (w.thread_index_counter);
        },
        w.thread_index_counter,
      )
      else none
]

-- What a run of the thread leaves: the counters, and the two flags of the request.
pub record ThreadRun : Type 0 where
  pub server : Server
  pub threads : Threads
  pub memory_allocation_exception : Bool
  pub deferred : Bool

-- The processor is called unless the server is shutting down.
unfoldable pub called : Bool → Outcome → Outcome
called shutdown_initiated o =
    if shutdown_initiated
    then record {
      returned = false;
      throws_bad_alloc = false;
      sending_met_bad_alloc = false;
      deferred = false;
    }
    else o

unfoldable pub count_started : Server → Server
count_started s =
    let t = s.stat in
    record s {
      stat = record t {
        request_processing_threads_started = t.request_processing_threads_started + 1;
      };
    }

-- The counters after the processor's return. Times and the counts for each thread are left out.
unfoldable pub count_finished : Bool → Bool → ℕ → Server → Server
count_finished deferred processed len s =
    let t = s.stat in
    let n = t.request_processing_threads_finished + 1 in
    record s {
      stat = if deferred then record t { request_processing_threads_finished = n } else record t {
        request_processing_threads_finished = n;
        requests_failed_to_process = t.requests_failed_to_process + (if processed then 0 else 1);
        requests_processed = t.requests_processed + 1;
        total_request_bytes_processed = t.total_request_bytes_processed + len;
        memory_consumption_by_requests_in_queue = t.memory_consumption_by_requests_in_queue - len;
      };
    }

-- request_processing_thread. `busy` is the flag of the thread's processor for the client's version.
unfoldable pub request_processing_thread :
    Registry → ℕ → Bool → Bool → Outcome → List ℕ → Threads → Server → Client → Option ThreadRun
request_processing_thread processors max_threads shutdown_initiated busy o body w s c =
    if c.version == uninitialized_version then none else do
      (w', i) ← get_thread_index max_threads w
      elim (processors c.version) [
        | none ↦ some (record {
          server = count_finished false false (length body) (count_started s);
          threads = w';
          memory_allocation_exception = false;
          deferred = false;
        })
        | some p ↦
            let r = called shutdown_initiated o in
            if busy
            then none
            else some (record {
              server =
                  count_finished r.deferred (r.returned && not r.throws_bad_alloc) (length body)
                    (count_started s);
              threads = w';
              memory_allocation_exception = r.throws_bad_alloc || r.sending_met_bad_alloc;
              deferred = r.deferred;
            })
      ]

-- disconnection_processing_thread: the handle that the thread's processor for the client's version is
-- told of, if there is one. `busy` is the processor's flag.
pub disconnection_processing_thread :
    Registry → ℕ → Bool → Threads → Client → Option (Threads × Option ClientHandle)
disconnection_processing_thread processors max_threads busy w c =
    if c.version == uninitialized_version then some (w, none) else do
      (w', i) ← get_thread_index max_threads w
      elim (processors c.version) [
        | none ↦ some (w', none)
        | some p ↦ if busy then none else some (w', some (c.client_handle))
      ]

-- The rounds of a request on one thread: a request that was deferred is queued again. What is still
-- queued when the outcomes end is in the result.
pub process :
    Registry
    → Making
    → ℕ
    → Bool
    → List Outcome
    → List ℕ
    → Threads
    → Server
    → Client
    → Option Received
process processors m max_threads shutdown_initiated [] body w s c =
    some (record { server = s; client = c; queued = some body })
process processors m max_threads shutdown_initiated (o ∷ os) body w s c = do
  t ← request_processing_thread processors max_threads shutdown_initiated false o body w s c
  r ←
      after_request_processing_thread processors m false t.memory_allocation_exception t.deferred
        body (t.server) c
  elim r.queued [
    | none ↦ some r
    | some body' ↦
        process processors m max_threads shutdown_initiated os body' (t.threads) (r.server)
          (r.client)
  ]
