-- ===== src/Receiver/Processing/Deferral.antt =====
-- A request that its processor defers any number of times before it processes it:
-- `request_processing_thread` and `after_request_processing_thread` of
-- Pulsar/src/LocalClientsManager.cpp.
use pulsar_server_framework.Prelude.{
  ℕ, ◌+◌, ◌-◌, ◌<◌, ◌≡◌, ◌⊎◌, ◌∙◌, refl, ap, subst, inl, inr, List, [], ◌∷◌, ◌++◌, none, some, Bool,
  true, false, ◌&&◌, ◌==◌, if◌then◌else◌, length, All, arith,
}
use pulsar_server_framework.Client.{Client, Server}
use pulsar_server_framework.Protocol.Parser.{VersionParameters, Registry}
use pulsar_server_framework.Receiver.Frames.{IsWaiting}
use pulsar_server_framework.Receiver.Reading.{Received, Making, after_request_processing_thread}
use pulsar_server_framework.Receiver.Stream.Phases.{IsAtHeader}
use pulsar_server_framework.Receiver.Stream.Steps.{IsFull}
use pulsar_server_framework.Receiver.Stream.Finish.{IsCountedDown, finish_full}
use pulsar_server_framework.Receiver.Processing.{
  Outcome, Threads, get_thread_index, called, count_started, count_finished,
  request_processing_thread, process, disconnection_processing_thread,
}

-- The thread has an index that a processor stands under, or can take one.
abbrev pub HasIndex : ℕ → Threads → Type 0
HasIndex max_threads w =
    ((i : ℕ) × (w.thread_index ≡ some i) × (i < max_threads))
    ⊎ ((w.thread_index ≡ none) × (w.thread_index_counter < max_threads))

get_thread_index-HasIndex :
    (max_threads : ℕ) (w : Threads)
    → HasIndex max_threads w
    → (w' : Threads) × (i : ℕ) × (get_thread_index max_threads w ≡ some (w', i))
      × HasIndex max_threads w'
unfolding get_thread_index
get_thread_index-HasIndex max_threads w (inl (i, e, h)) =
    (w, i, ground (arith, e, h), inl (i, e, h))
get_thread_index-HasIndex max_threads w (inr (e, h)) =
    let n = w.thread_index_counter in
    (
      record w { thread_index_counter = n + 1; thread_index = some n },
      n,
      ground (arith, e, h),
      inl (n, refl, h),
    )

and_true : (b : Bool) → (b && true) ≡ b
and_true true = refl
and_true false = refl

-- No bad_alloc, neither in the processor nor where it sends.
abbrev pub IsCalm : Outcome → Type 0
IsCalm o = (o.throws_bad_alloc ≡ false) × (o.sending_met_bad_alloc ≡ false)

abbrev pub IsDeferring : Outcome → Type 0
IsDeferring o = (o.deferred ≡ true) × IsCalm o

-- What the counters of requests say when a request of `len` bytes has left the queue after `runs` runs
-- of the thread.
pub record IsAccounted (runs size len : ℕ) (processed : Bool) (s s' : Server) : Type 0 where
  pub memory :
      s'.stat.memory_consumption_by_requests_in_queue
      ≡ s.stat.memory_consumption_by_requests_in_queue - len - size
  pub started :
      s'.stat.request_processing_threads_started ≡ s.stat.request_processing_threads_started + runs
  pub finished :
      s'.stat.request_processing_threads_finished
      ≡ s.stat.request_processing_threads_finished + runs
  pub processed_once : s'.stat.requests_processed ≡ s.stat.requests_processed + 1
  pub failed :
      s'.stat.requests_failed_to_process
      ≡ s.stat.requests_failed_to_process + (if processed then 0 else 1)

counted_lem :
    (returned : Bool) (size len : ℕ) (s s' : Server)
    → IsCountedDown size (count_finished false returned len (count_started s)) s'
    → IsAccounted 1 size len returned s s'
unfolding count_finished count_started
counted_lem returned size len s s' h = record {
  memory = h.memory;
  started = h.started;
  finished = h.finished;
  processed_once = h.processed;
  failed = h.failed;
}

-- One more run, in which the request was deferred.
one_more :
    (runs size len : ℕ) (processed returned : Bool) (s s' : Server)
    → IsAccounted runs size len processed (count_finished true returned len (count_started s)) s'
    → IsAccounted (runs + 1) size len processed s s'
unfolding count_finished count_started
one_more runs size len processed returned s s' h = record {
  memory = h.memory;
  started = omega (arith, h.started);
  finished = omega (arith, h.finished);
  processed_once = h.processed_once;
  failed = h.failed;
}

module _ (processors : Registry) (max_threads version : ℕ) (p : VersionParameters)
    (pos : 0 < version) (known : processors version ≡ some p) where
  thread_lem :
      (o : Outcome) (body : List ℕ) (w : Threads) (s : Server) (c : Client)
      → IsCalm o
      → c.version ≡ version
      → HasIndex max_threads w
      → (w' : Threads) × (request_processing_thread processors max_threads false false o body w s c
          ≡ some (record {
            server = count_finished o.deferred o.returned (length body) (count_started s);
            threads = w';
            memory_allocation_exception = false;
            deferred = o.deferred;
          }))
        × HasIndex max_threads w'
  unfolding request_processing_thread called
  thread_lem o body w s c calm v h =
      let (w', i, got, h') = get_thread_index-HasIndex max_threads w h in
      let versioned : (c.version == 0) ≡ false = ground (arith, v) in
      let found : processors c.version ≡ some p = ap processors v ∙ known in
      (w', simp (versioned, got, found, calm.0, calm.1, and_true o.returned), h')

  requeued :
      (m : Making) (body : List ℕ) (s : Server) (c : Client)
      → after_request_processing_thread processors m false false true body s c
        ≡ some (record { server = s; client = c; queued = some body })
  unfolding after_request_processing_thread
  requeued m body s c = refl

  last_round :
      (m : Making) (o : Outcome) (body : List ℕ) (w : Threads) (s : Server) (c : Client)
      → o.deferred ≡ false
      → IsCalm o
      → HasIndex max_threads w
      → IsFull version c
      → (r : Received) × (process processors m max_threads false (o ∷ []) body w s c ≡ some r)
        × (r.queued ≡ none)
        × IsWaiting r.client
        × IsAtHeader r.client
        × IsAccounted 1 m.size_of_request (length body) o.returned s r.server
  unfolding process
  last_round m o body w s c done calm h full =
      let (w', ran, _) = thread_lem o body w s c calm full.same_version h in
      let s' = count_finished false o.returned (length body) (count_started s) in
      let (r, after, queued, _, _, waiting, at_header, counted) =
        finish_full processors m body version s' c full in
      (
        r,
        simp (ran, done, after) (ground (arith, queued)),
        queued,
        waiting,
        at_header,
        counted_lem o.returned m.size_of_request (length body) s r.server counted,
      )

  -- A request whose frame stands in its client's buffer, processed on a thread that has an index or
  -- can take one, with a processor for its client's version, which is not 0, no shutdown and no bad_alloc: after any
  -- number of rounds in which the processor defers it and one in which it does not, the request has
  -- left the queue, and the memory counted for it is taken off once; each round started and finished
  -- one thread, the request counts as processed once, and as failed once if the processor says so in
  -- the last round; the client may send its next request.
  pub process-IsAccounted :
      (m : Making) (os : List Outcome) (o : Outcome) (body : List ℕ) (w : Threads) (s : Server)
      (c : Client)
      → All IsDeferring os
      → o.deferred ≡ false
      → IsCalm o
      → HasIndex max_threads w
      → IsFull version c
      → (r : Received) × (process processors m max_threads false (os ++ o ∷ []) body w s c ≡ some r)
        × (r.queued ≡ none)
        × IsWaiting r.client
        × IsAtHeader r.client
        × IsAccounted (length os + 1) m.size_of_request (length body) o.returned s r.server
  unfolding process
  process-IsAccounted m [] o body w s c ds done calm h full =
      last_round m o body w s c done calm h full
  process-IsAccounted m (d ∷ os) o body w s c ((deferred, quiet), ds) done calm h full =
      let (w', ran, h') = thread_lem d body w s c quiet full.same_version h in
      let s' = count_finished true d.returned (length body) (count_started s) in
      let (r, rest, queued, waiting, at_header, counted) =
        process-IsAccounted m os o body w' s' c ds done calm h' full in
      (
        r,
        simp (ran, deferred, requeued m body s' c, rest),
        queued,
        waiting,
        at_header,
        subst (λ n. IsAccounted n m.size_of_request (length body) o.returned s r.server)
            (omega arith)
            (one_more (length os + 1) m.size_of_request (length body) o.returned d.returned s
              r.server counted),
      )

  -- The processor is told of the disconnection of every client that has sent a request of a version.
  pub disconnection-told :
      (w : Threads) (c : Client)
      → c.version ≡ version
      → HasIndex max_threads w
      → (w' : Threads) × (disconnection_processing_thread processors max_threads false w c
          ≡ some (w', some (c.client_handle)))
        × HasIndex max_threads w'
  unfolding disconnection_processing_thread
  disconnection-told w c v h =
      let (w', i, got, h') = get_thread_index-HasIndex max_threads w h in
      let versioned : (c.version == 0) ≡ false = ground (arith, v) in
      let found : processors c.version ≡ some p = ap processors v ∙ known in
      (w', simp (versioned, got, found), h')
