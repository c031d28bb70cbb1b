-- ===== src/Receiver/Stream/Finish.antt =====
-- The end of a request's processing: `after_request_processing_thread` and `ResetRequestBuffer` of
-- Pulsar/src/LocalClientsManager.cpp, for a client whose buffer holds a whole frame.
use pulsar_server_framework.Prelude.{
  ℕ, ◌-◌, ◌≡◌, ◌∙◌, refl, sym, ap, inl, inr, [], none, some, true, false, ◌==◌, Bool-cases, arith,
  List,
}
use pulsar_server_framework.Client.{Client, Server, header, heap}
use pulsar_server_framework.Pool.{decrease_count_for_client}
use pulsar_server_framework.Protocol.Parser.{Registry}
use pulsar_server_framework.Receiver.{reset_request_buffer, release, rewound}
use pulsar_server_framework.Receiver.Frames.{IsWaiting}
use pulsar_server_framework.Receiver.Reading.{
  Received, Making, received, finish_request, after_request_processing_thread,
}
use pulsar_server_framework.Receiver.Stream.Phases.{IsHeaderBase, IsAtHeader}
use pulsar_server_framework.Receiver.Stream.Steps.{IsFull}

-- The buffer is empty again, and the rest of the client is as it was.
record IsReset (c c' : Client) : Type 0 where
  at_header : IsAtHeader c'
  bytes : c'.request_bytes ≡ []
  version : c'.version ≡ c.version
  in_pool : c'.in_pool ≡ c.in_pool
  marked : c'.to_be_disconnected ≡ c.to_be_disconnected
  requests : c'.requests ≡ c.requests

-- The counters of requests, with what the requests in the queue take.
record HasSameRequests (s s' : Server) : Type 0 where
  memory :
      s'.stat.memory_consumption_by_requests_in_queue
      ≡ s.stat.memory_consumption_by_requests_in_queue
  started : s'.stat.request_processing_threads_started ≡ s.stat.request_processing_threads_started
  finished :
      s'.stat.request_processing_threads_finished ≡ s.stat.request_processing_threads_finished
  processed : s'.stat.requests_processed ≡ s.stat.requests_processed
  failed : s'.stat.requests_failed_to_process ≡ s.stat.requests_failed_to_process

-- The request's own memory is counted down.
pub record IsCountedDown (size : ℕ) (s s' : Server) : Type 0 where
  pub memory :
      s'.stat.memory_consumption_by_requests_in_queue
      ≡ s.stat.memory_consumption_by_requests_in_queue - size
  pub started :
      s'.stat.request_processing_threads_started ≡ s.stat.request_processing_threads_started
  pub finished :
      s'.stat.request_processing_threads_finished ≡ s.stat.request_processing_threads_finished
  pub processed : s'.stat.requests_processed ≡ s.stat.requests_processed
  pub failed : s'.stat.requests_failed_to_process ≡ s.stat.requests_failed_to_process

same_requests : (s : Server) → HasSameRequests s s
same_requests s = record {
  memory = refl;
  started = refl;
  finished = refl;
  processed = refl;
  failed = refl;
}

rewound-IsReset :
    (c c1 : Client)
    → c1.version ≡ c.version
    → c1.in_pool ≡ c.in_pool
    → c1.to_be_disconnected ≡ c.to_be_disconnected
    → c1.requests ≡ c.requests
    → c1.request_size_found ≡ 0
    → IsHeaderBase c1
    → IsReset c (rewound c1)
unfolding rewound
rewound-IsReset c c1 v i d r none_found base = record {
  at_header = record { len = refl; size = none_found; short = omega arith; base = base };
  bytes = refl;
  version = v;
  in_pool = i;
  marked = d;
  requests = r;
}

module _ (processors : Registry) where
  -- A buffer from the heap is kept for streaming, and deleted otherwise.
  heap-IsReset :
      (s : Server) (c : Client) (n : ℕ)
      → c.request_size_found ≡ 0
      → c.request_base ≡ heap n
      → c.allocated_for_streaming ≡ c.streaming
      → (s' : Server) × (c' : Client) × (reset_request_buffer processors s c ≡ some (s', c'))
        × IsReset c c'
        × HasSameRequests s s'
  unfolding reset_request_buffer release rewound
  heap-IsReset s c n none_found base kept = elim (Bool-cases c.streaming) [
    | inl on ↦ (
      s,
      rewound c,
      ground (arith, base, kept, on),
      rewound-IsReset c c refl refl refl refl none_found (inr (n, base, on, kept ∙ on)),
      same_requests s,
    )
    | inr off ↦
        let t = s.stat in
        let c1 : Client = record c { request_base = header; allocated_for_streaming = false } in
        (
          record s {
            stat = record t {
              memory_consumption_by_clients = t.memory_consumption_by_clients - c.request_len;
              active_client_request_buffers = t.active_client_request_buffers - 1;
            };
          },
          rewound c1,
          ground (arith, base, kept, off),
          rewound-IsReset c c1 refl refl refl refl none_found (inl (refl, refl)),
          record {
            memory = refl;
            started = refl;
            finished = refl;
            processed = refl;
            failed = refl;
          },
        )
  ]

  full-IsReset :
      (version : ℕ) (s : Server) (c : Client)
      → IsFull version c
      → (s' : Server) × (c' : Client) × (reset_request_buffer processors s c ≡ some (s', c'))
        × IsReset c c'
        × HasSameRequests s s'
  full-IsReset version s c h = elim h.base [
    | inl (inl (base, kept)) ↦ (
      s,
      rewound c,
      unfold reset_request_buffer in ground (arith, base),
      rewound-IsReset c c refl refl refl refl h.none_found (inl (base, kept)),
      same_requests s,
    )
    | inl (inr (n, base, streaming, kept)) ↦
        heap-IsReset s c n h.none_found base (kept ∙ sym streaming)
    | inr (n, base, kept) ↦ heap-IsReset s c n h.none_found base kept
  ]

  -- The client may send its next request.
  pub finish_full :
      (m : Making) (body : List ℕ) (version : ℕ) (s : Server) (c : Client)
      → IsFull version c
      → (r : Received) × (after_request_processing_thread processors m false false false body s c
          ≡ some r)
        × (r.queued ≡ none)
        × (r.client.request_bytes ≡ [])
        × (r.client.version ≡ version)
        × IsWaiting r.client
        × IsAtHeader r.client
        × IsCountedDown m.size_of_request s r.server
  unfolding after_request_processing_thread finish_request decrease_count_for_client received
  finish_full m body version s c h =
      let (s', c', run, v, same) = full-IsReset version s c h in
      let t = s'.stat in
      let c3 : Client = record c' {
        request_is_being_processed = false;
        request_processing_finished = true;
        requests = c'.requests - 1;
        last_activity_time = m.now;
      } in
      let counted : (c'.requests == 0) ≡ false = ground (arith, v.requests, h.counted) in
      (
        received
            (record s' {
              stat = record t {
                memory_consumption_by_requests_in_queue =
                    t.memory_consumption_by_requests_in_queue - m.size_of_request;
              };
            })
            c3,
        simp (run, counted, v.marked ∙ h.unmarked),
        refl,
        v.bytes,
        v.version ∙ h.same_version,
        record {
          in_pool = v.in_pool ∙ h.in_pool;
          unmarked = v.marked ∙ h.unmarked;
          not_processing = refl;
        },
        record {
          len = v.at_header.len;
          size = v.at_header.size;
          short = v.at_header.short;
          base = v.at_header.base;
        },
        record {
          memory = ap (λ x. x - m.size_of_request) same.memory;
          started = same.started;
          finished = same.finished;
          processed = same.processed;
          failed = same.failed;
        },
      )
