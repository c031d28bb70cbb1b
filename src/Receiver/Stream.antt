-- ===== src/Receiver/Stream.antt =====
-- A client's connection as libuv drives it, Pulsar/src/LocalClientsManager.cpp: for each read libuv calls
-- `alloc_buffer`, puts bytes into the buffer and calls `on_read`; `after_request_processing_thread` is
-- called when a worker thread has processed the request.
pub mod Phases
pub mod Waiting
pub mod Steps
pub mod Finish
pub mod Reads
pub mod Run
pub mod Draining
use pulsar_server_framework.Prelude.{
  ℕ, zero, suc, List, [], ◌∷◌, ◌++◌, Option, none, some, Bool, true, false, if◌then◌else◌, ◌>>=◌,
  ltb, take, drop,
}
use pulsar_server_framework.ByteOrder.{ByteOrder}
use pulsar_server_framework.Client.{Client, Server}
use pulsar_server_framework.Protocol.Parser.{Registry}
use pulsar_server_framework.Receiver.{alloc_buffer}
use pulsar_server_framework.Receiver.Reading.{
  Received, Making, Read, nothing, bytes_read, on_read, after_request_processing_thread,
}

-- `wire` holds the bytes that the client has sent and libuv has not handed over, `requests` those
-- that were queued, oldest first.
pub record ClientConnection : Type 0 where
  pub server : Server
  pub client : Client
  pub wire : List ℕ
  pub requests : List (List ℕ)

-- A read, with the most bytes that arrive at once, and the end of a request's processing.
pub data ConnectionEvent : Type 0 where
  read : Making → ℕ → ConnectionEvent
  finished : Making → ConnectionEvent

-- libuv reports a read without bytes as 0 or UV_ENOBUFS.
unfoldable pub reported : List ℕ → Read
reported [] = nothing
reported (x ∷ xs) = bytes_read (x ∷ xs)

abbrev pub listed : Option (List ℕ) → List (List ℕ)
listed none = []
listed (some body) = body ∷ []

unfoldable pub smaller : ℕ → ℕ → ℕ
smaller a b = if ltb a b then a else b

unfoldable pub continued : ClientConnection → List ℕ → Received → ClientConnection
continued k wire r = record {
  server = r.server;
  client = r.client;
  wire = wire;
  requests = k.requests ++ listed r.queued;
}

module _ ⦃o : ByteOrder⦄ (processors : Registry) where
  -- One read: no more bytes than the buffer has room for, nor than have arrived.
  pub read_step : Making → ℕ → ClientConnection → Option ClientConnection
  read_step m most k = do
    (s, c, room) ← alloc_buffer processors m.allocation_fails k.server k.client
    let n = smaller room most
    r ← on_read processors m false (reported (take n k.wire)) s c
    some (continued k (drop n k.wire) r)

  -- The callback comes only for a request that was queued. The request is not deferred.
  pub finish_step : Making → ClientConnection → Option ClientConnection
  finish_step m k =
      let done =
        after_request_processing_thread processors m false false false [] k.server k.client >>= λ r.
        some (continued k k.wire r) in
      if k.client.request_is_being_processed then done else some k

  pub connection_step : ConnectionEvent → ClientConnection → Option ClientConnection
  connection_step (read m most) k = read_step m most k
  connection_step (finished m) k = finish_step m k

  pub run_connection : List ConnectionEvent → ClientConnection → Option ClientConnection
  run_connection [] k = some k
  run_connection (e ∷ es) k = connection_step e k >>= λ k'. run_connection es k'
