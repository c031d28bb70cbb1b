-- ===== src/Receiver/Stream/Run.antt =====
-- A connection on which frames arrive, one behind the other, through any reads and any ends of
-- processing: Pulsar/src/LocalClientsManager.cpp. The frames' bodies are the abstract view of the wire.
use pulsar_server_framework.Prelude.{
  ℕ, ◌<◌, ◌≡◌, ◌⊎◌, ◌^◌, ◌∙◌, refl, ap, inl, inr, List, [], ◌∷◌, ◌++◌, some, false, All,
}
use mathlib.Core.List.{append-nil}
use pulsar_server_framework.ByteOrder.{ByteOrder}
use pulsar_server_framework.Client.{Client, Server}
use pulsar_server_framework.Protocol.Framing.{frames}
use pulsar_server_framework.Protocol.Parser.{VersionParameters, Registry}
use pulsar_server_framework.Receiver.Frames.{IsWaiting}
use pulsar_server_framework.Receiver.Reading.{Making}
use pulsar_server_framework.Receiver.Stream.{
  ClientConnection, ConnectionEvent, read, finished, continued, finish_step, connection_step,
  run_connection, listed,
}
use pulsar_server_framework.Receiver.Stream.Phases.{IsAtHeader, IsOfVersion}
use pulsar_server_framework.Receiver.Stream.Finish.{finish_full}
use pulsar_server_framework.Receiver.Stream.Reads.{
  IsAccepted, HasMemory, IsReading, IsProcessing, IsAfterRead, header-PartOf, read_first, read_last,
  read_processing,
}

-- The requests queued so far and the bodies on the wire are, in order, the bodies that were sent.
pub record IsStream (version : ℕ) (p : VersionParameters) (bodies todo : List (List ℕ))
    (k : ClientConnection) : Type 0 where
  pub in_order : k.requests ++ todo ≡ bodies
  pub accepted : All (IsAccepted p) todo
  pub state : IsReading version todo k ⊎ IsProcessing version todo k

append_assoc : (xs ys zs : List (List ℕ)) → (xs ++ ys) ++ zs ≡ xs ++ (ys ++ zs)
append_assoc [] ys zs = refl
append_assoc (x ∷ xs) ys zs = ap (◌∷◌ x) (append_assoc xs ys zs)

-- A connection on which a client has sent frames with these bodies, and nothing has been read.
abbrev pub opened : ℕ → List (List ℕ) → Server → Client → ClientConnection
opened version bodies s c = record {
  server = s;
  client = c;
  wire = frames version bodies;
  requests = [];
}

pub opened_lem :
    (version : ℕ) (p : VersionParameters) (bodies : List (List ℕ)) (s : Server) (c : Client)
    → All (IsAccepted p) bodies
    → IsWaiting c
    → IsOfVersion version c
    → IsAtHeader c
    → c.request_bytes ≡ []
    → IsStream version p bodies bodies (opened version bodies s c)
opened_lem version p bodies s c accepted w v h empty = record {
  in_order = refl;
  accepted = accepted;
  state = inl (record {
    waiting = w;
    of_version = v;
    part = header-PartOf version bodies c h;
    stream = ap (◌++ frames version bodies) empty;
  });
}

module _ ⦃o : ByteOrder⦄ (processors : Registry) (version : ℕ) (p : VersionParameters)
    (hv : version < 2 ^ 16) (pos : 0 < version) (known : processors version ≡ some p)
    (some_size : 0 < p.max_request_size) where
  pub finish_processing :
      (m : Making) (todo : List (List ℕ)) (k : ClientConnection)
      → IsProcessing version todo k
      → (k' : ClientConnection) × (finish_step processors m k ≡ some k')
        × (k'.requests ≡ k.requests)
        × (k'.wire ≡ k.wire)
        × IsReading version todo k'
  unfolding finish_step continued
  finish_processing m todo k h =
      let (r, ran, queued, empty, v, w, at_header, _) =
        finish_full processors m [] version k.server k.client h.full in
      (
        continued k k.wire r,
        simp (h.full.processing, ran),
        ap (λ q. k.requests ++ listed q) queued ∙ append-nil k.requests,
        refl,
        record {
          waiting = w;
          of_version = inr v;
          part = header-PartOf version todo r.client at_header;
          stream = ap (◌++ k.wire) empty ∙ h.stream;
        },
      )

  pub finish_reading :
      (m : Making) (todo : List (List ℕ)) (k : ClientConnection)
      → IsReading version todo k
      → finish_step processors m k ≡ some k
  unfolding finish_step
  finish_reading m todo k h = simp h.waiting.not_processing

  unmoved :
      (m : Making) (most : ℕ) (bodies todo : List (List ℕ)) (k : ClientConnection)
      → k.requests ++ todo ≡ bodies
      → All (IsAccepted p) todo
      → IsProcessing version todo k
      → (todo' : List (List ℕ)) × (k' : ClientConnection) × (connection_step processors
            (read m most)
            k
          ≡ some k')
        × IsStream version p bodies todo' k'
  unfolding connection_step
  unmoved m most bodies todo k e a h = (
    todo,
    k,
    read_processing processors version p hv pos known m most todo k h,
    record { in_order = e; accepted = a; state = inr h },
  )

  pub after_read-IsStream :
      (bodies : List (List ℕ)) (b : List ℕ) (bs : List (List ℕ)) (k k' : ClientConnection)
      → k.requests ++ b ∷ bs ≡ bodies
      → All (IsAccepted p) (b ∷ bs)
      → IsAfterRead processors version p hv pos known b bs k k'
      → (todo : List (List ℕ)) × IsStream version p bodies todo k'
  after_read-IsStream bodies b bs k k' e a (inl (same, h)) =
      (b ∷ bs, record { in_order = ap (◌++ b ∷ bs) same ∙ e; accepted = a; state = inl h })
  after_read-IsStream bodies b bs k k' e a (inr (more, h)) = (
    bs,
    record {
      in_order = ap (◌++ bs) more ∙ (append_assoc k.requests (b ∷ []) bs ∙ e);
      accepted = a.1;
      state = inr h;
    },
  )

  read-IsStream :
      (m : Making) (most : ℕ) (bodies todo : List (List ℕ)) (k : ClientConnection)
      → m.allocation_fails ≡ false
      → k.requests ++ todo ≡ bodies
      → All (IsAccepted p) todo
      → IsReading version todo k ⊎ IsProcessing version todo k
      → (todo' : List (List ℕ)) × (k' : ClientConnection) × (connection_step processors
            (read m most)
            k
          ≡ some k')
        × IsStream version p bodies todo' k'
  unfolding connection_step
  read-IsStream m most bodies [] k memory e a (inr h) = unmoved m most bodies [] k e a h
  read-IsStream m most bodies [] k memory e a (inl h) = (
    [],
    k,
    read_last processors version p hv pos known m most k memory some_size h,
    record { in_order = e; accepted = a; state = inl h },
  )
  read-IsStream m most bodies (b ∷ bs) k memory e a (inr h) = unmoved m most bodies (b ∷ bs) k e a h
  read-IsStream m most bodies (b ∷ bs) k memory e (a, as') (inl h) =
      let (k', ran, after, _) =
        read_first processors version p hv pos known m most b bs k memory a h in
      let (todo, v) = after_read-IsStream bodies b bs k k' e (a, as') after in (todo, k', ran, v)

  connection_step-IsStream :
      (event : ConnectionEvent) (bodies todo : List (List ℕ)) (k : ClientConnection)
      → HasMemory event
      → IsStream version p bodies todo k
      → (todo' : List (List ℕ)) × (k' : ClientConnection) × (connection_step processors event k
          ≡ some k')
        × IsStream version p bodies todo' k'
  unfolding connection_step
  connection_step-IsStream (read m most) bodies todo k memory v =
      read-IsStream m most bodies todo k memory v.in_order v.accepted v.state
  connection_step-IsStream (finished m) bodies todo k memory v = elim v.state [
    | inl h ↦ (todo, k, finish_reading m todo k h, v)
    | inr h ↦
        let (k', ran, same, _, h') = finish_processing m todo k h in
        (
          todo,
          k',
          ran,
          record {
            in_order = ap (◌++ todo) same ∙ v.in_order;
            accepted = v.accepted;
            state = inl h';
          },
        )
  ]

  pub run_connection-IsStream :
      (events : List ConnectionEvent) (bodies todo : List (List ℕ)) (k : ClientConnection)
      → All HasMemory events
      → IsStream version p bodies todo k
      → (todo' : List (List ℕ)) × (k' : ClientConnection) × (run_connection processors events k
          ≡ some k')
        × IsStream version p bodies todo' k'
  unfolding run_connection
  run_connection-IsStream [] bodies todo k memory v = (todo, k, refl, v)
  run_connection-IsStream (e ∷ es) bodies todo k (memory, more) v =
      let (todo1, k1, ran, v1) = connection_step-IsStream e bodies todo k memory v in
      let (todo2, k2, rest, v2) = run_connection-IsStream es bodies todo1 k1 more v1 in
      (todo2, k2, rw ran rest, v2)

  -- A client that may send, with an empty buffer and no other version yet, sends frames of one 16-bit
  -- version, not 0, that has a processor with a positive largest size, with bodies that the processor
  -- accepts; memory lasts. Then through any sequence of reads, of any sizes, and of ends of
  -- processing, no assertion fails, and the requests that were queued are the first of the bodies, in
  -- order, each once; what is left of the others stands in the client's buffer and on the wire, with
  -- nothing lost.
  pub opened-IsStream :
      (events : List ConnectionEvent) (bodies : List (List ℕ)) (s : Server) (c : Client)
      → All HasMemory events
      → All (IsAccepted p) bodies
      → IsWaiting c
      → IsOfVersion version c
      → IsAtHeader c
      → c.request_bytes ≡ []
      → (todo : List (List ℕ)) × (k : ClientConnection) × (run_connection processors events
            (opened version bodies s c)
          ≡ some k)
        × IsStream version p bodies todo k
  opened-IsStream events bodies s c memory accepted w v h empty =
      run_connection-IsStream events bodies bodies (opened version bodies s c) memory
        (opened_lem version p bodies s c accepted w v h empty)
