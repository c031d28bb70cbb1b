-- ===== src/Receiver/Stream/Draining.antt =====
-- Reads that go on, each after the end of what was being processed, take all frames off the wire:
-- Pulsar/src/LocalClientsManager.cpp.
use pulsar_server_framework.Prelude.{
  ℕ, ◌-◌, ◌≤◌, ◌<◌, ◌≡◌, ◌^◌, ◌∙◌, refl, sym, ap, subst, inl, inr, List, [], ◌∷◌, ◌++◌, some, false,
  length, length-append, All, arith,
}
use mathlib.Core.List.{append-nil}
use pulsar_server_framework.ByteOrder.{ByteOrder}
use pulsar_server_framework.Client.{Client, Server}
use pulsar_server_framework.Protocol.Framing.{frames, length_zero}
use pulsar_server_framework.Protocol.Parser.{VersionParameters, Registry}
use pulsar_server_framework.Receiver.Frames.{IsWaiting}
use pulsar_server_framework.Receiver.Reading.{Making}
use pulsar_server_framework.Receiver.Stream.{
  ClientConnection, ConnectionEvent, read, finished, connection_step, run_connection,
}
use pulsar_server_framework.Receiver.Stream.Phases.{IsAtHeader, IsOfVersion}
use pulsar_server_framework.Receiver.Stream.Reads.{
  IsAccepted, IsReading, PartOf, read_first, read_last,
}
use pulsar_server_framework.Receiver.Stream.Run.{
  IsStream, opened, finish_processing, finish_reading, after_read-IsStream, opened_lem,
}

-- A round: the end of what is being processed, if anything is, and a read.
pub record Round : Type 0 where
  pub ending : Making
  pub reading : Making
  pub most : ℕ

-- Rounds, and the end of what the last of them left in processing.
pub rounds : Making → List Round → List ConnectionEvent
rounds m [] = finished m ∷ []
rounds m (r ∷ rs) = finished (r.ending) ∷ read (r.reading) (r.most) ∷ rounds m rs

-- The read has memory, and at least one byte arrives if one is on the wire.
abbrev pub IsEffective : Round → Type 0
IsEffective r = (r.reading.allocation_fails ≡ false) × (0 < r.most)

-- A part of a frame is shorter than the frame.
part_shorter :
    (version : ℕ) (p : VersionParameters) (todo : List (List ℕ)) (c : Client)
    → All (IsAccepted p) todo
    → PartOf version todo c
    → c.request_bytes ≡ frames version todo
    → todo ≡ []
part_shorter version p [] c a h e = refl
part_shorter version p (b ∷ bs) c (a, as') (inl h) e =
    absurd (omega (arith, ap length e, length-append b (frames version bs), h.short, a.0))
part_shorter version p (b ∷ bs) c (a, as') (inr (inl (v, h))) e =
    absurd (omega (arith, ap length e, length-append b (frames version bs), h.full, h.more))
part_shorter version p (b ∷ bs) c (a, as') (inr (inr h)) e =
    absurd (omega (arith, ap length e, length-append b (frames version bs), h.short))

module _ ⦃o : ByteOrder⦄ (processors : Registry) (version : ℕ) (p : VersionParameters)
    (hv : version < 2 ^ 16) (pos : 0 < version) (known : processors version ≡ some p)
    (some_size : 0 < p.max_request_size) where
  -- After the end of processing the client may send.
  finish-IsStream :
      (m : Making) (bodies todo : List (List ℕ)) (k : ClientConnection)
      → IsStream version p bodies todo k
      → (k' : ClientConnection) × (connection_step processors (finished m) k ≡ some k')
        × (k'.wire ≡ k.wire)
        × (k'.requests ++ todo ≡ bodies)
        × IsReading version todo k'
  unfolding connection_step
  finish-IsStream m bodies todo k v = elim v.state [
    | inl h ↦ (
      k,
      finish_reading processors version p hv pos known some_size m todo k h,
      refl,
      v.in_order,
      h,
    )
    | inr h ↦
        let (k', ran, same, wire, h') =
          finish_processing processors version p hv pos known some_size m todo k h in
        (k', ran, wire, ap (◌++ todo) same ∙ v.in_order, h')
  ]

  -- A read of a client that may send takes at least one byte, if there is one.
  read_progress :
      (r : Round) (bodies todo : List (List ℕ)) (k : ClientConnection)
      → IsEffective r
      → k.requests ++ todo ≡ bodies
      → All (IsAccepted p) todo
      → IsReading version todo k
      → (todo' : List (List ℕ)) × (k' : ClientConnection) × (connection_step processors
            (read (r.reading) (r.most))
            k
          ≡ some k')
        × IsStream version p bodies todo' k'
        × (length k'.wire ≤ length k.wire - 1)
  unfolding connection_step
  read_progress r bodies [] k effective e a h = (
    [],
    k,
    read_last processors version p hv pos known r.reading r.most k effective.0 some_size h,
    record { in_order = e; accepted = a; state = inl h },
    omega (arith, ap length h.stream, length-append k.client.request_bytes k.wire),
  )
  read_progress r bodies (b ∷ bs) k effective e (a, as') h =
      let (k', ran, after, progress) =
        read_first processors version p hv pos known r.reading r.most b bs k effective.0 a h in
      let shorter : length k'.wire ≤ length k.wire - 1 = elim progress [
        | inl none_asked ↦ absurd (omega (arith, effective.1))
        | inr less ↦ less
      ] in
      let (todo, v) =
        after_read-IsStream processors version p hv pos known some_size bodies b bs k k' e (a, as')
          after in
      (todo, k', ran, v, shorter)

  drained :
      (m : Making) (bodies todo : List (List ℕ)) (k : ClientConnection)
      → length k.wire ≡ 0
      → IsStream version p bodies todo k
      → (k' : ClientConnection) × (run_connection processors (finished m ∷ []) k ≡ some k')
        × (k'.requests ≡ bodies)
        × (k'.wire ≡ [])
        × IsReading version [] k'
  unfolding run_connection
  drained m bodies todo k none_left v =
      let (k', ran, wire, e, h) = finish-IsStream m bodies todo k v in
      let empty : k'.wire ≡ [] = wire ∙ length_zero k.wire none_left in
      let all_read : k'.client.request_bytes ≡ frames version todo =
        sym (append-nil k'.client.request_bytes)
        ∙ (ap (k'.client.request_bytes ++◌) (sym empty) ∙ h.stream) in
      let done : todo ≡ [] = part_shorter version p todo k'.client v.accepted h.part all_read in
      (
        k',
        rw ran refl,
        sym (append-nil k'.requests) ∙ (ap (k'.requests ++◌) (sym done) ∙ e),
        empty,
        subst (λ t. IsReading version t k') done h,
      )

  run_rounds :
      (m : Making) (rs : List Round) (bodies todo : List (List ℕ)) (k : ClientConnection)
      → length k.wire ≤ length rs
      → All IsEffective rs
      → IsStream version p bodies todo k
      → (k' : ClientConnection) × (run_connection processors (rounds m rs) k ≡ some k')
        × (k'.requests ≡ bodies)
        × (k'.wire ≡ [])
        × IsReading version [] k'
  unfolding rounds run_connection
  run_rounds m [] bodies todo k enough effective v = drained m bodies todo k (omega arith) v
  run_rounds m (r ∷ rs) bodies todo k enough (effective, more) v =
      let (k1, ran1, wire, e, h) = finish-IsStream r.ending bodies todo k v in
      let (todo2, k2, ran2, v2, shorter) =
        read_progress r bodies todo k1 effective e v.accepted h in
      let (k3, ran3, queued, none_left, ready) =
        run_rounds m rs bodies todo2 k2 (omega (arith, shorter, ap length wire)) more v2 in
      (k3, rw (ran1, ran2) ran3, queued, none_left, ready)

  -- A client that may send, with an empty buffer and no other version yet, sends frames of one 16-bit
  -- version, not 0, that has a processor with a positive largest size, with bodies that the processor
  -- accepts; memory lasts. After as many rounds as there are bytes on the wire, or more, each the end
  -- of what is being processed and a read that takes at least one byte if there is one, and one more
  -- end of processing: the requests that were queued are all the bodies, in order, nothing is left on
  -- the wire, and the client may send its next frame.
  pub opened-drains :
      (m : Making) (rs : List Round) (bodies : List (List ℕ)) (s : Server) (c : Client)
      → length (frames version bodies) ≤ length rs
      → All IsEffective rs
      → All (IsAccepted p) bodies
      → IsWaiting c
      → IsOfVersion version c
      → IsAtHeader c
      → c.request_bytes ≡ []
      → (k : ClientConnection) × (run_connection processors
            (rounds m rs)
            (opened version bodies s c)
          ≡ some k)
        × (k.requests ≡ bodies)
        × (k.wire ≡ [])
        × IsReading version [] k
  opened-drains m rs bodies s c enough effective accepted w v h empty =
      run_rounds m rs bodies bodies (opened version bodies s c) enough effective
        (opened_lem version p bodies s c accepted w v h empty)
