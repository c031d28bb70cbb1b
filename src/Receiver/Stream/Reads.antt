-- ===== src/Receiver/Stream/Reads.antt =====
-- What one read does to a connection on which frames arrive: `alloc_buffer` and `on_read` of
-- Pulsar/src/LocalClientsManager.cpp.
use pulsar_server_framework.Prelude.{
  ℕ, zero, suc, ◌-◌, ◌≤◌, ◌<◌, ◌≡◌, ◌⊎◌, ◌^◌, ◌∙◌, refl, sym, ap, inl, inr, List, [], ◌∷◌, ◌++◌,
  some, Bool, false, length, take, drop, take-append-drop, length-take, length-drop, length-append,
  arith,
}
use mathlib.Core.List.{append-nil}
use pulsar_server_framework.ByteOrder.{ByteOrder}
use pulsar_server_framework.Client.{Client, Server}
use pulsar_server_framework.Protocol.Framing.{frames, append_assoc}
use pulsar_server_framework.Protocol.Parser.{VersionParameters, Registry}
use pulsar_server_framework.Receiver.{alloc_buffer}
use pulsar_server_framework.Receiver.Frames.{IsWaiting}
use pulsar_server_framework.Receiver.Reading.{Received, Making, received, on_read}
use pulsar_server_framework.Receiver.Stream.{
  ClientConnection, ConnectionEvent, read, finished, reported, listed, smaller, continued,
  read_step,
}
use pulsar_server_framework.Receiver.Stream.Phases.{
  IsAtHeader, IsAtBody, IsOfVersion, alloc_at_header, alloc_at_size, alloc_at_body, alloc_full,
}
use pulsar_server_framework.Receiver.Stream.Steps.{IsFull, IsPart, IsTaken, extract-IsTaken}

-- A body that the version's processor accepts.
abbrev pub IsAccepted : VersionParameters → List ℕ → Type 0
IsAccepted p b = (0 < length b) × (length b ≤ p.max_request_size) × (length b < 2 ^ 32)

abbrev pub HasMemory : ConnectionEvent → Type 0
HasMemory (read m most) = m.allocation_fails ≡ false
HasMemory (finished m) = Unit

abbrev pub PartOf : ℕ → List (List ℕ) → Client → Type 0
PartOf version [] c = IsAtHeader c
PartOf version (b ∷ bs) c = IsPart version (length b) c

-- The client may send: what has been read of the first body's frame stands in its buffer.
pub record IsReading (version : ℕ) (todo : List (List ℕ)) (k : ClientConnection) : Type 0 where
  pub waiting : IsWaiting k.client
  pub of_version : IsOfVersion version k.client
  pub part : PartOf version todo k.client
  pub stream : k.client.request_bytes ++ k.wire ≡ frames version todo

-- A request is being processed, and the frames behind it are on the wire.
pub record IsProcessing (version : ℕ) (todo : List (List ℕ)) (k : ClientConnection) : Type 0 where
  pub full : IsFull version k.client
  pub stream : k.wire ≡ frames version todo

pub header-PartOf :
    (version : ℕ) (todo : List (List ℕ)) (c : Client) → IsAtHeader c → PartOf version todo c
header-PartOf version [] c h = h
header-PartOf version (b ∷ bs) c h = inl h

started : (version size : ℕ) (c : Client) → IsAtHeader c ⊎ IsAtBody size c → IsPart version size c
started version size c (inl h) = inl h
started version size c (inr h) = inr (inr h)

smaller-le : (a b : ℕ) → (smaller a b ≤ a) × (0 < a → 0 < b → 0 < smaller a b)
unfolding smaller
smaller-le a b = (ground arith, λ h k. ground arith)

smaller_zero : (b : ℕ) → smaller 0 b ≡ 0
unfolding smaller
smaller_zero b = ground arith

append_nil : (xs : List (List ℕ)) → xs ++ [] ≡ xs
append_nil xs = append-nil xs

both_empty : (xs ys : List ℕ) → xs ++ ys ≡ [] → (xs ≡ []) × (ys ≡ [])
both_empty [] ys e = (refl, e)
both_empty (x ∷ xs) ys e = absurd (omega (arith, ap length e))

nothing_to_take : (n : ℕ) (xs : List ℕ) → xs ≡ [] → take n xs ≡ []
nothing_to_take zero xs e = refl
nothing_to_take (suc n) xs e = rw e refl

nothing_to_drop : (n : ℕ) (xs : List ℕ) → xs ≡ [] → drop n xs ≡ xs
nothing_to_drop zero xs e = refl
nothing_to_drop (suc n) xs e = rw e refl

progress :
    (n most room : ℕ) (xs : List ℕ)
    → n ≡ smaller room most
    → 0 < room
    → (most ≡ 0) ⊎ (length (drop n xs) ≤ length xs - 1)
progress n zero room xs e h = inl refl
progress n (suc most) room xs e h =
    inr (omega (arith, length-drop n xs, (smaller-le room (suc most)).1 h (omega arith), e))

module _ ⦃o : ByteOrder⦄ (processors : Registry) (version : ℕ) (p : VersionParameters)
    (hv : version < 2 ^ 16) (pos : 0 < version) (known : processors version ≡ some p) where
  -- The buffer that a read gets, with room for at least one byte.
  record IsReady (size : ℕ) (c c' : Client) : Type 0 where
    bytes : c'.request_bytes ≡ c.request_bytes
    waiting : IsWaiting c'
    of_version : IsOfVersion version c'
    phase : IsAtHeader c' ⊎ IsAtBody size c'

  alloc_part :
      (fails : Bool) (size : ℕ) (s : Server) (c : Client)
      → fails ≡ false
      → 0 < size
      → size ≤ p.max_request_size
      → IsWaiting c
      → IsOfVersion version c
      → IsPart version size c
      → (s' : Server) × (c' : Client) × (alloc_buffer processors fails s c
          ≡ some (s', c', c'.request_len - length c'.request_bytes))
        × IsReady size c c'
  alloc_part fails size s c e some_size fits w v (inl h) = (
    s,
    c,
    alloc_at_header processors version p pos known fails s c (omega arith) v w.not_processing h,
    record { bytes = refl; waiting = w; of_version = v; phase = inl h },
  )
  alloc_part fails size s c e some_size fits w v (inr (inr h)) = (
    s,
    c,
    alloc_at_body processors version p pos known fails s c size fits v w.not_processing h,
    record { bytes = refl; waiting = w; of_version = v; phase = inr h },
  )
  alloc_part fails size s c e some_size fits w v (inr (inl (same, h))) =
      let (s', c', ran, x) = alloc_at_size processors version p pos known s c size fits same w h in
      (
        s',
        c',
        ap (λ f. alloc_buffer processors f s c) e ∙ ran,
        record {
          bytes = x.bytes;
          waiting = x.waiting;
          of_version = inr (x.same_version ∙ same);
          phase = inr x.at_body;
        },
      )

  -- What a read leaves of the first frame, of which `ys` has not been read.
  abbrev IsOutcome : List ℕ → List (List ℕ) → List ℕ → List ℕ → Client → Received → Type 0
  IsOutcome b bs bytes ys c r =
      IsTaken processors version p hv pos known b (frames version bs) bytes ys c r

  on_read_lem :
      (m : Making) (b : List ℕ) (bs : List (List ℕ)) (bytes ys : List ℕ) (s : Server) (c : Client)
      → m.allocation_fails ≡ false
      → IsAccepted p b
      → (c.request_bytes ++ bytes) ++ ys ≡ frames version (b ∷ bs)
      → IsWaiting c
      → IsOfVersion version c
      → IsAtHeader c ⊎ IsAtBody (length b) c
      → length (c.request_bytes ++ bytes) ≤ c.request_len
      → (r : Received) × (on_read processors m false (reported bytes) s c ≡ some r)
        × IsOutcome b bs bytes ys c r
  unfolding on_read reported received
  on_read_lem m b bs [] ys s c memory accepted stream w v phase room = (
    received s c,
    refl,
    inl (refl, sym (append-nil c.request_bytes), w, v, started version (length b) c phase),
  )
  on_read_lem m b bs (x ∷ xs) ys s c memory accepted stream w v phase room =
      let (r, ran, taken) =
        extract-IsTaken processors version p hv pos known m b (frames version bs) (x ∷ xs) ys s c
          (stream, accepted.0, accepted.1, accepted.2, v) w memory (omega arith) room phase in
      (r, simp (w.unmarked, ran), taken)

  -- A read makes progress if libuv has a byte to hand over and there is room for it.
  abbrev pub IsProgress : ℕ → ClientConnection → ClientConnection → Type 0
  IsProgress most k k' = (most ≡ 0) ⊎ (length k'.wire ≤ length k.wire - 1)

  -- After a read: more of the first frame stands in the buffer, or its body has been queued.
  abbrev pub IsAfterRead : List ℕ → List (List ℕ) → ClientConnection → ClientConnection → Type 0
  IsAfterRead b bs k k' =
      ((k'.requests ≡ k.requests) × IsReading version (b ∷ bs) k')
      ⊎ ((k'.requests ≡ k.requests ++ b ∷ []) × IsProcessing version bs k')

  after_read :
      (b : List ℕ) (bs : List (List ℕ)) (bytes ys : List ℕ) (k : ClientConnection) (c : Client)
      (r : Received)
      → (c.request_bytes ++ bytes) ++ ys ≡ frames version (b ∷ bs)
      → IsOutcome b bs bytes ys c r
      → IsAfterRead b bs k (continued k ys r)
  unfolding continued
  after_read b bs bytes ys k c r stream (inl (queued, e, w, v, part)) = inl (
    ap (λ q. k.requests ++ listed q) queued ∙ append_nil k.requests,
    record { waiting = w; of_version = v; part = part; stream = ap (◌++ ys) e ∙ stream },
  )
  after_read b bs bytes ys k c r stream (inr (queued, rest, full)) =
      inr (ap (λ q. k.requests ++ listed q) queued, record { full = full; stream = rest })

  has_room :
      (size : ℕ) (c : Client)
      → IsAtHeader c ⊎ IsAtBody size c
      → length c.request_bytes < c.request_len
  has_room size c (inl h) = omega (arith, h.len, h.short)
  has_room size c (inr h) = omega (arith, h.len, h.short)

  pub read_first :
      (m : Making) (most : ℕ) (b : List ℕ) (bs : List (List ℕ)) (k : ClientConnection)
      → m.allocation_fails ≡ false
      → IsAccepted p b
      → IsReading version (b ∷ bs) k
      → (k' : ClientConnection) × (read_step processors m most k ≡ some k')
        × IsAfterRead b bs k k'
        × IsProgress most k k'
  unfolding read_step continued
  read_first m most b bs k memory accepted h =
      let (s, c, allocated, ready) =
        alloc_part m.allocation_fails (length b) k.server k.client memory accepted.0 accepted.1
          h.waiting h.of_version h.part in
      let n = smaller (c.request_len - length c.request_bytes) most in
      let bytes = take n k.wire in
      let ys = drop n k.wire in
      let some_room = has_room (length b) c ready.phase in
      let stream : (c.request_bytes ++ bytes) ++ ys ≡ frames version (b ∷ bs) =
        append_assoc c.request_bytes bytes ys
        ∙ (ap (c.request_bytes ++◌) (take-append-drop n k.wire)
            ∙ (ap (◌++ k.wire) ready.bytes ∙ h.stream)) in
      let fits : length (c.request_bytes ++ bytes) ≤ c.request_len = omega (
        arith,
        length-append c.request_bytes bytes,
        length-take n k.wire,
        (smaller-le (c.request_len - length c.request_bytes) most).0,
        some_room,
      ) in
      let (r, ran, taken) =
        on_read_lem m b bs bytes ys s c memory accepted stream ready.waiting ready.of_version
          ready.phase fits in
      (
        continued k ys r,
        simp (allocated, ran),
        after_read b bs bytes ys k c r stream taken,
        progress n most (c.request_len - length c.request_bytes) k.wire refl
            (omega (arith, some_room)),
      )

  -- With no frame left there is nothing to read.
  pub read_last :
      (m : Making) (most : ℕ) (k : ClientConnection)
      → m.allocation_fails ≡ false
      → 0 < p.max_request_size
      → IsReading version [] k
      → read_step processors m most k ≡ some k
  unfolding read_step continued on_read reported received
  read_last m most k memory some_size h =
      let (_, none_left) = both_empty k.client.request_bytes k.wire h.stream in
      let room = k.client.request_len - length k.client.request_bytes in
      simp (
        alloc_at_header processors version p pos known m.allocation_fails k.server k.client
            some_size h.of_version h.waiting.not_processing h.part,
        nothing_to_take (smaller room most) k.wire none_left,
        nothing_to_drop (smaller room most) k.wire none_left,
        append_nil k.requests,
      )

  -- While a request is being processed the buffer has no room.
  pub read_processing :
      (m : Making) (most : ℕ) (todo : List (List ℕ)) (k : ClientConnection)
      → IsProcessing version todo k
      → read_step processors m most k ≡ some k
  unfolding read_step continued on_read reported received
  read_processing m most todo k h = simp (
    alloc_full processors version p pos known m.allocation_fails k.server k.client
        (inr h.full.same_version) h.full.full h.full.none_found,
    smaller_zero most,
    append_nil k.requests,
  )
