-- ===== src/Receiver/Stream/Steps.antt =====
-- One read: what `on_read` of Pulsar/src/LocalClientsManager.cpp does with the bytes that were put behind
-- those of the client.
use pulsar_server_framework.Prelude.{
  ℕ, ◌+◌, ◌≤◌, ◌<◌, ◌≡◌, ◌⊎◌, ◌^◌, refl, inl, inr, List, ◌++◌, none, some, true, false, length,
  length-append, arith,
}
use pulsar_server_framework.ByteOrder.{ByteOrder}
use pulsar_server_framework.Client.{Client, Server, heap}
use pulsar_server_framework.Protocol.Constants.{header_size}
use pulsar_server_framework.Protocol.Parser.{VersionParameters, Registry}
use pulsar_server_framework.Receiver.{header_length}
use pulsar_server_framework.Receiver.Frames.{IsWaiting, after_frame, extract_request-whole}
use pulsar_server_framework.Receiver.Reading.{
  Received, Making, received, extract_request_off_the_buffer,
}
use pulsar_server_framework.Protocol.Framing.{whole_frame}
use pulsar_server_framework.Receiver.Stream.Waiting.{
  IsRead, extract_short, extract_size, extract_more,
}
use pulsar_server_framework.Receiver.Stream.Phases.{
  IsHeaderBase, IsAtHeader, IsAtSize, IsAtBody, IsOfVersion, not_refused, still-IsWaiting,
}

-- The whole frame stands in the buffer, which has no room left, and its request is being processed.
pub record IsFull (version : ℕ) (c : Client) : Type 0 where
  pub same_version : c.version ≡ version
  pub in_pool : c.in_pool ≡ true
  pub unmarked : c.to_be_disconnected ≡ false
  pub processing : c.request_is_being_processed ≡ true
  pub full : c.request_len ≡ length c.request_bytes
  pub none_found : c.request_size_found ≡ 0
  pub counted : 0 < c.requests
  pub base :
      IsHeaderBase c
      ⊎ ((n : ℕ) × (c.request_base ≡ heap n) × (c.allocated_for_streaming ≡ c.streaming))

-- A part of the frame stands in the buffer: its first bytes, or all but the last.
abbrev pub IsPart : ℕ → ℕ → Client → Type 0
IsPart version size c = IsAtHeader c ⊎ (((c.version ≡ version) × IsAtSize size c) ⊎ IsAtBody size c)

three_ways : (a b : ℕ) → (a < b) ⊎ ((a ≡ b) ⊎ (b < a))
three_ways a b = ground arith

module _ ⦃o : ByteOrder⦄ (processors : Registry) (version : ℕ) (p : VersionParameters)
    (hv : version < 2 ^ 16) (pos : 0 < version) (known : processors version ≡ some p) where
  -- What the bytes of one read come to: a longer part of the frame, or the request.
  abbrev pub IsTaken : List ℕ → List ℕ → List ℕ → List ℕ → Client → Received → Type 0
  IsTaken b rest bytes ys c r =
      ((r.queued ≡ none)
        × (r.client.request_bytes ≡ c.request_bytes ++ bytes)
        × IsWaiting r.client
        × IsOfVersion version r.client
        × IsPart version (length b) r.client)
      ⊎ ((r.queued ≡ some b) × (ys ≡ rest) × IsFull version r.client)

  part-IsTaken :
      (b rest bytes ys : List ℕ) (s : Server) (c c' : Client)
      → c'.request_bytes ≡ c.request_bytes ++ bytes
      → IsWaiting c
      → c'.in_pool ≡ c.in_pool
      → c'.to_be_disconnected ≡ c.to_be_disconnected
      → c'.request_is_being_processed ≡ c.request_is_being_processed
      → IsOfVersion version c'
      → IsPart version (length b) c'
      → IsTaken b rest bytes ys c (received s c')
  unfolding received
  part-IsTaken b rest bytes ys s c c' e w x y z v part =
      inl (refl, e, still-IsWaiting c c' w x y z, v, part)

  extract_at_header :
      (m : Making) (b rest bytes ys : List ℕ) (s : Server) (c : Client)
      → IsRead version p b rest bytes ys c
      → IsWaiting c
      → IsAtHeader c
      → length (c.request_bytes ++ bytes) < header_length
      → (r : Received) × (extract_request_off_the_buffer processors m bytes s c ≡ some r)
        × IsTaken b rest bytes ys c r
  extract_at_header m b rest bytes ys s c (e, some_size, fits, hs, v) w h short =
      let c' : Client = record c { request_bytes = c.request_bytes ++ bytes } in
      (
        received s c',
        extract_short processors version p hv pos known m bytes s c h short,
        part-IsTaken b rest bytes ys s c c' refl w refl refl refl v
            (inl (record { len = h.len; size = h.size; short = short; base = h.base })),
      )

  extract_at_size :
      (m : Making) (b rest bytes ys : List ℕ) (s : Server) (c : Client)
      → IsRead version p b rest bytes ys c
      → IsWaiting c
      → IsAtHeader c
      → length (c.request_bytes ++ bytes) ≡ header_length
      → 1 < length b
      → (r : Received) × (extract_request_off_the_buffer processors m bytes s c ≡ some r)
        × IsTaken b rest bytes ys c r
  extract_at_size m b rest bytes ys s c read w h full more =
      let c' : Client = record c {
        request_bytes = c.request_bytes ++ bytes;
        version = version;
        request_size_found = length b;
      } in
      (
        received s c',
        extract_size processors version p hv pos known m b rest bytes ys s c read h full more,
        part-IsTaken b rest bytes ys s c c' refl w refl refl refl (inr refl) (
            inr (
              inl (
                refl,
                record { len = h.len; found = refl; full = full; more = more; base = h.base },
              ))),
      )

  extract_at_body :
      (m : Making) (b rest bytes ys : List ℕ) (s : Server) (c : Client)
      → IsRead version p b rest bytes ys c
      → IsWaiting c
      → IsAtBody (length b) c
      → header_length < length (c.request_bytes ++ bytes)
      → length (c.request_bytes ++ bytes) < length b + header_size
      → (r : Received) × (extract_request_off_the_buffer processors m bytes s c ≡ some r)
        × IsTaken b rest bytes ys c r
  extract_at_body m b rest bytes ys s c read w h long short =
      let c' : Client = record c { request_bytes = c.request_bytes ++ bytes; version = version } in
      (
        received s c',
        extract_more processors version p hv pos known m b rest bytes ys s c read h long short,
        part-IsTaken b rest bytes ys s c c' refl w refl refl refl (inr refl) (
            inr (
              inr (record {
                len = h.len;
                none_found = h.none_found;
                long = omega arith;
                short = short;
                base = h.base;
                kept = h.kept;
              }))),
      )

  -- The base of a buffer that may be full.
  abbrev IsBase : Client → Type 0
  IsBase c =
      IsHeaderBase c
      ⊎ ((n : ℕ) × (c.request_base ≡ heap n) × (c.allocated_for_streaming ≡ c.streaming))

  extract_all :
      (m : Making) (b rest bytes ys : List ℕ) (s : Server) (c : Client)
      → IsRead version p b rest bytes ys c
      → IsWaiting c
      → m.allocation_fails ≡ false
      → IsBase c
      → c.request_size_found ≡ 0
      → c.request_len ≡ length b + header_size
      → length (c.request_bytes ++ bytes) ≡ length b + header_size
      → (r : Received) × (extract_request_off_the_buffer processors m bytes s c ≡ some r)
        × IsTaken b rest bytes ys c r
  extract_all m b rest bytes ys s c (e, some_size, fits, hs, v) w memory base none_found len whole =
      let (f, g) = whole_frame version b rest (c.request_bytes ++ bytes) ys e whole in
      let (s', run) =
        extract_request-whole processors m version b bytes p s c f hv hs
          (not_refused version c pos hv v) known some_size fits (omega (arith, len)) memory w in
      (
        record { server = s'; client = after_frame m version b c; queued = some b },
        run,
        inr (
          refl,
          g,
          record {
            same_version = refl;
            in_pool = w.in_pool;
            unmarked = w.unmarked;
            processing = refl;
            full = omega (arith, len);
            none_found = none_found;
            counted = omega arith;
            base = base;
          },
        ),
      )

  -- A read of at least one byte, no more than there is room for.
  pub extract-IsTaken :
      (m : Making) (b rest bytes ys : List ℕ) (s : Server) (c : Client)
      → IsRead version p b rest bytes ys c
      → IsWaiting c
      → m.allocation_fails ≡ false
      → 0 < length bytes
      → length (c.request_bytes ++ bytes) ≤ c.request_len
      → IsAtHeader c ⊎ IsAtBody (length b) c
      → (r : Received) × (extract_request_off_the_buffer processors m bytes s c ≡ some r)
        × IsTaken b rest bytes ys c r
  extract-IsTaken m b rest bytes ys s c read w memory some_bytes room (inl h) =
      let n = length (c.request_bytes ++ bytes) in
      elim (three_ways n header_length) [
        | inl short ↦ extract_at_header m b rest bytes ys s c read w h short
        | inr (inr long) ↦ absurd (omega (arith, h.len))
        | inr (inl full) ↦ elim (three_ways 1 (length b)) [
          | inl more ↦ extract_at_size m b rest bytes ys s c read w h full more
          | inr (inl one) ↦
              extract_all m b rest bytes ys s c read w memory (inl h.base) h.size
                (omega (arith, h.len)) (omega arith)
          | inr (inr empty) ↦ absurd (omega (arith, read.1))
        ]
      ]
  extract-IsTaken m b rest bytes ys s c read w memory some_bytes room (inr h) =
      let n = length (c.request_bytes ++ bytes) in
      let long : header_length < n = omega (arith, length-append c.request_bytes bytes, h.long) in
      elim (three_ways n (length b + header_size)) [
        | inl short ↦ extract_at_body m b rest bytes ys s c read w h long short
        | inr (inl whole) ↦
            extract_all m b rest bytes ys s c read w memory (inr (h.base.0, h.base.1, h.kept))
              h.none_found h.len whole
        | inr (inr over) ↦ absurd (omega (arith, h.len))
      ]
