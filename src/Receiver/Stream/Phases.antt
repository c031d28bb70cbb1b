-- ===== src/Receiver/Stream/Phases.antt =====
-- Where a client's request buffer stands while a frame arrives, and what `alloc_buffer` of
-- Pulsar/src/LocalClientsManager.cpp makes of it.
use pulsar_server_framework.Prelude.{
  ℕ, ◌+◌, ◌-◌, ◌≤◌, ◌<◌, ◌≡◌, ◌⊎◌, refl, inl, inr, some, Bool, true, false, not, ◌&&◌, ltb, ◌==◌,
  ◌^◌, length, ap, ◌∙◌, Bool-cases, if◌then◌else◌, arith,
}
use pulsar_server_framework.Client.{Client, Server, header, heap}
use pulsar_server_framework.Protocol.Constants.{header_size}
use pulsar_server_framework.Protocol.Parser.{VersionParameters, Registry, version_refused}
use pulsar_server_framework.Receiver.{
  header_length, get_version_parameters, streaming_memory, allocated, allocate, extend,
  size_allowed, get_request_buffer, alloc_buffer,
}
use pulsar_server_framework.Receiver.Frames.{IsWaiting}

-- The buffer for a header: m_Header, or one that is kept for streaming.
abbrev pub IsHeaderBase : Client → Type 0
IsHeaderBase c =
    ((c.request_base ≡ header) × (c.allocated_for_streaming ≡ false))
    ⊎ ((n : ℕ) × (c.request_base ≡ heap n)
        × (c.streaming ≡ true)
        × (c.allocated_for_streaming ≡ true))

-- Fewer bytes than a header and one more have been read.
pub record IsAtHeader (c : Client) : Type 0 where
  pub len : c.request_len ≡ header_length
  pub size : c.request_size_found ≡ 0
  pub short : length c.request_bytes < header_length
  pub base : IsHeaderBase c

-- The size of the body is known, and there is no room for more bytes yet.
pub record IsAtSize (size : ℕ) (c : Client) : Type 0 where
  pub len : c.request_len ≡ header_length
  pub found : c.request_size_found ≡ size
  pub full : length c.request_bytes ≡ header_length
  pub more : 1 < size
  pub base : IsHeaderBase c

-- The body is being read into a buffer that ends with the frame.
pub record IsAtBody (size : ℕ) (c : Client) : Type 0 where
  pub len : c.request_len ≡ size + header_size
  pub none_found : c.request_size_found ≡ 0
  pub long : header_length ≤ length c.request_bytes
  pub short : length c.request_bytes < size + header_size
  pub base : (n : ℕ) × (c.request_base ≡ heap n)
  pub kept : c.allocated_for_streaming ≡ c.streaming

-- The version of the client's earlier requests, if it has sent any.
abbrev pub IsOfVersion : ℕ → Client → Type 0
IsOfVersion version c = (c.version ≡ 0) ⊎ (c.version ≡ version)

pub not_refused :
    (version : ℕ) (c : Client)
    → 0 < version
    → version < 2 ^ 16
    → IsOfVersion version c
    → version_refused c.version version ≡ false
unfolding version_refused
not_refused version c pos h (inl e) = rw e (ground arith)
not_refused version c pos h (inr e) = rw e (ground arith)

-- What extending the buffer leaves as it was.
pub record IsExtended (size : ℕ) (c c' : Client) : Type 0 where
  pub at_body : IsAtBody size c'
  pub bytes : c'.request_bytes ≡ c.request_bytes
  pub same_version : c'.version ≡ c.version
  pub waiting : IsWaiting c'

pub still-IsWaiting :
    (c c' : Client)
    → IsWaiting c
    → c'.in_pool ≡ c.in_pool
    → c'.to_be_disconnected ≡ c.to_be_disconnected
    → c'.request_is_being_processed ≡ c.request_is_being_processed
    → IsWaiting c'
still-IsWaiting c c' w a b d = record {
  in_pool = a ∙ w.in_pool;
  unmarked = b ∙ w.unmarked;
  not_processing = d ∙ w.not_processing;
}

and_false : (b : Bool) → (b && false) ≡ false
and_false true = refl
and_false false = refl

module _ (processors : Registry) (version : ℕ) (p : VersionParameters) (pos : 0 < version)
    (known : processors version ≡ some p) where
  parameters_lem :
      (c : Client) → c.version ≡ version → get_version_parameters processors c.version ≡ some p
  unfolding get_version_parameters
  parameters_lem c e = rw (e, known) (ground arith)

  memory_lem :
      (c : Client)
      → c.version ≡ version
      → streaming_memory processors c ≡ some (p.max_request_size + header_size)
  unfolding streaming_memory
  memory_lem c e = rw (parameters_lem c e)

  size_allowed_lem :
      (c : Client) (room : ℕ)
      → IsOfVersion version c
      → room ≤ p.max_request_size + header_size
      → size_allowed processors c room ≡ some true
  unfolding size_allowed
  size_allowed_lem c room (inl e) h = rw e
  size_allowed_lem c room (inr e) h = ground (arith, e, memory_lem c e)

  -- What is allocated for a request.
  needed_lem :
      (c : Client) (size : ℕ)
      → c.version ≡ version
      → (m : ℕ) × ((if c.streaming
            then streaming_memory processors c
            else some (size + header_size))
          ≡ some m)
  needed_lem c size v = elim (Bool-cases c.streaming) [
    | inl e ↦ (p.max_request_size + header_size, simp (e, memory_lem c v))
    | inr e ↦ (size + header_size, simp e)
  ]

  -- A buffer that need not be extended is handed over as it is.
  alloc_unchanged :
      (fails : Bool) (s : Server) (c : Client)
      → IsOfVersion version c
      → c.request_len - length c.request_bytes ≤ p.max_request_size + header_size
      → ((c.request_len - length c.request_bytes == 0) && ltb 0 c.request_size_found) ≡ false
      → (not (c.request_len - length c.request_bytes == 0) && c.request_is_being_processed) ≡ false
      → alloc_buffer processors fails s c ≡ some (s, c, c.request_len - length c.request_bytes)
  unfolding alloc_buffer get_request_buffer
  alloc_unchanged fails s c v fits kept idle =
      simp (kept, idle, size_allowed_lem c (c.request_len - length c.request_bytes) v fits)

  pub alloc_at_header :
      (fails : Bool) (s : Server) (c : Client)
      → 0 < p.max_request_size
      → IsOfVersion version c
      → c.request_is_being_processed ≡ false
      → IsAtHeader c
      → alloc_buffer processors fails s c ≡ some (s, c, c.request_len - length c.request_bytes)
  alloc_at_header fails s c some_size v idle h =
      alloc_unchanged fails s c v (omega (arith, h.len, h.short)) (ground (arith, h.len, h.short))
        (ground (arith, idle))

  pub alloc_at_body :
      (fails : Bool) (s : Server) (c : Client) (size : ℕ)
      → size ≤ p.max_request_size
      → IsOfVersion version c
      → c.request_is_being_processed ≡ false
      → IsAtBody size c
      → alloc_buffer processors fails s c ≡ some (s, c, c.request_len - length c.request_bytes)
  alloc_at_body fails s c size fits v idle h =
      alloc_unchanged fails s c v (omega (arith, h.len)) (ground (arith, h.len, h.short))
        (ground (arith, idle))

  pub alloc_full :
      (fails : Bool) (s : Server) (c : Client)
      → IsOfVersion version c
      → c.request_len ≡ length c.request_bytes
      → c.request_size_found ≡ 0
      → alloc_buffer processors fails s c ≡ some (s, c, 0)
  alloc_full fails s c v full none_found =
      let no_room : c.request_len - length c.request_bytes ≡ 0 = omega arith in
      rw no_room at (
        alloc_unchanged fails s c v (omega arith) (ground (arith, none_found))
          (ground (arith, no_room)))

  at_body_lem :
      (size : ℕ) (c c' : Client)
      → c'.request_len ≡ size + header_size
      → c'.request_size_found ≡ 0
      → c'.request_bytes ≡ c.request_bytes
      → (n : ℕ) × (c'.request_base ≡ heap n)
      → c'.allocated_for_streaming ≡ c'.streaming
      → c'.version ≡ c.version
      → IsWaiting c'
      → IsAtSize size c
      → IsExtended size c c'
  at_body_lem size c c' len none_found same base kept v w h = record {
    at_body = record {
      len = len;
      none_found = none_found;
      long = omega (arith, ap length same, h.full);
      short = omega (arith, ap length same, h.full, h.more);
      base = base;
      kept = kept;
    };
    bytes = same;
    same_version = v;
    waiting = w;
  }

  extend_at_size :
      (s : Server) (c : Client) (size : ℕ)
      → c.version ≡ version
      → IsWaiting c
      → IsAtSize size c
      → (s' : Server) × (c' : Client) × (extend processors false s c ≡ some (s', c'))
        × IsExtended size c c'
  unfolding extend allocate allocated
  extend_at_size s c size v w h =
      let still =
        λ (c' : Client) (a : c'.in_pool ≡ c.in_pool)
            (b : c'.to_be_disconnected ≡ c.to_be_disconnected)
            (d : c'.request_is_being_processed ≡ c.request_is_being_processed).
          still-IsWaiting c c' w a b d in
      elim h.base [
        | inl (base, kept) ↦
            let (m, needed) = needed_lem c size v in
            let r = allocated m s c in
            (
              r.0,
              r.1,
              simp (h.full, base, kept, h.found, needed),
              at_body_lem size c r.1 (ap (◌+ header_size) h.found) refl refl (m, refl) refl refl
                  (still r.1 refl refl refl) h,
            )
        | inr (n, base, streaming, kept) ↦
            let c' : Client = record c {
              request_len = c.request_size_found + header_size;
              request_size_found = 0;
            } in
            (
              s,
              c',
              simp (h.full, base, kept, streaming),
              at_body_lem size c c' (ap (◌+ header_size) h.found) refl refl (n, base) (cc) refl
                  (still c' refl refl refl) h,
            )
      ]

  pub alloc_at_size :
      (s : Server) (c : Client) (size : ℕ)
      → size ≤ p.max_request_size
      → c.version ≡ version
      → IsWaiting c
      → IsAtSize size c
      → (s' : Server) × (c' : Client) × (alloc_buffer processors false s c
          ≡ some (s', c', c'.request_len - length c'.request_bytes))
        × IsExtended size c c'
  unfolding alloc_buffer get_request_buffer
  alloc_at_size s c size fits v w h =
      let (s', c', run, e) = extend_at_size s c size v w h in
      let full : ((c.request_len - length c.request_bytes == 0) && ltb 0 c.request_size_found)
          ≡ true =
        ground (arith, h.full, h.len, h.found, h.more) in
      (
        s',
        c',
        simp (
          full,
          run,
          size_allowed_lem c' (c'.request_len - length c'.request_bytes) (inr (e.same_version ∙ v))
              (omega (arith, e.at_body.len)),
          e.waiting.not_processing,
          and_false (not (c'.request_len - length c'.request_bytes == 0)),
        ),
        e,
      )
