-- ===== src/Receiver/Memory.antt =====
-- The memory of the request buffers, Pulsar/src/LocalClientsManager.cpp: `GetRequestBuffer` and
-- `ResetRequestBuffer`.
use pulsar_server_framework.Prelude.{
  ℕ, ◌+◌, ◌-◌, ◌≡◌, ◌≤◌, refl, inl, inr, Bool-cases, List, [], Option, some, false, if◌then◌else◌,
  length, arith,
}
use pulsar_server_framework.Client.{Client, Server, header, heap}
use pulsar_server_framework.Protocol.Constants.{header_size}
use pulsar_server_framework.Protocol.Parser.{Registry, VersionParameters}
use pulsar_server_framework.Receiver.{
  header_length, streaming_memory, rewound, release, reset_request_buffer, allocated, allocate,
  extend, get_version_parameters,
}

-- The client after the header of a request of `size` bytes was read into m_Header.
abbrev pub after_header : List ℕ → ℕ → Client → Client
after_header bytes size c = record c {
  request_base = header;
  allocated_for_streaming = false;
  request_bytes = bytes;
  request_len = header_length;
  request_size_found = size;
}

-- What is allocated for the request.
unfoldable pub needed : Registry → ℕ → Client → Option ℕ
needed processors size c =
    if c.streaming then streaming_memory processors c else some (size + header_size)

extend_lem :
    (processors : Registry) (s : Server) (c : Client) (bytes : List ℕ) (size m : ℕ)
    → length bytes ≡ header_length
    → needed processors size c ≡ some m
    → extend processors false s (after_header bytes size c)
      ≡ some (allocated m s (after_header bytes size c))
unfolding extend allocate needed streaming_memory
extend_lem processors s c bytes size m h e = ground (arith, h, e)

add_sub : (a m : ℕ) → a + m - m ≡ a
add_sub a m = omega arith

reset_lem :
    (processors : Registry) (s : Server) (c : Client) (bytes : List ℕ) (size m : ℕ)
    → needed processors size c ≡ some m
    → (let r = allocated m s (after_header bytes size c) in
        reset_request_buffer processors r.0 (record (r.1) { streaming = false }))
      ≡ some (s, after_header [] 0 (record c { streaming = false }))
unfolding reset_request_buffer release allocated rewound needed streaming_memory
reset_lem processors s c bytes size m e = ground (
  arith,
  e,
  add_sub s.stat.memory_consumption_by_clients m,
  add_sub s.stat.active_client_request_buffers 1,
)

needed-fits :
    (processors : Registry) (c : Client) (size : ℕ) (p : VersionParameters)
    → get_version_parameters processors c.version ≡ some p
    → size ≤ p.max_request_size
    → (m : ℕ) × (needed processors size c ≡ some m) × (size + header_size ≤ m)
unfolding needed streaming_memory
needed-fits processors c size p e h = elim (Bool-cases c.streaming) [
  | inl y ↦ (p.max_request_size + header_size, ground (arith, y, e), omega (arith, h))
  | inr n ↦ (size + header_size, ground (arith, n), omega arith)
]

-- For a request whose header was read, of a version whose processor allows `size` bytes,
-- GetRequestBuffer allocates a buffer that holds the header and `size` bytes, keeps what was read, asks
-- for the rest of the request, and counts what it allocates; once streaming is off, ResetRequestBuffer
-- gives back precisely what was counted for the buffer.
pub extend-reset :
    (processors : Registry) (s : Server) (c : Client) (bytes : List ℕ) (size : ℕ)
    (p : VersionParameters)
    → length bytes ≡ header_length
    → get_version_parameters processors c.version ≡ some p
    → size ≤ p.max_request_size
    → (m : ℕ) × (s' : Server) × (c' : Client) × (extend processors false s
          (after_header bytes size c)
        ≡ some (s', c'))
      × (c'.request_len ≡ size + header_size)
      × (c'.request_base ≡ heap m)
      × (size + header_size ≤ m)
      × (c'.request_bytes ≡ bytes)
      × (s'.stat.memory_consumption_by_clients ≡ s.stat.memory_consumption_by_clients + m)
      × (reset_request_buffer processors s' (record c' { streaming = false })
          ≡ some (s, after_header [] 0 (record c { streaming = false })))
unfolding allocated
extend-reset processors s c bytes size p h v fits =
    let (m, e, room) = needed-fits processors c size p v fits in
    let r = allocated m s (after_header bytes size c) in
    (
      m,
      r.0,
      r.1,
      extend_lem processors s c bytes size m h e,
      refl,
      refl,
      room,
      refl,
      refl,
      reset_lem processors s c bytes size m e,
    )
