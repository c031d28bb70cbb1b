-- ===== src/ByteOrder.antt =====
-- Host and network byte order: the winsock functions that Pulsar calls, and the macros `htonll` and
-- `ntohll` of Pulsar/include/Pulsar.h, which stand on them.
pub mod Order64
use pulsar_server_framework.Prelude.{
  ℕ, ◌+◌, ◌*◌, ◌/◌, ◌%◌, ◌^◌, ◌<◌, ◌≡◌, ◌≢◌, List, [], ◌∷◌, ◌++◌, ◌==◌, if◌then◌else◌,
}

abbrev pub IsByte : ℕ → Type 0
IsByte b = b < 256

-- The bytes of a number, most significant first: the order of the wire.
abbrev pub be16 : ℕ → List ℕ
be16 x = x / 256 ∷ x % 256 ∷ []

abbrev pub be32 : ℕ → List ℕ
be32 x = x / 16777216 ∷ x / 65536 % 256 ∷ x / 256 % 256 ∷ x % 256 ∷ []

abbrev pub be64 : ℕ → List ℕ
be64 x = be32 (x / 2 ^ 32) ++ be32 (x % 2 ^ 32)

-- What the code uses of winsock and of the machine. `bytesN x` are the bytes of an unsigned N-bit
-- number in memory, and `wordN` is the number that stands at such bytes.
pub record ByteOrder : Type 0 where
  pub htons : ℕ → ℕ
  pub ntohs : ℕ → ℕ
  pub htonl : ℕ → ℕ
  pub ntohl : ℕ → ℕ
  pub bytes16 : ℕ → List ℕ
  pub bytes32 : ℕ → List ℕ
  pub bytes64 : ℕ → List ℕ
  pub word16 : ℕ → ℕ → ℕ
  pub word32 : ℕ → ℕ → ℕ → ℕ → ℕ
  pub word64 : ℕ → ℕ → ℕ → ℕ → ℕ → ℕ → ℕ → ℕ → ℕ
  -- "Converts from host to TCP/IP network byte order, which is big-endian", and back.
  pub htons_network : (x : ℕ) → x < 2 ^ 16 → bytes16 (htons x) ≡ be16 x
  pub htonl_network : (x : ℕ) → x < 2 ^ 32 → bytes32 (htonl x) ≡ be32 x
  pub ntohs_host : (a b : ℕ) → IsByte a → IsByte b → ntohs (word16 a b) ≡ a * 256 + b
  pub ntohl_host :
      (a b c d : ℕ)
      → IsByte a
      → IsByte b
      → IsByte c
      → IsByte d
      → ntohl (word32 a b c d) ≡ a * 16777216 + b * 65536 + c * 256 + d
  pub htonl-lt : (x : ℕ) → x < 2 ^ 32 → htonl x < 2 ^ 32
  pub word32-lt :
      (a b c d : ℕ) → IsByte a → IsByte b → IsByte c → IsByte d → word32 a b c d < 2 ^ 32
  pub same_order : ntohl 1 ≡ htonl 1
  -- On a machine where `htonl` leaves 1 as it is, the high half of a 64-bit number comes first and
  -- no half changes; on any other the low half comes first.
  pub bytes64_big : htonl 1 ≡ 1 → (x : ℕ) → x < 2 ^ 64 → bytes64 x ≡ be64 x
  pub word64_big :
      htonl 1 ≡ 1
      → (a b c d e f g h : ℕ)
      → word64 a b c d e f g h
        ≡ (a * 16777216 + b * 65536 + c * 256 + d) * 2 ^ 32
          + (e * 16777216 + f * 65536 + g * 256 + h)
  pub bytes64_little :
      htonl 1 ≢ 1
      → (hi lo : ℕ) → hi < 2 ^ 32
      → lo < 2 ^ 32
      → bytes64 (hi * 2 ^ 32 + lo) ≡ bytes32 lo ++ bytes32 hi
  pub word64_little :
      htonl 1 ≢ 1
      → (a b c d e f g h : ℕ) → word64 a b c d e f g h ≡ word32 e f g h * 2 ^ 32 + word32 a b c d

module _ ⦃o : ByteOrder⦄ where
  -- `|` joins a multiple of 2 ^ 32 and a number below it, so it is a sum.
  pub htonll : ℕ → ℕ
  htonll x = if 1 == o.htonl 1 then x else o.htonl (x % 2 ^ 32) * 2 ^ 32 + o.htonl (x / 2 ^ 32)

  pub ntohll : ℕ → ℕ
  ntohll x = if 1 == o.ntohl 1 then x else o.ntohl (x % 2 ^ 32) * 2 ^ 32 + o.ntohl (x / 2 ^ 32)
