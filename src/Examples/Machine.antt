-- ===== src/Examples/Machine.antt =====
-- A little-endian machine: the byte order that Pulsar/Pulsar.sln builds for.
use pulsar_server_framework.Prelude.{
  ℕ, ◌+◌, ◌*◌, ◌/◌, ◌%◌, ◌^◌, ◌<◌, ◌≡◌, refl, List, [], ◌∷◌, ◌++◌, arith,
}
use pulsar_server_framework.ByteOrder.{ByteOrder, be16, be32}

abbrev swap16 : ℕ → ℕ
swap16 x = x % 256 * 256 + x / 256 % 256

abbrev swap32 : ℕ → ℕ
swap32 x = x % 256 * 16777216 + x / 256 % 256 * 65536 + x / 65536 % 256 * 256 + x / 16777216 % 256

abbrev le16 : ℕ → List ℕ
le16 x = x % 256 ∷ x / 256 % 256 ∷ []

abbrev le32 : ℕ → List ℕ
le32 x = x % 256 ∷ x / 256 % 256 ∷ x / 65536 % 256 ∷ x / 16777216 % 256 ∷ []

abbrev le_word32 : ℕ → ℕ → ℕ → ℕ → ℕ
le_word32 a b c d = a + b * 256 + c * 65536 + d * 16777216

swap16_network : (x : ℕ) → x < 2 ^ 16 → le16 (swap16 x) ≡ be16 x
swap16_network x h = ground arith

four_bytes :
    {a b c d a' b' c' d' : ℕ}
    → a ≡ a'
    → b ≡ b'
    → c ≡ c'
    → d ≡ d'
    → a ∷ b ∷ c ∷ d ∷ [] ≡ a' ∷ b' ∷ c' ∷ d' ∷ []
four_bytes e f g h = rw (e, f, g, h)

low_half : (hi lo : ℕ) → lo < 2 ^ 32 → (hi * 2 ^ 32 + lo) % 2 ^ 32 ≡ lo
low_half hi lo h = omega arith

high_half : (hi lo : ℕ) → lo < 2 ^ 32 → (hi * 2 ^ 32 + lo) / 2 ^ 32 ≡ hi
high_half hi lo h = omega arith

swap32_network : (x : ℕ) → x < 2 ^ 32 → le32 (swap32 x) ≡ be32 x
swap32_network x h = four_bytes (omega arith) (omega arith) (omega arith) (omega arith)

instance pub little_endian : ByteOrder
little_endian = record {
  htons = swap16;
  ntohs = swap16;
  htonl = swap32;
  ntohl = swap32;
  bytes16 = le16;
  bytes32 = le32;
  bytes64 = λ x. le32 (x % 2 ^ 32) ++ le32 (x / 2 ^ 32);
  word16 = λ a b. a + b * 256;
  word32 = le_word32;
  word64 = λ a b c d e f g h. le_word32 e f g h * 2 ^ 32 + le_word32 a b c d;
  htons_network = swap16_network;
  htonl_network = swap32_network;
  ntohs_host = λ a b p q. omega arith;
  ntohl_host = λ a b c d p q r s. omega arith;
  htonl-lt = λ x h. omega arith;
  word32-lt = λ a b c d p q r s. omega arith;
  same_order = refl;
  bytes64_big = λ h. absurd (ground arith);
  word64_big = λ h. absurd (ground arith);
  bytes64_little = λ n hi lo p q. rw (low_half hi lo q, high_half hi lo q);
  word64_little = λ n a b c d e f g h. refl;
}
