-- ===== src/Handles/Address.antt =====
-- The bytes of an IPv4 address, Pulsar/include/TypeDefinitions.h.
use pulsar_server_framework.Prelude.{ℕ, ◌%◌, ◌^◌, ◌<◌, ◌≡◌, arith}
use pulsar_server_framework.Handles.{set_address, address_byte}

-- The four bytes of an address are the low bytes of the four numbers that were read, in their order.
pub address_byte-set_address :
    (s0 s1 s2 s3 : ℕ)
    → (address_byte (set_address s0 s1 s2 s3) 0 ≡ s0 % 256)
      × (address_byte (set_address s0 s1 s2 s3) 1 ≡ s1 % 256)
      × (address_byte (set_address s0 s1 s2 s3) 2 ≡ s2 % 256)
      × (address_byte (set_address s0 s1 s2 s3) 3 ≡ s3 % 256)
unfolding set_address address_byte
address_byte-set_address s0 s1 s2 s3 = omega arith

-- Every 32-bit address is the one that its four bytes set.
pub set_address-address_byte :
    (a : ℕ)
    → a < 2 ^ 32
    → set_address (address_byte a 0) (address_byte a 1) (address_byte a 2) (address_byte a 3) ≡ a
unfolding set_address address_byte
set_address-address_byte a h = omega arith
