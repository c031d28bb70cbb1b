-- ===== src/Handles.antt =====
-- Pulsar/include/TypeDefinitions.h: `IPv4Address`, `ClientHandle` and the set `ClientHandles`.
pub mod Address
pub mod Order
use pulsar_server_framework.Prelude.{
  ℕ, ◌+◌, ◌*◌, ◌-◌, ◌/◌, ◌%◌, ◌^◌, List, [], ◌∷◌, Bool, true, false, ◌&&◌, ◌||◌, ltb, ◌==◌,
  if◌then◌else◌,
}

-- SetAddress, after `sscanf_s` has read the four shorts: each is cut to a byte, and the four bytes
-- make one 32-bit number.
pub set_address : ℕ → ℕ → ℕ → ℕ → ℕ
set_address s0 s1 s2 s3 =
    (s0 % 256 * 2 ^ 24 + s1 % 256 * 2 ^ 16 + s2 % 256 * 2 ^ 8 + s3 % 256) % 2 ^ 32

-- operator[]: `(m_Integer >> ((3-i)*8)) & 0xFF`.
pub address_byte : ℕ → ℕ → ℕ
address_byte address i = address / 2 ^ ((3 - i) * 8) % 256

-- An address is its 32-bit number; the port is one for all servers.
pub record ClientHandle : Type 0 where
  pub client_registration_number : ℕ
  pub server_ipv4_address : ℕ

-- operator<
unfoldable pub less : ClientHandle → ClientHandle → Bool
less a b =
    if ltb a.server_ipv4_address b.server_ipv4_address
    then true
    else if ltb b.server_ipv4_address a.server_ipv4_address
    then false
    else ltb a.client_registration_number b.client_registration_number

-- operator==
unfoldable pub equal : ClientHandle → ClientHandle → Bool
equal a b =
    a.client_registration_number == b.client_registration_number
    && a.server_ipv4_address == b.server_ipv4_address

-- std::set<ClientHandle>: ordered by operator<, each handle once.
abbrev pub ClientHandles : Type 0
ClientHandles = List ClientHandle

unfoldable pub insert : ClientHandle → ClientHandles → ClientHandles
insert h [] = h ∷ []
insert h (x ∷ xs) =
    let rest = insert h xs in if less h x then h ∷ x ∷ xs else if less x h then x ∷ rest else x ∷ xs

unfoldable pub contains : ClientHandle → ClientHandles → Bool
contains h [] = false
contains h (x ∷ xs) = equal h x || contains h xs
