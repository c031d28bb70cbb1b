-- ===== src/Protocol/Response/Ends.antt =====
-- How the constructor of `Response`, Pulsar/src/RequestResponse.cpp, ends.
use pulsar_server_framework.Prelude.{
  ℕ, ◌+◌, ◌^◌, ◌≤◌, ◌<◌, ◌≡◌, ◌⊎◌, refl, inl, inr, List, [], ◌∷◌, Bool, true, false, ltb, ◌==◌,
  if◌then◌else◌, length, All, arith, Bool-cases, Option-cases,
}
use pulsar_server_framework.ByteOrder.{ByteOrder}
use pulsar_server_framework.Handles.{ClientHandle}
use pulsar_server_framework.Protocol.Constants.{
  max_handles_in_forwarded_response, special_communication,
}
use pulsar_server_framework.Protocol.Parser.{Registry}
use pulsar_server_framework.Protocol.Response.{
  Creation, created, thrown, overrun, failed, of_one_server, make_response, new_response,
  finish_response, construct_response_for_local_clients, construct_response_for_remote_clients,
}
use pulsar_server_framework.Protocol.Response.Wire.{
  HasU64, construct_local_lem, construct_remote_lem,
}

-- A construction that ends: with bytes, or with an exception.
abbrev pub Ends {ℓ} : {A : Type ℓ} → Creation A → Type ℓ
Ends {A = A} c = (c ≡ thrown) ⊎ ((a : A) × (c ≡ created a))

finish-Ends :
    (forward update : Bool) (server : ℕ) (response : List ℕ) (handles : List ClientHandle)
    (version : ℕ)
    → (c : Creation (List ℕ)) → Ends c
    → Ends (finish_response forward update server response handles version c)
unfolding finish_response
finish-Ends forward update server response handles version thrown h = inl refl
finish-Ends forward update server response handles version (created bytes) h = inr (_, refl)
finish-Ends forward update server response handles version failed (inl e) = absurd (ground arith)
finish-Ends forward update server response handles version failed (inr (b, e)) =
    absurd (ground arith)
finish-Ends forward update server response handles version overrun (inl e) = absurd (ground arith)
finish-Ends forward update server response handles version overrun (inr (b, e)) =
    absurd (ground arith)

-- All handles are of the first one's server.
abbrev pub AreOfOneServer : ClientHandle → List ClientHandle → Type 0
AreOfOneServer first more = All (λ h. h.server_ipv4_address ≡ first.server_ipv4_address) more

same_server :
    (first : ClientHandle) (more : List ClientHandle)
    → AreOfOneServer first more
    → of_one_server first more ≡ true
unfolding of_one_server
same_server first [] v = refl
same_server first (h ∷ hs) (e, v) = ground (arith, same_server first hs v)

if_created : (t : Bool) (b : List ℕ) → Ends (if t then thrown else created b)
if_created true b = inl refl
if_created false b = inr (b, refl)

module _ ⦃o : ByteOrder⦄ (processors : Registry) (response : List ℕ) (version : ℕ)
    (hv : version < 2 ^ 16) (hl : length response + 131087 < 2 ^ 32) where
  local-Ends : Ends (construct_response_for_local_clients processors response version)
  unfolding construct_response_for_local_clients
  local-Ends = elim (Option-cases (processors version)) [
    | inl e ↦ inl (ground (arith, e))
    | inr (p, e) ↦
        rw (construct_local_lem processors response version p hv (omega arith) e) (if_created _ _)
  ]

  remote-Ends :
      (handles : List ClientHandle)
      → length handles ≤ max_handles_in_forwarded_response
      → All HasU64 handles
      → Ends (construct_response_for_remote_clients processors response handles version)
  unfolding construct_response_for_remote_clients
  remote-Ends handles h u64 = elim (Option-cases (processors special_communication)) [
    | inl e ↦ inl (ground (arith, e))
    | inr (p, e) ↦
        rw (construct_remote_lem processors response handles version p hv (omega (arith, h)) u64 e)
          (if_created _ _)
  ]

  make_response-Ends :
      (local_server : ℕ) (first : ClientHandle) (more : List ClientHandle) (update : Bool)
      → All HasU64 (first ∷ more)
      → Ends (make_response processors local_server response first more version update)
  unfolding make_response
  make_response-Ends local_server first more update u64 = by_length response local-Ends remote-Ends
    where
      by_length :
          (bytes : List ℕ)
          → Ends (construct_response_for_local_clients processors bytes version)
          → ((handles : List ClientHandle)
              → length handles ≤ max_handles_in_forwarded_response
              → All HasU64 handles
              → Ends (construct_response_for_remote_clients processors bytes handles version))
          → Ends (make_response processors local_server bytes first more version update)
      by_length [] l r = unfold make_response in inl refl
      by_length (b ∷ bs) l r =
          unfold make_response in
          elim (Bool-cases (local_server == first.server_ipv4_address)) [
            | inl same ↦ rw same (finish-Ends false update _ _ _ _ _ l)
            | inr other ↦
                elim (Bool-cases (ltb max_handles_in_forwarded_response (length (first ∷ more)))) [
                  | inl many ↦ inl (simp (other, many))
                  | inr few ↦
                      rw (other, few)
                        (finish-Ends true update _ _ _ _ _
                          (r (first ∷ more) (ground (arith, few)) u64))
                ]
          ]

  -- For handles of one server, with 64-bit registration numbers, a 16-bit version, and a response whose
  -- length with the most additional bytes fits 32 bits, the constructor of Response ends with a response
  -- or an exception: no assertion fails and no copy runs past the end of its buffer.
  pub new_response-Ends :
      (local_server : ℕ) (first : ClientHandle) (more : List ClientHandle) (update : Bool)
      → AreOfOneServer first more
      → All HasU64 (first ∷ more)
      → Ends (new_response processors local_server response first more version update)
  unfolding new_response
  new_response-Ends local_server first more update same u64 =
      rw (same_server first more same) (make_response-Ends local_server first more update u64)
