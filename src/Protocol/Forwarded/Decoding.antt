-- ===== src/Protocol/Forwarded/Decoding.antt =====
-- What `ProcessRequest` of Pulsar/src/RequestProcessor_ForwardedResponses.cpp decodes, on any bytes
-- and on those that a peer server sends.
use pulsar_server_framework.Prelude.{
  ℕ, zero, suc, ◌+◌, ◌*◌, ◌%◌, ◌^◌, ◌<◌, ◌≡◌, refl, ap, ◌∙◌, inl, inr, List, [], ◌∷◌, ◌++◌, none,
  some, Bool, true, false, ◌||◌, ltb, leb, if◌then◌else◌, length, length-append, drop, drop-append,
  All, arith, Bool-cases, ◌==◌, le→ltb,
}
use mathlib.Core.List.{append_assoc}
use pulsar_server_framework.ByteOrder.{ByteOrder, be16, be32, be64}
use pulsar_server_framework.Handles.{ClientHandle, ClientHandles, insert, contains, equal}
use pulsar_server_framework.Handles.Order.{contains-insert}
use pulsar_server_framework.Protocol.Constants.{
  version_bytes, handle_bytes, registration_bytes, special_communication, response_acknowledgement,
}
use pulsar_server_framework.Protocol.Reader.{
  read32, read16-lt, read32-lt, read64-lt, read64-append, read16-be16, read32-be32, read64-be64,
}
use pulsar_server_framework.Protocol.Response.Wire.{
  be_handles, forwarded_body, HasU64, length-be_handles,
}
use pulsar_server_framework.Protocol.Forwarded.{
  Processed, Collected, collect_handles, after_collecting, process_request,
}

module _ ⦃o : ByteOrder⦄ where
  -- The loop reads no byte past the request, whatever number of handles it announces.
  collect_handles-total :
      (left : ℕ) (b : List ℕ) (server index : ℕ) (acc : ClientHandles)
      → (c : Collected) × (collect_handles left b server index acc ≡ some c)
  unfolding collect_handles
  collect_handles-total zero b server index acc = (some (acc, index), refl)
  collect_handles-total (suc left) b server index acc =
      elim (Bool-cases (leb (length b) (index + registration_bytes))) [
        | inl short ↦ (none, rw short)
        | inr room ↦
            let (number, e) = read64-lt b index (ground arith) in
            let (c, f) = collect_handles-total left b server (index + registration_bytes) (
              insert (record { client_registration_number = number; server_ipv4_address = server })
                acc) in
            (c, rw (room, e) f)
      ]

  -- `ProcessRequest` ends on any bytes and reads none past them, also where the number of handles makes
  -- the minimum length wrap around.
  pub process_request-total :
      (b : List ℕ) (sender : ClientHandle) → (p : Processed) × (process_request b sender ≡ some p)
  unfolding process_request
  process_request-total b sender =
      elim (Bool-cases (ltb (length b) (version_bytes + handle_bytes))) [
        | inl short ↦ (record { result = false; streaming = true; sendings = [] }, rw short)
        | inr long ↦
            let (version, e) = read16-lt b 0 (ground arith) in
            let (count, f) = read32-lt b version_bytes (ground arith) in
            let (c, g) =
              collect_handles-total count b sender.server_ipv4_address
                (version_bytes + handle_bytes) [] in
            (
              if ltb (length b)
                    ((version_bytes + handle_bytes + count * registration_bytes + 1) % 2 ^ 32)
                  then record { result = false; streaming = true; sendings = [] }
                  else after_collecting b sender version c,
              rw (long, e, f, g) (ground arith),
            )
      ]

-- The handles that a peer's handles stand for here: the same numbers, at this server.
abbrev pub localised : ℕ → List ClientHandle → ClientHandles → ClientHandles
localised server [] acc = acc
localised server (h ∷ hs) acc =
    localised server hs (insert (record h { server_ipv4_address = server }) acc)

lt→leb : (a b : ℕ) → b < a → leb a b ≡ false
lt→leb a b h = ground arith

module _ ⦃o : ByteOrder⦄ where
  -- One round on a number in network order that is not the end of the request.
  collect_one :
      (left x : ℕ) (front rest : List ℕ) (server index : ℕ) (acc : ClientHandles)
      → index ≡ length front
      → 0 < length rest
      → x < 2 ^ 64
      → collect_handles (suc left) (front ++ (be64 x ++ rest)) server index acc
        ≡ collect_handles left
            (front ++ (be64 x ++ rest))
            server
            (index + registration_bytes)
            (insert (record { client_registration_number = x; server_ipv4_address = server }) acc)
  unfolding collect_handles
  collect_one left x front rest server index acc e pos u =
      rw (room, read64-append front (be64 x ++ rest) index e, read64-be64 x rest u)
    where
      room : leb (length (front ++ (be64 x ++ rest))) (index + registration_bytes) ≡ false
      room = lt→leb _ _ (omega (arith, length-append front (be64 x ++ rest)))

  collect_handles-be :
      (hs : List ClientHandle) (front response : List ℕ) (server index : ℕ) (acc : ClientHandles)
      → index ≡ length front
      → 0 < length response
      → All HasU64 hs
      → collect_handles (length hs) (front ++ (be_handles hs ++ response)) server index acc
        ≡ some (some (localised server hs acc, index + length hs * registration_bytes))
  collect_handles-be [] front response server index acc e pos u =
      unfold collect_handles in ground arith
  collect_handles-be (h ∷ hs) front response server index acc e pos (u, us) =
      let x = h.client_registration_number in
      let rest : List ℕ = be_handles hs ++ response in
      let acc' : ClientHandles = insert (record h { server_ipv4_address = server }) acc in
      collect_one (length hs) x front rest server index acc e
        (omega (arith, length-append (be_handles hs) response)) u
      ∙ rw (← append_assoc front (be64 x) rest) (
          collect_handles-be hs (front ++ be64 x) response server (index + registration_bytes) acc'
            (omega (arith, length-append front (be64 x))) pos us
          ∙ ap (λ (i : ℕ). some (some (localised server hs acc', i))) (omega arith))

  -- The first six bytes and the handles are read back as they were written.
  pub process_request-forwarded_body :
      (version : ℕ) (handles : List ClientHandle) (response : List ℕ) (sender : ClientHandle)
      → version < 2 ^ 16
      → length handles * 8 + 7 < 2 ^ 32
      → All HasU64 handles
      → 0 < length response
      → process_request (forwarded_body version handles response) sender
        ≡ some (record {
          result = true;
          streaming = true;
          sendings =
              record {
                clienthandles = localised sender.server_ipv4_address handles [];
                response = response;
                version = version;
              }
              ∷ record {
                clienthandles = sender ∷ [];
                response = response_acknowledgement ∷ [];
                version = special_communication;
              }
              ∷ [];
        })
  unfolding process_request after_collecting insert
  process_request-forwarded_body version handles response sender hv hc u64 pos =
      rw (long, read16-be16 version _ hv, count, collected, enough, rest) refl
    where
      after : List ℕ
      after = be_handles handles ++ response

      whole : length (be_handles handles ++ response) ≡ length handles * 8 + length response
      whole = omega (arith, length-append (be_handles handles) response, length-be_handles handles)

      long : ltb (length (forwarded_body version handles response)) 6 ≡ false
      long = le→ltb _ _ (omega arith)

      count : read32 (forwarded_body version handles response) version_bytes ≡ some (length handles)
      count =
          unfold read32 in
          read32-be32 (length handles) (be_handles handles ++ response) (omega arith)

      collected :
          collect_handles
            (length handles)
            (forwarded_body version handles response)
            sender.server_ipv4_address
            6
            []
          ≡ some (
              some (
                localised sender.server_ipv4_address handles [],
                6 + length handles * registration_bytes,
              ))
      collected =
          collect_handles-be handles (be16 version ++ be32 (length handles)) response
            sender.server_ipv4_address 6 [] (omega arith) pos u64

      enough :
          ltb
            (length (forwarded_body version handles response))
            ((version_bytes + handle_bytes + length handles * registration_bytes + 1) % 2 ^ 32)
          ≡ false
      enough = le→ltb _ _ (omega (arith, whole))

      rest :
          drop (6 + length handles * registration_bytes) (forwarded_body version handles response)
          ≡ response
      rest =
          drop-append _ (be16 version ++ (be32 (length handles) ++ be_handles handles)) response
            (omega (arith, length-be_handles handles))

-- The set of local handles holds a handle exactly if it is of this server and its number is one of
-- those that the peer's handles have.
pub has_number : ℕ → List ClientHandle → Bool
has_number n [] = false
has_number n (h ∷ hs) = h.client_registration_number == n || has_number n hs

pub contains-localised :
    (g : ClientHandle) (server : ℕ) (hs : List ClientHandle) (acc : ClientHandles)
    → g.server_ipv4_address ≡ server
    → contains g (localised server hs acc)
      ≡ (has_number g.client_registration_number hs || contains g acc)
unfolding has_number equal
contains-localised g server [] acc e = refl
contains-localised g server (h ∷ hs) acc e =
    let h' : ClientHandle = record h { server_ipv4_address = server } in
    contains-localised g server hs (insert h' acc) e ∙ rw (contains-insert g h' acc) (ground arith)
