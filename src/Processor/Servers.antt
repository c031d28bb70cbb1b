-- ===== src/Processor/Servers.antt =====
-- Storing a message for the clients of every server: the loop over the map in `StoreMessage` of
-- Pulsar/src/RequestProcessor.cpp.
use pulsar_server_framework.Prelude.{
  ℕ, ◌+◌, ◌^◌, ◌≤◌, ◌<◌, ◌≡◌, ◌⊎◌, refl, ap, inl, inr, Bool-cases, List, [], ◌∷◌, ◌++◌, none, some,
  Bool, true, false, ◌||◌, ltb, ◌==◌, length, Option-cases, All, arith,
}
use pulsar_server_framework.ByteOrder.{ByteOrder}
use pulsar_server_framework.Handles.{ClientHandle}
use pulsar_server_framework.Protocol.Parser.{Registry, VersionParameters}
use pulsar_server_framework.Protocol.Response.Wire.{HasU64}
use pulsar_server_framework.Receiver.{get_version_parameters}
use pulsar_server_framework.Processor.{
  Stored, StoredMessage, MessageMemory, push_stored, ServerAndHandles, add_handle,
  servers_and_handles, store_for_servers, store_message,
}
use pulsar_server_framework.Processor.Splitting.{
  IsAt, IsSplit, create_response_and_add_to_queues-IsSplit,
}

-- Every handle stands under the address of its own server.
abbrev AreAt : List ServerAndHandles → Type 0
AreAt gs = All (λ g. All (IsAt g.server_address) g.handles) gs

All-end :
    (P : ClientHandle → Type 0) (hs : List ClientHandle) (h : ClientHandle)
    → All P hs
    → P h
    → All P (hs ++ h ∷ [])
All-end P [] h v p = (p, tt)
All-end P (x ∷ hs) h (v, vs) p = (v, All-end P hs h vs p)

add_handle-AreAt :
    (h : ClientHandle) (gs : List ServerAndHandles) → HasU64 h → AreAt gs → AreAt (add_handle h gs)
unfolding add_handle
add_handle-AreAt h [] u k = (((refl, u), tt), tt)
add_handle-AreAt h (g ∷ gs) u (v, k) =
    let here : (h.server_ipv4_address ≡ g.server_address)
        → AreAt (record g { handles = g.handles ++ h ∷ [] } ∷ gs) =
      λ e. (All-end (IsAt g.server_address) g.handles h v (e, u), k) in
    let new : AreAt (record { server_address = h.server_ipv4_address; handles = h ∷ [] } ∷ g ∷ gs) =
      (((refl, u), tt), (v, k)) in
    let later : AreAt (g ∷ add_handle h gs) = (v, add_handle-AreAt h gs u k) in ground arith

servers_and_handles-AreAt :
    (groups : List ServerAndHandles) (hs : List ClientHandle)
    → All HasU64 hs
    → AreAt groups
    → AreAt (servers_and_handles groups hs)
unfolding servers_and_handles
servers_and_handles-AreAt groups [] u k = k
servers_and_handles-AreAt groups (h ∷ hs) (u, us) k =
    servers_and_handles-AreAt (add_handle h groups) hs us (add_handle-AreAt h groups u k)

-- What is stored for each entry of the map is that entry's handles, split.
abbrev pub AreSplit : ℕ → List ServerAndHandles → List Stored → Type 0
AreSplit local_server [] [] = Unit
AreSplit local_server [] (s ∷ ss) = ⊥
AreSplit local_server (g ∷ gs) [] = ⊥
AreSplit local_server (g ∷ gs) (s ∷ ss) =
    IsSplit local_server g.server_address g.handles s × AreSplit local_server gs ss

-- Why a message is refused: no such version, no handle, no response, or one that is too long.
abbrev pub IsRefused : Registry → ℕ → List ℕ → List ClientHandle → Type 0
IsRefused processors version response hs =
    (get_version_parameters processors version ≡ none)
    ⊎ ((p : VersionParameters) × (get_version_parameters processors version ≡ some p)
        × ((length hs ≡ 0) ⊎ ((length response ≡ 0) ⊎ (p.max_response_size < length response))))

abbrev pub IsAllowed : Registry → ℕ → List ℕ → List ClientHandle → Type 0
IsAllowed processors version response hs =
    (p : VersionParameters) × (get_version_parameters processors version ≡ some p)
    × (0 < length hs)
    × (0 < length response)
    × (length response ≤ p.max_response_size)

decided :
    (h r m : ℕ)
    → (((h == 0) || ((r == 0) || ltb m r)) ≡ true) × ((h ≡ 0) ⊎ ((r ≡ 0) ⊎ (m < r)))
      ⊎ ((((h == 0) || ((r == 0) || ltb m r)) ≡ false) × (0 < h) × (0 < r) × (r ≤ m))
decided h r m = ground arith

-- The copy of some server's set met bad_alloc, and the handles of the servers before it are split.
abbrev pub IsStoredUntil : ℕ → MessageMemory → List ServerAndHandles → List Stored → Type 0
IsStoredUntil local_server memory gs ss =
    (before after : List ServerAndHandles) × (g : ServerAndHandles) × (before ++ g ∷ after ≡ gs)
    × (memory.copy_fails g.server_address ≡ true)
    × AreSplit local_server before ss

-- The handles of all servers are split; or StoreMessage met bad_alloc, in the map and then nothing is
-- stored, or at the copy of a server's set.
abbrev pub IsStored : ℕ → MessageMemory → List ServerAndHandles → StoredMessage → Type 0
IsStored local_server memory gs m =
    ((m.exception ≡ false) × (memory.map_fails ≡ false) × AreSplit local_server gs m.stored)
    ⊎ ((m.exception ≡ true)
        × (((memory.map_fails ≡ true) × (m.stored ≡ []))
            ⊎ IsStoredUntil local_server memory gs m.stored))

module _ ⦃o : ByteOrder⦄ (processors : Registry) (local_server : ℕ) (response : List ℕ)
    (version : ℕ) (update : Bool) (hv : version < 2 ^ 16) (hl : length response + 131087 < 2 ^ 32)
    (memory : MessageMemory) where
  store_for_servers-IsStored :
      (gs : List ServerAndHandles)
      → AreAt gs
      → (m : StoredMessage) × (store_for_servers processors local_server response version update
            memory gs
          ≡ some m)
        × (((m.exception ≡ false) × AreSplit local_server gs m.stored)
            ⊎ ((m.exception ≡ true) × IsStoredUntil local_server memory gs m.stored))
  unfolding store_for_servers push_stored
  store_for_servers-IsStored [] k =
      (record { stored = []; exception = false }, refl, inl (refl, tt))
  store_for_servers-IsStored (g ∷ gs) (v, k) =
      let (s, run, split) =
        create_response_and_add_to_queues-IsSplit processors local_server response version update hv
          hl (memory.allocation_fails g.server_address) g.server_address (length g.handles) 0
          g.handles (omega arith) v in
      let (m, runs, splits) = store_for_servers-IsStored gs k in
      elim (Bool-cases (memory.copy_fails g.server_address)) [
        | inl short ↦ (
          record { stored = []; exception = true },
          rw short refl,
          inr (refl, ([], gs, g, refl, short, tt)),
        )
        | inr lasts ↦ (
          push_stored s m,
          rw (lasts, run, runs) refl,
          elim splits [
            | inl (e, all) ↦ inl (e, (split, all))
            | inr (e, (before, after, h, whole, short, some_split)) ↦
                inr (e, (g ∷ before, after, h, ap (g ∷◌) whole, short, (split, some_split)))
          ],
        )
      ]

  -- The behaviour of StoreMessage when it refuses a message and when it stores it.
  pub store_message-IsStored :
      (hs : List ClientHandle)
      → All HasU64 hs
      → (m : StoredMessage) × (store_message processors local_server response version update memory
            hs
          ≡ some m)
        × ((IsRefused processors version response hs × (m.exception ≡ false) × (m.stored ≡ []))
            ⊎ (IsAllowed processors version response hs
                × IsStored local_server memory (servers_and_handles [] hs) m))
  unfolding store_message
  store_message-IsStored hs u =
      let (m, run, splits) =
        store_for_servers-IsStored (servers_and_handles [] hs)
          (servers_and_handles-AreAt [] hs u tt) in
      let nothing : StoredMessage = record { stored = []; exception = false } in
      elim (Option-cases (get_version_parameters processors version)) [
        | inl e ↦ (nothing, rw (e, store_message) refl, inl (inl e, refl, refl))
        | inr (p, e) ↦ elim (decided (length hs) (length response) p.max_response_size) [
          | inl (b, why) ↦
              (nothing, rw (e, store_message, b) refl, inl (inr (p, e, why), refl, refl))
          | inr (b, handles, more, short) ↦
              let allowed : IsAllowed processors version response hs =
                (p, e, handles, more, short) in
              elim (Bool-cases memory.map_fails) [
                | inl y ↦ (
                  record { stored = []; exception = true },
                  rw (e, store_message, b, y) refl,
                  inr (allowed, inr (refl, inl (y, refl))),
                )
                | inr n ↦ (
                  m,
                  simp (e, store_message, b, n) run,
                  elim splits [
                    | inl (f, all) ↦ inr (allowed, inl (f, n, all))
                    | inr (f, until) ↦ inr (allowed, inr (f, inr until))
                  ],
                )
              ]
        ]
      ]
