-- ===== src/Pool/Counts.antt =====
-- The counts of requests and responses, Pulsar/src/ClientsPool.cpp.
use pulsar_server_framework.Prelude.{
  ℕ, ◌≡◌, refl, ◌∙◌, inl, inr, List, [], ◌∷◌, some, Bool, true, false, not, ◌&&◌, ◌||◌,
  if◌then◌else◌, arith, Bool-cases,
}
use pulsar_server_framework.Handles.{ClientHandle, ClientHandles, insert, contains, equal}
use pulsar_server_framework.Handles.Order.{contains-insert}
use pulsar_server_framework.Client.{Client}
use pulsar_server_framework.Pool.{
  Count, request_count, response_count, remove_client, counted_up, increase_count_for_client,
  decrease_count_for_client, ClientType, is_idle, client_type, same_type, get_idle_clients,
}

-- A client leaves the pool only with no request and no response pending, and then no count can be
-- raised for it any more, under any handle.
pub remove_client-closes :
    (c : Client) (h : ClientHandle) (which : Count) (now : ℕ)
    → (remove_client c).1 ≡ true
    → (c.requests ≡ 0)
      × (c.responses ≡ 0)
      × (increase_count_for_client h which now (remove_client c).0
          ≡ some ((remove_client c).0, false))
unfolding remove_client increase_count_for_client
remove_client-closes c h which now r = ground arith

-- Raising a count and lowering it again leaves both counts as they were, and the lowering never fails;
-- raising succeeds exactly for a client of the pool that is not marked, under its own handle.
pub increase-decrease :
    (c : Client) (which : Count) (now later : ℕ)
    → (increase_count_for_client c.client_handle which now c
        ≡ some (
            if c.in_pool && not c.to_be_disconnected
            then (counted_up which now c, true)
            else (c, false)))
      × (decrease_count_for_client which later (counted_up which now c)
          ≡ some (record c { last_activity_time = later }))
unfolding increase_count_for_client decrease_count_for_client counted_up
increase-decrease c request_count now later = (ground arith, ground arith)
increase-decrease c response_count now later = (ground arith, ground arith)

-- The wait is over for a client of the pool of the type that is asked for.
abbrev pub found_idle : ℕ → ℕ → ClientType → Client → Bool
found_idle keep_alive now type c =
    c.in_pool && (is_idle keep_alive now c && same_type (client_type c) type)

-- A client that the search finds has the handle `h`.
unfoldable pub found_with : ClientHandle → ℕ → ℕ → ClientType → List Client → Bool
found_with h keep_alive now type [] = false
found_with h keep_alive now type (c ∷ cs) =
    (found_idle keep_alive now type c && equal h c.client_handle)
    || found_with h keep_alive now type cs

collected_idle :
    (h : ClientHandle) (keep_alive now : ℕ) (type : ClientType) (cs : List Client)
    (handles : ClientHandles)
    → contains h (get_idle_clients keep_alive now type cs handles).1
      ≡ (found_with h keep_alive now type cs || contains h handles)
unfolding get_idle_clients found_with
collected_idle h keep_alive now type [] handles = refl
collected_idle h keep_alive now type (c ∷ cs) handles =
    elim (Bool-cases (found_idle keep_alive now type c)) [
      | inl found ↦
          rw
            (
              found,
              collected_idle h keep_alive now type cs (insert c.client_handle handles),
              contains-insert h c.client_handle handles,
            )
            (ground arith)
      | inr other ↦ rw (other, collected_idle h keep_alive now type cs handles)
    ]

-- GetIdleClients returns the handles of exactly the clients of the pool of the type asked for that
-- have nothing pending and were not active for the keep-alive period.
pub get_idle_clients-found :
    (h : ClientHandle) (keep_alive now : ℕ) (type : ClientType) (cs : List Client)
    → contains h (get_idle_clients keep_alive now type cs []).1
      ≡ found_with h keep_alive now type cs
unfolding contains
get_idle_clients-found h keep_alive now type cs =
    collected_idle h keep_alive now type cs [] ∙ ground arith
