-- ===== src/Pool/Idle.antt =====
-- What `GetIdleClients` of Pulsar/src/ClientsPool.cpp leaves of the clients, and the handles it returns.
use pulsar_server_framework.Prelude.{
  ℕ, ◌≡◌, refl, List, [], ◌∷◌, true, false, All, Bool-cases, arith, inl, inr,
}
use pulsar_server_framework.Client.{Client}
use pulsar_server_framework.Handles.{ClientHandle, ClientHandles, insert}
use pulsar_server_framework.Pool.{
  ClientType, versioned_client, versionless_client, client_type, same_type, get_idle_clients,
}
use pulsar_server_framework.Pool.Counts.{found_idle, found_with}

insert-All :
    (P : ClientHandle → Type 0) (h : ClientHandle) (hs : ClientHandles)
    → P h
    → All P hs
    → All P (insert h hs)
unfolding insert
insert-All P h [] u v = (u, tt)
insert-All P h (x ∷ xs) u (v, vs) = ground (arith, insert-All P h xs u vs)

-- The handles that are returned are those of clients, and the clients keep theirs.
pub get_idle_clients-All :
    (P : ClientHandle → Type 0) (keep_alive now : ℕ) (type : ClientType) (cs : List Client)
    (handles : ClientHandles)
    → All (λ c. P c.client_handle) cs
    → All P handles
    → All (λ c. P c.client_handle) (get_idle_clients keep_alive now type cs handles).0
      × All P (get_idle_clients keep_alive now type cs handles).1
unfolding get_idle_clients
get_idle_clients-All P keep_alive now type [] handles u v = (tt, v)
get_idle_clients-All P keep_alive now type (c ∷ cs) handles (u, us) v =
    elim (Bool-cases (found_idle keep_alive now type c)) [
      | inl found ↦
          let (rest, hs) =
            get_idle_clients-All P keep_alive now type cs (insert c.client_handle handles) us
              (insert-All P c.client_handle handles u v) in
          simp found ((u, rest), hs)
      | inr other ↦
          let (rest, hs) = get_idle_clients-All P keep_alive now type cs handles us v in
          simp other ((u, rest), hs)
    ]

-- A client that is found has a version, so that it is not found without one, before or after.
other_type :
    (keep_alive now : ℕ) (c : Client)
    → found_idle keep_alive now versioned_client c ≡ true
    → (found_idle keep_alive now versionless_client (record c { last_activity_time = now }) ≡ false)
      × (found_idle keep_alive now versionless_client c ≡ false)
unfolding client_type same_type
other_type keep_alive now c h = ground arith

-- The search for clients with a version leaves those without one as they are.
pub found_with-get_idle_clients :
    (h : ClientHandle) (keep_alive now : ℕ) (cs : List Client) (handles : ClientHandles)
    → found_with h keep_alive now versionless_client
        (get_idle_clients keep_alive now versioned_client cs handles).0
      ≡ found_with h keep_alive now versionless_client cs
unfolding get_idle_clients found_with
found_with-get_idle_clients h keep_alive now [] handles = refl
found_with-get_idle_clients h keep_alive now (c ∷ cs) handles =
    elim (Bool-cases (found_idle keep_alive now versioned_client c)) [
      | inl found ↦
          let (after, before) = other_type keep_alive now c found in
          simp (
            found,
            after,
            before,
            found_with-get_idle_clients h keep_alive now cs (insert c.client_handle handles),
          )
      | inr other ↦ simp (other, found_with-get_idle_clients h keep_alive now cs handles)
    ]
