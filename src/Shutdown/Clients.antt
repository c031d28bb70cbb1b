-- ===== src/Shutdown/Clients.antt =====
-- What the shutdown does to the clients: `InitiateServerShutdown` of
-- Pulsar/src/LocalClientsManager.cpp, and `AddClient` of Pulsar/src/ClientsPool.cpp after it.
use pulsar_server_framework.Prelude.{
  ℕ, ◌+◌, ◌≡◌, refl, sym, subst, ap, ◌⊎◌, ◌&&◌, ◌∙◌, inl, inr, List, [], ◌∷◌, Bool, true, false,
  All, arith, Bool-cases,
}
use pulsar_server_framework.Client.{Client, Server}
use pulsar_server_framework.Handles.{ClientHandle}
use pulsar_server_framework.Lifecycle.{
  Disconnected, mark_to_disconnect, queue_disconnection, try_to_remove, disconnect_and_delete,
}
use pulsar_server_framework.Lifecycle.Disconnection.{
  IsConsistent, IsSafeDisconnection, disconnect_and_delete-IsSafe,
}
use pulsar_server_framework.Pool.{add_client}
use pulsar_server_framework.Shutdown.{
  is_listed, count_forgotten, get_clients, disconnect_listed, disconnect_all_clients, Initiated,
  initiate_server_shutdown,
}

abbrev pub one_if_initiated : Bool → ℕ
one_if_initiated true = 1
one_if_initiated false = 0

-- The clients whose disconnection was queued.
abbrev pub initiated_count : List Client → ℕ
initiated_count [] = 0
initiated_count (c ∷ cs) = one_if_initiated c.disconnect_initiated + initiated_count cs

-- How many clients of the pool are left out of the vector.
abbrev pub forgotten_count : (ClientHandle → Bool) → List Client → ℕ
forgotten_count forgets [] = 0
forgotten_count forgets (c ∷ cs) =
    one_if_initiated (c.in_pool && forgets c.client_handle) + forgotten_count forgets cs

-- A client during the shutdown: consistent; and if the pool still has it, marked or left out.
pub record IsLeaving (forgets : ClientHandle → Bool) (c : Client) : Type 0 where
  pub consistent : IsConsistent c
  pub marked :
      (c.in_pool ≡ false) ⊎ ((c.to_be_disconnected ≡ true) ⊎ (forgets c.client_handle ≡ true))

-- What DisconnectAllClients leaves.
record IsDisconnected (forgets : ClientHandle → Bool) (s : Server) (cs : List Client) (s' : Server)
    (cs' : List Client) : Type 0 where
  leaving : All (IsLeaving forgets) cs'
  queued_once :
      s'.queued_disconnections + initiated_count cs ≡ s.queued_disconnections + initiated_count cs'
  still_down : s'.is_server_shutting_down ≡ s.is_server_shutting_down
  exceptions : s'.stat.memory_allocation_exceptions ≡ s.stat.memory_allocation_exceptions

keeps_flag :
    (s : Server) (c : Client)
    → ((disconnect_and_delete true s c).server.is_server_shutting_down ≡ s.is_server_shutting_down)
      × ((disconnect_and_delete true s c).server.stat.memory_allocation_exceptions
          ≡ s.stat.memory_allocation_exceptions)
unfolding disconnect_and_delete try_to_remove queue_disconnection mark_to_disconnect
keeps_flag s c = ground arith

one_more :
    (s : Server) (c : Client) (d : Disconnected)
    → IsSafeDisconnection s c d
    → d.server.queued_disconnections + one_if_initiated c.disconnect_initiated
      ≡ s.queued_disconnections + one_if_initiated d.client.disconnect_initiated
one_more s c d h = elim (Bool-cases d.result) [
  | inl y ↦ let (e1, e2, e3) = h.queued_once y in rw (e1, e2, e3) (omega arith)
  | inr n ↦ let (e1, e2) = h.kept n in rw (e1, e2) refl
]

-- A client in the vector, and one that is not.
listed_lem :
    (forgets : ClientHandle → Bool) (s : Server) (c : Client) (cs : List Client)
    → is_listed forgets c ≡ true
    → disconnect_listed forgets s (c ∷ cs) ≡ (
      (disconnect_listed forgets (disconnect_and_delete true s c).server cs).0,
      (disconnect_and_delete true s c).client
          ∷ (disconnect_listed forgets (disconnect_and_delete true s c).server cs).1,
      true,
    )
unfolding disconnect_listed
listed_lem forgets s c cs listed = rw listed refl

unlisted_lem :
    (forgets : ClientHandle → Bool) (s : Server) (c : Client) (cs : List Client)
    → is_listed forgets c ≡ false
    → disconnect_listed forgets s (c ∷ cs) ≡ (
      (disconnect_listed forgets s cs).0,
      c ∷ (disconnect_listed forgets s cs).1,
      (disconnect_listed forgets s cs).2,
    )
unfolding disconnect_listed
unlisted_lem forgets s c cs unlisted = rw unlisted refl

listed-in_pool :
    (forgets : ClientHandle → Bool) (c : Client) → is_listed forgets c ≡ true → c.in_pool ≡ true
unfolding is_listed
listed-in_pool forgets c e = ground arith

unlisted-left :
    (forgets : ClientHandle → Bool) (c : Client)
    → is_listed forgets c ≡ false
    → (c.in_pool ≡ false) ⊎ ((c.to_be_disconnected ≡ true) ⊎ (forgets c.client_handle ≡ true))
unfolding is_listed
unlisted-left forgets c e = ground arith

disconnect_listed-IsDisconnected :
    (forgets : ClientHandle → Bool) (s : Server) (cs : List Client)
    → All IsConsistent cs
    → IsDisconnected forgets s cs
        (disconnect_listed forgets s cs).0
        (disconnect_listed forgets s cs).1
disconnect_listed-IsDisconnected forgets s [] v =
    unfold disconnect_listed in
    record { leaving = tt; queued_once = refl; still_down = refl; exceptions = refl }
disconnect_listed-IsDisconnected forgets s (c ∷ cs) (v, vs) =
    elim (Bool-cases (is_listed forgets c)) [
      | inl listed ↦
          let d = disconnect_and_delete true s c in
          let inside = listed-in_pool forgets c listed in
          let h = disconnect_and_delete-IsSafe true s c v (v.accepted inside) in
          let k = disconnect_listed-IsDisconnected forgets d.server cs vs in
          subst (λ (x : Server × List Client × Bool). IsDisconnected forgets s (c ∷ cs) x.0 x.1)
            (sym (listed_lem forgets s c cs listed))
            (record {
              leaving =
                  (record { consistent = h.consistent; marked = inr (inl h.marked) }, k.leaving);
              queued_once = omega (arith, k.queued_once, one_more s c d h);
              still_down = k.still_down ∙ (keeps_flag s c).0;
              exceptions = k.exceptions ∙ (keeps_flag s c).1;
            })
      | inr unlisted ↦
          let k = disconnect_listed-IsDisconnected forgets s cs vs in
          subst (λ (x : Server × List Client × Bool). IsDisconnected forgets s (c ∷ cs) x.0 x.1)
            (sym (unlisted_lem forgets s c cs unlisted))
            (record {
              leaving =
                  (record { consistent = v; marked = unlisted-left forgets c unlisted }, k.leaving);
              queued_once = omega (arith, k.queued_once);
              still_down = k.still_down;
              exceptions = k.exceptions;
            })
    ]

count_forgotten_lem :
    (b : Bool) (s : Server)
    → ((count_forgotten b s).queued_disconnections ≡ s.queued_disconnections)
      × ((count_forgotten b s).is_server_shutting_down ≡ s.is_server_shutting_down)
      × ((count_forgotten b s).stat.memory_allocation_exceptions
          ≡ s.stat.memory_allocation_exceptions + one_if_initiated b)
unfolding count_forgotten
count_forgotten_lem false s = (refl, refl, omega arith)
count_forgotten_lem true s = (refl, refl, refl)

get_clients_lem :
    (forgets : ClientHandle → Bool) (s : Server) (cs : List Client)
    → ((get_clients forgets s cs).queued_disconnections ≡ s.queued_disconnections)
      × ((get_clients forgets s cs).is_server_shutting_down ≡ s.is_server_shutting_down)
      × ((get_clients forgets s cs).stat.memory_allocation_exceptions
          ≡ s.stat.memory_allocation_exceptions + forgotten_count forgets cs)
unfolding get_clients
get_clients_lem forgets s [] = (refl, refl, omega arith)
get_clients_lem forgets s (c ∷ cs) =
    let b = c.in_pool && forgets c.client_handle in
    let (e1, e2, e3) = get_clients_lem forgets (count_forgotten b s) cs in
    let (f1, f2, f3) = count_forgotten_lem b s in (e1 ∙ f1, e2 ∙ f2, omega (arith, e3, f3))

-- What InitiateServerShutdown leaves.
pub record IsShuttingDown (forgets : ClientHandle → Bool) (s : Server) (cs : List Client)
    (i : Initiated) : Type 0 where
  pub leaving : All (IsLeaving forgets) i.clients
  -- As many disconnections are queued as clients were newly given to disconnection.
  pub queued_once :
      i.server.queued_disconnections + initiated_count cs
      ≡ s.queued_disconnections + initiated_count i.clients
  -- A memory exception was counted for each client that was left out.
  pub exceptions :
      i.server.stat.memory_allocation_exceptions
      ≡ s.stat.memory_allocation_exceptions + forgotten_count forgets cs
  -- No client can be added.
  pub refuses : (no_memory : Bool) (c : Client) → add_client i.server no_memory c ≡ (c, false)

refused :
    (s : Server) (no_memory : Bool) (c : Client)
    → s.is_server_shutting_down ≡ true
    → add_client s no_memory c ≡ (c, false)
unfolding add_client
refused s no_memory c down = rw down refl

-- For consistent clients, InitiateServerShutdown leaves every client consistent. Each that the pool
-- still has is marked, or else was left out by GetClients because memory for its vector was short, and
-- a memory exception is counted for each of the pool that was left out. One disconnection is queued for
-- each client that is newly given to disconnection, and from then on no client can be added.
pub initiate_server_shutdown-IsShuttingDown :
    (forgets : ClientHandle → Bool) (shutdown_initiated : Bool) (s : Server) (cs : List Client)
    → All IsConsistent cs
    → IsShuttingDown forgets s cs (initiate_server_shutdown forgets shutdown_initiated s cs)
unfolding initiate_server_shutdown disconnect_all_clients
initiate_server_shutdown-IsShuttingDown forgets shutdown_initiated s cs v =
    let s0 : Server = record s { is_server_shutting_down = true } in
    let s1 = get_clients forgets s0 cs in
    let (e1, e2, e3) = get_clients_lem forgets s0 cs in
    let k = disconnect_listed-IsDisconnected forgets s1 cs v in
    let d = disconnect_listed forgets s1 cs in
    let once : d.0.queued_disconnections + initiated_count cs
        ≡ s.queued_disconnections + initiated_count d.1 =
      k.queued_once ∙ ap (λ n. n + initiated_count d.1) e1 in
    elim (Bool-cases d.2) [
      | inl y ↦ rw y (record {
        leaving = k.leaving;
        queued_once = once;
        exceptions = k.exceptions ∙ e3;
        refuses = λ no_memory c. refused d.0 no_memory c (k.still_down ∙ e2);
      })
      | inr n ↦ rw n (record {
        leaving = k.leaving;
        queued_once = once;
        exceptions = k.exceptions ∙ e3;
        refuses = λ no_memory c.
            refused (record (d.0) { all_clients_disconnected_for_shutdown = true }) no_memory c
              (k.still_down ∙ e2);
      })
    ]
