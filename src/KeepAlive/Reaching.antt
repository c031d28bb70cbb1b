-- ===== src/KeepAlive/Reaching.antt =====
-- Whom the keep-alive thread reaches: `send_keepalive_thread` of Pulsar/src/LocalClientsManager.cpp.
use pulsar_server_framework.Prelude.{
  ℕ, ◌≡◌, ◌⊎◌, ◌∙◌, refl, sym, subst, inl, inr, false, List, [], ◌∷◌, some, true, All, arith,
}
use mathlib.Core.List.{Perm}
use mathlib.Core.List.Perm
use pulsar_server_framework.ByteOrder.{ByteOrder}
use pulsar_server_framework.Client.{Client}
use pulsar_server_framework.Handles.{ClientHandle, ClientHandles, contains}
use pulsar_server_framework.Pool.{
  ClientType, versioned_client, versionless_client, get_idle_clients,
}
use pulsar_server_framework.Pool.Counts.{found_with, get_idle_clients-found}
use pulsar_server_framework.Pool.Idle.{get_idle_clients-All, found_with-get_idle_clients}
use pulsar_server_framework.Processor.{StoredMessage, MessageMemory}
use pulsar_server_framework.Processor.Servers.{IsRefused}
use pulsar_server_framework.Processor.EntryPoints.{default_version, chosen_version, send_response}
use pulsar_server_framework.Processor.Recipients.{
  recipients, recipients-nil, is_cut_short, send_response-recipients,
}
use pulsar_server_framework.Protocol.Constants.{
  special_communication, response_keep_alive, response_fatal_error,
}
use pulsar_server_framework.Protocol.Parser.{Registry}
use pulsar_server_framework.Protocol.Response.Wire.{HasU64}
use pulsar_server_framework.KeepAlive.{response_code, Kept, notify, send_keepalive_thread}

abbrev pub AreU64 : List Client → Type 0
AreU64 cs = All (λ c. HasU64 c.client_handle) cs

module _ ⦃o : ByteOrder⦄ (processors : Registry) (local_server : ℕ)
    (memory : ClientType → MessageMemory) where
  -- What the processor of the special version stores for these clients as its response, one byte.
  abbrev pub IsSent : ClientType → ℕ → ClientHandles → StoredMessage → Type 0
  IsSent type code hs m =
      ((hs ≡ []) × (m ≡ record { stored = []; exception = false }))
      ⊎ (send_response processors local_server special_communication (memory type) hs (code ∷ [])
            default_version
          ≡ some m)

  -- That response was refused, or an exception was met, or it was stored for precisely these clients,
  -- each once.
  abbrev pub IsStoredFor : ℕ → ClientHandles → StoredMessage → Type 0
  IsStoredFor code hs m =
      (IsRefused processors (chosen_version special_communication default_version) (code ∷ []) hs
        × (m.exception ≡ false)
        × (m.stored ≡ []))
      ⊎ ((is_cut_short m ≡ true) ⊎ Perm (recipients m.stored) hs)

  notify-IsStoredFor :
      (type : ClientType) (hs : ClientHandles)
      → All HasU64 hs
      → (m : StoredMessage) × (notify processors local_server memory type hs ≡ some m)
        × IsSent type (response_code type) hs m
        × IsStoredFor (response_code type) hs m
  unfolding notify
  notify-IsStoredFor type [] u = (
    record { stored = []; exception = false },
    refl,
    inl (refl, refl),
    inr (inr (subst (λ rs. Perm rs []) (sym recipients-nil) Perm.rfl)),
  )
  notify-IsStoredFor type (h ∷ hs) u =
      let (m, ran, stored) =
        send_response-recipients processors local_server special_communication (memory type)
          (h ∷ hs) (response_code type ∷ []) default_version (omega arith) (omega arith)
          (omega arith) u in
      (m, ground (arith, ran), inr ran, stored)

  -- For clients whose numbers are unsigned 64-bit integers, the keep-alive thread ends, and nothing is
  -- written past a buffer. There are two sets of handles: those of precisely the clients of the pool,
  -- with a version and without, that have nothing pending and were not active for the keep-alive
  -- period. What is stored for the first is the response of the one byte RESPONSE_KEEP_ALIVE, and for
  -- the second RESPONSE_FATAL_ERROR, sent in the special version; nothing for an empty set. Each of the
  -- two is refused, or meets an exception, or is stored for the handles of its set, each once.
  pub send_keepalive_thread-reaches :
      (keep_alive now : ℕ) (cs : List Client) (h : ClientHandle)
      → AreU64 cs
      → (k : Kept) × (versioned : ClientHandles) × (versionless : ClientHandles)
        × (send_keepalive_thread processors local_server memory keep_alive now cs ≡ some k)
        × IsSent versioned_client response_keep_alive versioned k.keep_alives
        × IsSent versionless_client response_fatal_error versionless k.fatal_errors
        × IsStoredFor response_keep_alive versioned k.keep_alives
        × IsStoredFor response_fatal_error versionless k.fatal_errors
        × (contains h versioned ≡ found_with h keep_alive now versioned_client cs)
        × (contains h versionless ≡ found_with h keep_alive now versionless_client cs)
  unfolding send_keepalive_thread response_code
  send_keepalive_thread-reaches keep_alive now cs h u =
      let first = get_idle_clients keep_alive now versioned_client cs [] in
      let second = get_idle_clients keep_alive now versionless_client first.0 [] in
      let (u1, v1) = get_idle_clients-All HasU64 keep_alive now versioned_client cs [] u tt in
      let (_, v2) =
        get_idle_clients-All HasU64 keep_alive now versionless_client first.0 [] u1 tt in
      let (kept, ran1, sent1, stored1) = notify-IsStoredFor versioned_client first.1 v1 in
      let (fatal, ran2, sent2, stored2) = notify-IsStoredFor versionless_client second.1 v2 in
      (
        record { clients = second.0; keep_alives = kept; fatal_errors = fatal },
        first.1,
        second.1,
        simp (ran1, ran2),
        sent1,
        sent2,
        stored1,
        stored2,
        get_idle_clients-found h keep_alive now versioned_client cs,
        get_idle_clients-found h keep_alive now versionless_client first.0
            ∙ found_with-get_idle_clients h keep_alive now cs [],
      )
