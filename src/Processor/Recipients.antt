-- ===== src/Processor/Recipients.antt =====
-- For whom a message is stored: `SendResponse` and `StoreMessage` of Pulsar/src/RequestProcessor.cpp,
-- seen as a multicast to a bag of clients.
use pulsar_server_framework.Prelude.{
  ℕ, ◌+◌, ◌^◌, ◌<◌, ◌≡◌, ◌⊎◌, ◌∙◌, refl, sym, ap, subst, inl, inr, List, [], ◌∷◌, ◌++◌, some, Bool,
  true, false, ◌||◌, ltb, ◌==◌, length, All, Bool-cases, arith,
}
use mathlib.Core.List.{Perm, perm_middle, append_assoc, append-nil}
use mathlib.Core.List.Perm
use pulsar_server_framework.ByteOrder.{ByteOrder}
use pulsar_server_framework.Handles.{ClientHandle, ClientHandles}
use pulsar_server_framework.Protocol.Parser.{Registry}
use pulsar_server_framework.Protocol.Response.Wire.{HasU64}
use pulsar_server_framework.Processor.{
  Stored, StoredMessage, MessageMemory, ServerAndHandles, add_handle, servers_and_handles,
}
use pulsar_server_framework.Processor.Splitting.{ranges}
use pulsar_server_framework.Processor.Servers.{IsRefused, AreSplit, IsStored}
use pulsar_server_framework.Processor.EntryPoints.{
  chosen_version, send_response, send_response-IsStored,
}

-- The clients for whom responses were made, server by server.
pub recipients : List Stored → List ClientHandle
recipients [] = []
recipients (s ∷ ss) = ranges s.queued ++ recipients ss

pub recipients-nil : recipients [] ≡ []
unfolding recipients
recipients-nil = refl

-- An exception ended the loop for some server.
pub has_exception : List Stored → Bool
has_exception [] = false
has_exception (s ∷ ss) = s.exception || has_exception ss

-- All handles of the map.
all_handles : List ServerAndHandles → List ClientHandle
all_handles [] = []
all_handles (g ∷ gs) = g.handles ++ all_handles gs

add_handle-perm :
    (h : ClientHandle) (gs : List ServerAndHandles)
    → Perm (all_handles (add_handle h gs)) (h ∷ all_handles gs)
unfolding add_handle all_handles
add_handle-perm h [] = Perm.rfl
add_handle-perm h (g ∷ gs) = elim (Bool-cases (h.server_ipv4_address == g.server_address)) [
  | inl same ↦ simp same (
      rw (append_assoc g.handles (h ∷ []) (all_handles gs))
        (perm_middle g.handles (all_handles gs)))
  | inr other ↦ elim (Bool-cases (ltb h.server_ipv4_address g.server_address)) [
    | inl before ↦ simp (other, before) Perm.rfl
    | inr behind ↦
        simp (other, behind)
          (Perm.trans (Perm.append_left g.handles (add_handle-perm h gs))
            (perm_middle g.handles (all_handles gs)))
  ]
]

servers_and_handles-perm :
    (groups : List ServerAndHandles) (hs : List ClientHandle)
    → Perm (all_handles (servers_and_handles groups hs)) (all_handles groups ++ hs)
unfolding servers_and_handles
servers_and_handles-perm groups [] = rw (append-nil (all_handles groups)) Perm.rfl
servers_and_handles-perm groups (h ∷ hs) =
    Perm.trans (servers_and_handles-perm (add_handle h groups) hs) (
      Perm.trans (Perm.append_right hs (add_handle-perm h groups))
        (Perm.symm (perm_middle (all_handles groups) hs)))

from_nothing : (hs : List ClientHandle) → Perm (all_handles (servers_and_handles [] hs)) hs
unfolding all_handles
from_nothing hs = servers_and_handles-perm [] hs

recipients_lem :
    (local_server : ℕ) (gs : List ServerAndHandles) (ss : List Stored)
    → AreSplit local_server gs ss
    → (has_exception ss ≡ true) ⊎ (recipients ss ≡ all_handles gs)
unfolding recipients has_exception all_handles
recipients_lem local_server [] [] v = inr refl
recipients_lem local_server [] (s ∷ ss) v = elim v [ ]
recipients_lem local_server (g ∷ gs) [] v = elim v [ ]
recipients_lem local_server (g ∷ gs) (s ∷ ss) (v, vs) = elim (Bool-cases s.exception) [
  | inl thrown ↦ inl (simp thrown)
  | inr lasted ↦ elim (recipients_lem local_server gs ss vs) [
    | inl thrown ↦ inl (simp (lasted, thrown))
    | inr e ↦ inr (ap (◌++ recipients ss) (v.complete lasted) ∙ ap (g.handles ++◌) e)
  ]
]

-- An exception was met, for the message or for some server.
pub is_cut_short : StoredMessage → Bool
is_cut_short m = m.exception || has_exception m.stored

stored-recipients :
    (local_server : ℕ) (memory : MessageMemory) (hs : List ClientHandle) (m : StoredMessage)
    → IsStored local_server memory (servers_and_handles [] hs) m
    → (is_cut_short m ≡ true) ⊎ Perm (recipients m.stored) hs
unfolding is_cut_short
stored-recipients local_server memory hs m (inl (lasted, _, split)) =
    elim (recipients_lem local_server (servers_and_handles [] hs) m.stored split) [
      | inl thrown ↦ inl (ground (arith, thrown))
      | inr e ↦ inr (subst (λ rs. Perm rs hs) (sym e) (from_nothing hs))
    ]
stored-recipients local_server memory hs m (inr (thrown, _)) = inl (ground (arith, thrown))

module _ ⦃o : ByteOrder⦄ (processors : Registry) (local_server own_version : ℕ)
    (memory : MessageMemory) where
  -- For handles whose numbers are unsigned 64-bit integers, versions of 16 bits, and a response whose
  -- length with the most additional bytes fits 32 bits, SendResponse ends. It refuses the message and
  -- stores nothing, or an exception is met while the handles are grouped or copied or ends the loop for
  -- some server, or the clients for whom responses are made are, up to their order, precisely the clients
  -- asked for, each once.
  pub send_response-recipients :
      (hs : ClientHandles) (response : List ℕ) (version : ℕ)
      → own_version < 2 ^ 16
      → version < 2 ^ 16
      → length response + 131087 < 2 ^ 32
      → All HasU64 hs
      → (m : StoredMessage) × (send_response processors local_server own_version memory hs response
            version
          ≡ some m)
        × ((IsRefused processors (chosen_version own_version version) response hs
              × (m.exception ≡ false)
              × (m.stored ≡ []))
            ⊎ ((is_cut_short m ≡ true) ⊎ Perm (recipients m.stored) hs))
  send_response-recipients hs response version ho hv hl u =
      let (m, run, outcome) =
        send_response-IsStored processors local_server own_version memory hs response version ho hv
          hl u in
      (
        m,
        run,
        elim outcome [
          | inl refused ↦ inl refused
          | inr (allowed, kept) ↦ inr (stored-recipients local_server memory hs m kept)
        ],
      )
