-- ===== src/Delivery/Stranding.antt =====
-- What a failing uv_write does when a fatal error waits behind another response: `SendLocalClientsResponses`
-- of Pulsar/src/LocalClientsManager.cpp.
use pulsar_server_framework.Prelude.{
  ℕ, ◌≤◌, ◌≡◌, ap, ◌∙◌, inl, inr, List, [], ◌∷◌, some, Bool, true, false, length, All, arith,
}
use pulsar_server_framework.Client.{Client, Server}
use pulsar_server_framework.Handles.{ClientHandle}
use pulsar_server_framework.Pool.{increase_count_for_client}
use pulsar_server_framework.Protocol.Response.{
  Response, is_fatal_error_for_locally_connected_client,
}
use pulsar_server_framework.Delivery.{
  unlocked_queue, fill, mark_if_fatal, fill_and_write, Memory, add_response_to_client,
}
use pulsar_server_framework.Delivery.Callback.{IsSendable}
use pulsar_server_framework.Delivery.Rounds.{filling, fill_and_write-IsRound}
use pulsar_server_framework.Delivery.Queues.{IsStranded}

fatal_behind :
    (s : Server) (c : Client) (r fatal : Response) (queue : List Response)
    → c.to_be_disconnected ≡ false
    → is_fatal_error_for_locally_connected_client r ≡ false
    → is_fatal_error_for_locally_connected_client fatal ≡ true
    → fill (mark_if_fatal s c (r ∷ fatal ∷ queue)).1.to_be_disconnected 0 (r ∷ fatal ∷ queue)
      ≡ record { taken = r ∷ []; left = fatal ∷ queue }
unfolding mark_if_fatal fill
fatal_behind s c r fatal queue unmarked plain deadly = simp (plain, unmarked, deadly)

-- If uv_write fails at once for a client that is not marked, whose queue begins with a response that is no
-- fatal error and then has one, where all responses can be sent and are counted, the round ends with the
-- fatal error and what follows it still queued, the client out of the set that was sent from, and no
-- write under way.
pub fill_and_write-IsStranded :
    (flag : Bool) (now : ℕ) (s : Server) (c : Client) (r fatal : Response) (queue : List Response)
    → unlocked_queue flag c ≡ r ∷ fatal ∷ queue
    → All IsSendable (r ∷ fatal ∷ queue)
    → length (unlocked_queue flag c) ≤ c.responses
    → c.to_be_disconnected ≡ false
    → is_fatal_error_for_locally_connected_client r ≡ false
    → is_fatal_error_for_locally_connected_client fatal ≡ true
    → (s' : Server) × (c' : Client) × (fill_and_write flag false now s c ≡ some (s', c'))
      × (unlocked_queue flag c' ≡ fatal ∷ queue)
      × IsStranded flag c'
fill_and_write-IsStranded flag now s c r fatal queue e v h unmarked plain deadly =
    let n = ap length e in
    let (s', c', run, k) =
      fill_and_write-IsRound flag false now s c (omega (arith, n)) (rw e v) h in
    let f : filling flag s c ≡ record { taken = r ∷ []; left = fatal ∷ queue } =
      rw e (fatal_behind s c r fatal queue unmarked plain deadly) in
    let rest = k.rest ∙ ap (λ x. x.left) f in
    (
      s',
      c',
      run,
      rest,
      record {
        waiting = omega (arith, ap length rest);
        unset = k.unset;
        no_write = elim k.outcome [
          | inl (ok, _) ↦ absurd (ground arith)
          | inr (_, failed) ↦ failed.sending
        ];
      },
    )

-- A marked client gets no further response.
pub add_response_to_client-marked :
    (max_pending : ℕ) (m : Memory) (flag : Bool) (clienthandle : ClientHandle) (now : ℕ)
    → (r : Response) (c : Client) → c.to_be_disconnected ≡ true
    → add_response_to_client max_pending m flag clienthandle now r c
      ≡ some (record { client = c; added = false; has_encountered_exception = false })
unfolding add_response_to_client increase_count_for_client
add_response_to_client-marked max_pending m flag clienthandle now r c e = ground arith
