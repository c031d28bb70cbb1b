-- ===== src/Delivery/Traffic/Draining.antt =====
-- Runs of `SendResponses` whose writes are called back send everything that is pending for a client:
-- Pulsar/src/ConnectionsManager.cpp, Pulsar/src/LocalClientsManager.cpp.
use pulsar_server_framework.Prelude.{ℕ, ◌≡◌, List, [], ◌∷◌, ◌++◌, Bool, true}
use pulsar_server_framework.Client.{Client}
use pulsar_server_framework.Protocol.Response.{Response}
use pulsar_server_framework.Delivery.Queues.{IsDelivering}
use pulsar_server_framework.Delivery.Traffic.{Event, send_responses, callback}

-- A run of SendResponses and the callback of what it wrote, if it wrote anything.
pub record Cycle : Type 0 where
  pub sent_at : ℕ
  pub write_ok : Bool
  pub written_at : ℕ

pub cycles : List Cycle → List Event
cycles [] = []
cycles (y ∷ ys) = send_responses true (y.sent_at) ∷ callback (y.write_ok) (y.written_at) ∷ cycles ys

-- The client's queues are as they should be and no write is under way.
record IsIdle (max_pending : ℕ) (c : Client) : Type 0 where
  queues : IsDelivering max_pending c
  none_sent : c.responses_being_sent ≡ []

-- Two cycles for each response.
pub pairs : List (Cycle × Cycle) → List Event
pairs [] = []
pairs ((y, z) ∷ ys) = cycles (y ∷ z ∷ []) ++ pairs ys
