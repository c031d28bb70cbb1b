-- ===== src/Examples/Messages.antt =====
-- A message for clients of two servers: Pulsar/src/RequestProcessor.cpp.
use pulsar_server_framework.Prelude.{◌≡◌, refl, ◌⊎◌, [], ◌∷◌, some, false, ◌==◌, arith, true}
use pulsar_server_framework.Processor.{
  Stored, StoredMessage, MessageMemory, servers_and_handles, create_response_and_add_to_queues,
}
use pulsar_server_framework.Processor.Grouping.{
  handles_at, of_server, IsGrouped, servers_and_handles_lem,
}
use pulsar_server_framework.Processor.Splitting.{IsSplit, create_response_and_add_to_queues-IsSplit}
use pulsar_server_framework.Processor.Servers.{IsRefused, IsAllowed, IsStored}
use pulsar_server_framework.Processor.EntryPoints.{
  chosen_version, send_response, send_response-IsStored,
}
use pulsar_server_framework.Processor.Recipients.{
  recipients, is_cut_short, send_response-recipients,
}
use mathlib.Core.List.{Perm}
use pulsar_server_framework.Examples.Machine.{little_endian}
use pulsar_server_framework.Examples.Frames.{registry, hello, remote_handles, sender}

servers_and_handles_lem_example :
    IsGrouped (servers_and_handles [] (sender ∷ remote_handles))
    × (handles_at 1000 (servers_and_handles [] (sender ∷ remote_handles))
        ≡ of_server 1000 (sender ∷ remote_handles))
servers_and_handles_lem_example = servers_and_handles_lem (sender ∷ remote_handles) 1000

create_response_and_add_to_queues-IsSplit_example :
    (s : Stored) × (create_response_and_add_to_queues registry 2000 hello 5 false
        (λ i. i == 1)
        2
        0
        remote_handles
      ≡ some s)
    × IsSplit 2000 1000 remote_handles s
create_response_and_add_to_queues-IsSplit_example =
    create_response_and_add_to_queues-IsSplit registry 2000 hello 5 false (omega arith)
      (omega arith) (λ i. i == 1) 1000 2 0 remote_handles (omega arith)
      ((refl, omega arith), ((refl, omega arith), tt))

-- No second response can be made for a server; and the handles of the second server cannot be copied.
abbrev one_response : MessageMemory
one_response = record {
  map_fails = false;
  copy_fails = λ server. server == 2000;
  allocation_fails = λ server i. i == 1;
}

abbrev lasting : MessageMemory
lasting = record {
  map_fails = false;
  copy_fails = λ server. false;
  allocation_fails = λ server i. false;
}

send_response-IsStored_example :
    (m : StoredMessage) × (send_response registry 2000 5 one_response
        (sender ∷ remote_handles)
        hello
        0
      ≡ some m)
    × ((IsRefused registry (chosen_version 5 0) hello (sender ∷ remote_handles)
          × (m.exception ≡ false)
          × (m.stored ≡ []))
        ⊎ (IsAllowed registry (chosen_version 5 0) hello (sender ∷ remote_handles)
            × IsStored 2000 one_response (servers_and_handles [] (sender ∷ remote_handles)) m))
send_response-IsStored_example =
    send_response-IsStored registry 2000 5 one_response (sender ∷ remote_handles) hello 0
      (omega arith) (omega arith) (omega arith) (omega arith, (omega arith, (omega arith, tt)))

send_response-recipients_example :
    (m : StoredMessage) × (send_response registry 2000 5 lasting (sender ∷ remote_handles) hello 0
      ≡ some m)
    × ((IsRefused registry (chosen_version 5 0) hello (sender ∷ remote_handles)
          × (m.exception ≡ false)
          × (m.stored ≡ []))
        ⊎ ((is_cut_short m ≡ true) ⊎ Perm (recipients m.stored) (sender ∷ remote_handles)))
send_response-recipients_example =
    send_response-recipients registry 2000 5 lasting (sender ∷ remote_handles) hello 0 (omega arith)
      (omega arith) (omega arith) (omega arith, (omega arith, (omega arith, tt)))
