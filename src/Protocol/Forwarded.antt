-- ===== src/Protocol/Forwarded.antt =====
-- Pulsar/src/RequestProcessor_ForwardedResponses.cpp: what a server does with a response that another
-- server has forwarded to it.
pub mod Decoding
use pulsar_server_framework.Prelude.{
  ℕ, zero, suc, ◌+◌, ◌*◌, ◌-◌, ◌%◌, ◌^◌, List, [], ◌∷◌, ◌++◌, Option, none, some, Bool, true, false,
  ltb, leb, if◌then◌else◌, ◌>>=◌, length, drop,
}
use pulsar_server_framework.ByteOrder.{ByteOrder}
use pulsar_server_framework.Handles.{ClientHandle, ClientHandles, insert}
use pulsar_server_framework.Protocol.Constants.{
  version_bytes, handle_bytes, registration_bytes, special_communication, response_acknowledgement,
  max_handles_in_forwarded_response, max_possible_request_response_size,
}
use pulsar_server_framework.Protocol.Parser.{VersionParameters}
use pulsar_server_framework.Protocol.Reader.{read16, read32, read64}

-- CalculateVersionParameters: the sizes that the special version allows.
unfoldable pub calculate_version_parameters : VersionParameters
calculate_version_parameters = record { max_request_size = size; max_response_size = size }
  where
    size : ℕ
    size =
        2
        + 4
        + max_handles_in_forwarded_response * registration_bytes
        + max_possible_request_response_size

-- A call of `SendResponse`.
pub record Sending : Type 0 where
  pub clienthandles : ClientHandles
  pub response : List ℕ
  pub version : ℕ

-- The return value, the streaming mode that was set, and the responses that were handed over.
pub record Processed : Type 0 where
  pub result : Bool
  pub streaming : Bool
  pub sendings : List Sending

-- The handles that were collected and the index behind them, or `none` where the loop returns FALSE.
abbrev pub Collected : Type 0
Collected = Option (ClientHandles × ℕ)

module _ ⦃o : ByteOrder⦄ where
  -- The loop over the handles; the first argument counts those that are left.
  pub collect_handles : ℕ → List ℕ → ℕ → ℕ → ClientHandles → Option Collected
  collect_handles zero forwarded_response local_server index clienthandles =
      some (some (clienthandles, index))
  collect_handles (suc left) forwarded_response local_server index clienthandles =
      let next = read64 forwarded_response index >>= λ number.
      collect_handles left forwarded_response local_server (index + registration_bytes) (
        insert (record { client_registration_number = number; server_ipv4_address = local_server })
          clienthandles) in
      if leb (length forwarded_response) (index + registration_bytes) then some none else next

  -- The two responses: the one that was forwarded, and an acknowledgement for its sender.
  pub after_collecting : List ℕ → ClientHandle → ℕ → Collected → Processed
  after_collecting forwarded_response sender version none = record {
    result = false;
    streaming = true;
    sendings = [];
  }
  after_collecting forwarded_response sender version (some (clienthandles, index)) = record {
    result = true;
    streaming = true;
    sendings =
        record {
          clienthandles = clienthandles;
          response = drop index forwarded_response;
          version = version;
        }
        ∷ record {
          clienthandles = insert sender [];
          response = response_acknowledgement ∷ [];
          version = special_communication;
        }
        ∷ [];
  }

  -- ProcessRequest, on the bytes of the request and the handle of the client that sent it, whose
  -- address is that of this server. `none` is a read past the end of the request.
  pub process_request : List ℕ → ClientHandle → Option Processed
  process_request forwarded_response sender =
      let refused : Processed = record { result = false; streaming = true; sendings = [] } in
      if ltb (length forwarded_response) (version_bytes + handle_bytes) then some refused else do
        version ← read16 forwarded_response 0
        number_of_handles ← read32 forwarded_response version_bytes
        let minimum_length =
            (version_bytes + handle_bytes + number_of_handles * registration_bytes + 1) % 2 ^ 32
        let collected =
            collect_handles number_of_handles forwarded_response sender.server_ipv4_address
              (version_bytes + handle_bytes) []
            >>= λ c. some (after_collecting forwarded_response sender version c)
        if ltb (length forwarded_response) minimum_length then some refused else collected
