-- ===== src/Examples/Frames.antt =====
-- Frames and forwarded responses at concrete bytes: Pulsar/src/RequestParser.cpp,
-- Pulsar/src/RequestResponse.cpp, Pulsar/src/RequestProcessor_ForwardedResponses.cpp.
use pulsar_server_framework.Prelude.{
  ℕ, ◌+◌, ◌≡◌, refl, inl, List, [], ◌∷◌, ◌++◌, none, some, true, ltb, ◌==◌, if◌then◌else◌, length,
  false, not, ◌&&◌, ◌||◌, arith,
}
use pulsar_server_framework.ByteOrder.{htonll, be64}
use pulsar_server_framework.ByteOrder.Order64.{htonll_network}
use pulsar_server_framework.Handles.{ClientHandle, less, equal, insert, contains}
use pulsar_server_framework.Handles.Order.{IsOrdered, insert-IsSet}
use pulsar_server_framework.Protocol.Constants.{
  header_size, special_communication, response_acknowledgement,
}
use pulsar_server_framework.Protocol.Frame.{framed}
use pulsar_server_framework.Protocol.Parser.{
  VersionParameters, request_found, wait_for_more_bytes, Buffer, Parsed, Registry, version_refused,
  validate_protocol_and_extract_request,
}
use pulsar_server_framework.Protocol.Parser.Safety.{IsSafe, validate-IsSafe}
use pulsar_server_framework.Protocol.Parser.Frames.{validate-frame, IsFrame, found-IsFrame}
use pulsar_server_framework.Protocol.Response.{
  thrown, created, construct_response_for_local_clients, construct_response_for_remote_clients,
  new_response,
}
use pulsar_server_framework.Protocol.Response.Wire.{
  forwarded_body, construct_local_lem, construct_remote_lem,
}
use pulsar_server_framework.Protocol.Response.Ends.{Ends, new_response-Ends}
use pulsar_server_framework.Protocol.Forwarded.{
  calculate_version_parameters, Processed, process_request,
}
use pulsar_server_framework.Protocol.Forwarded.Decoding.{process_request-total, localised}
use pulsar_server_framework.Protocol.RoundTrip.{extracted, forward_round_trip}
use pulsar_server_framework.Examples.Machine.{little_endian}

-- Every version has a processor with the sizes of the default constructor; the special version has
-- those of the forwarded responses.
abbrev pub default_parameters : VersionParameters
default_parameters = record { max_request_size = 65536; max_response_size = 65536 }

abbrev pub registry : Registry
registry version =
    if version == special_communication
    then some calculate_version_parameters
    else some default_parameters

abbrev nothing_out : Buffer
nothing_out = record { base = none; len = 0 }

abbrev pub hello : List ℕ
hello = 104 ∷ 105 ∷ []

abbrev pub remote_handles : List ClientHandle
remote_handles =
    record { client_registration_number = 7; server_ipv4_address = 1000 }
    ∷ record { client_registration_number = 300; server_ipv4_address = 1000 }
    ∷ []

abbrev pub sender : ClientHandle
sender = record { client_registration_number = 9; server_ipv4_address = 2000 }

abbrev hello_frame : List ℕ
hello_frame = framed 5 2 hello

hello_parsed :
    validate_protocol_and_extract_request registry hello_frame 11 0 nothing_out
    ≡ some (record {
      code = request_found;
      existing_version = 5;
      request_out = record { base = some 9; len = 2 };
    })
hello_parsed =
    validate-frame registry 5 hello [] 11 0 nothing_out default_parameters (omega arith)
      (omega arith) (unfold version_refused in refl) refl (omega arith) (omega arith)

forward_round_trip_example :
    (bytes : List ℕ) × (r : Parsed) × (construct_response_for_remote_clients registry hello
        remote_handles 5
      ≡ created bytes)
    × (validate_protocol_and_extract_request registry
          (bytes ++ 77 ∷ [])
          (length bytes)
          0
          nothing_out
        ≡ some r)
    × (r.code ≡ request_found)
    × (process_request (extracted (bytes ++ 77 ∷ []) r) sender
        ≡ some (record {
          result = true;
          streaming = true;
          sendings =
              record {
                clienthandles = localised 2000 remote_handles [];
                response = hello;
                version = 5;
              }
              ∷ record {
                clienthandles = sender ∷ [];
                response = response_acknowledgement ∷ [];
                version = special_communication;
              }
              ∷ [];
        }))
forward_round_trip_example =
    forward_round_trip registry registry hello (77 ∷ []) remote_handles 5 0 nothing_out sender refl
      refl (omega arith) (inl refl) (omega arith) (omega arith) (omega arith)
      (omega arith, (omega arith, tt))

validate-IsSafe_example :
    (r : Parsed) × (validate_protocol_and_extract_request registry hello_frame 10 0 nothing_out
      ≡ some r)
    × IsSafe registry 10 0 r
validate-IsSafe_example = validate-IsSafe registry hello_frame 10 0 nothing_out (omega arith)

validate-frame_example :
    validate_protocol_and_extract_request registry (framed 5 2 (hello ++ 77 ∷ [])) 12 0 nothing_out
    ≡ some (
        if ltb 12 (header_size + 1)
        then record { code = wait_for_more_bytes; existing_version = 0; request_out = nothing_out }
        else if ltb 12 (2 + header_size)
        then record {
          code = wait_for_more_bytes;
          existing_version = 5;
          request_out = record nothing_out { len = 2 };
        }
        else record {
          code = request_found;
          existing_version = 5;
          request_out = record { base = some header_size; len = 2 };
        })
validate-frame_example =
    validate-frame registry 5 hello (77 ∷ []) 12 0 nothing_out default_parameters (omega arith)
      (omega arith) (unfold version_refused in refl) refl (omega arith) (omega arith)

found-IsFrame_example : IsFrame hello_frame 5 2
found-IsFrame_example =
    found-IsFrame registry hello_frame 11 0 nothing_out
      (record {
        code = request_found;
        existing_version = 5;
        request_out = record { base = some 9; len = 2 };
      })
      (ground arith) (omega arith) hello_parsed refl

construct_local_lem_example :
    construct_response_for_local_clients registry hello 5
    ≡ (if ltb 65536 2 then thrown else created (framed 5 2 hello))
construct_local_lem_example =
    construct_local_lem registry hello 5 default_parameters (omega arith) (omega arith) refl

construct_remote_lem_example :
    construct_response_for_remote_clients registry hello remote_handles 5 ≡ (
      if ltb calculate_version_parameters.max_response_size 24
      then thrown
      else created (framed special_communication 24 (forwarded_body 5 remote_handles hello)))
construct_remote_lem_example =
    construct_remote_lem registry hello remote_handles 5 calculate_version_parameters (omega arith)
      (omega arith) (omega arith, (omega arith, tt)) refl

abbrev a_handle : ClientHandle
a_handle = record { client_registration_number = 7; server_ipv4_address = 1000 }

abbrev b_handle : ClientHandle
b_handle = record { client_registration_number = 300; server_ipv4_address = 1000 }

new_response-Ends_example : Ends (new_response registry 2000 hello a_handle (b_handle ∷ []) 5 true)
new_response-Ends_example =
    new_response-Ends registry hello 5 (omega arith) (omega arith) 2000 a_handle (b_handle ∷ [])
      true (refl, tt) (omega arith, (omega arith, tt))

process_request-total_example :
    (p : Processed) × (process_request (0 ∷ 5 ∷ 255 ∷ 255 ∷ 255 ∷ 255 ∷ 1 ∷ []) sender ≡ some p)
process_request-total_example =
    process_request-total (0 ∷ 5 ∷ 255 ∷ 255 ∷ 255 ∷ 255 ∷ 1 ∷ []) sender

htonll_network_example : little_endian.bytes64 (htonll 300) ≡ be64 300
htonll_network_example = htonll_network 300 (omega arith)

insert-IsSet_example :
    ((less a_handle sender && (less sender b_handle && not (less a_handle b_handle))) ≡ false)
    × (equal a_handle sender ≡ not (less a_handle sender || less sender a_handle))
    × ((less a_handle sender && less sender a_handle) ≡ false)
    × IsOrdered (insert sender remote_handles)
    × (contains a_handle (insert sender remote_handles)
        ≡ (equal a_handle sender || contains a_handle remote_handles))
    × (insert sender (insert sender remote_handles) ≡ insert sender remote_handles)
insert-IsSet_example =
    insert-IsSet a_handle sender b_handle remote_handles
      (((unfold less in refl, unfold equal in refl), tt), (tt, tt))
