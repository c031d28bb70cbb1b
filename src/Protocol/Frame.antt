-- ===== src/Protocol/Frame.antt =====
-- The MAI frame: preamble, version, size, body. It is written by Pulsar/src/RequestResponse.cpp and
-- read by Pulsar/src/RequestParser.cpp.
use pulsar_server_framework.Prelude.{ℕ, List, ◌++◌}
use pulsar_server_framework.ByteOrder.{be16, be32}
use pulsar_server_framework.Protocol.Constants.{msg_preamble}

-- A frame that announces `size` bytes, and what follows its header.
abbrev pub framed : ℕ → ℕ → List ℕ → List ℕ
framed version size after = msg_preamble ++ (be16 version ++ (be32 size ++ after))
