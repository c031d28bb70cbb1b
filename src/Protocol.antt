-- ===== src/Protocol.antt =====
-- The MAI protocol: what a server writes on the wire and how it reads it back.
pub mod Constants
pub mod Reader
pub mod Parser
pub mod Frame
pub mod Framing
pub mod Response
pub mod RoundTrip
pub mod Forwarded
