-- ===== src/Protocol.antt =====
-- probes/app-server-ts: the messages of the App Server, as values of JSON and types of TypeScript.
pub mod Json
pub mod Schema
pub mod Types
pub mod Conformance
pub mod Messages
pub mod Requests
