-- ===== src/Endpoint.antt =====
-- identity/handler and system/handler: the HTTP handlers, from a request to a call of the service and
-- a response.
pub mod Payload
pub mod Reply
pub mod Instant
pub mod PathId
pub mod Requests
pub mod Auth
pub mod Profile
pub mod System
