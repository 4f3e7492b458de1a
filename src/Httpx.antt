-- ===== src/Httpx.antt =====
-- platform/httpx: JSON responses (response.go), middleware (middleware.go), and the decoding of
-- request bodies (decode.go).
pub mod Response
pub mod Recorder
pub mod Middleware
pub mod Decode
