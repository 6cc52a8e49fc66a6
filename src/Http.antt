-- ===== src/Http.antt =====
-- src/lua/http_library.cc: URLs and proxies, requests and WebSocket connections.
pub mod Url
pub mod Component
pub mod Proxy
pub mod Accepted
pub mod Request
pub mod Connection
pub mod Socket
pub mod Quiet
pub mod Client
pub mod Resumed
pub mod References
pub mod Answered
