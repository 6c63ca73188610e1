-- ===== src/Client.antt =====
-- internal/client: what a client is configured with, what it sends to prove who it is, and how it makes
-- a session.
pub mod Auth
pub mod Tls
pub mod Options
pub mod Config
pub mod Connector
pub mod WebSocket
