-- ===== src/Server.antt =====
-- internal/server: who may connect, and what becomes of a connection.
pub mod Auth
pub mod WebSocket
pub mod UserManager
pub mod UserPanel
pub mod Dispatcher
pub mod Config
pub mod FirstPacket
pub mod Tls
