-- ===== src/Multiplex.antt =====
-- internal/multiplex: frames and their serialisation, the receive buffers, streams and sessions.
pub mod Frame
pub mod Obfs
pub mod StreamPipe
pub mod DatagramPipe
pub mod StreamBuffer
pub mod Session
