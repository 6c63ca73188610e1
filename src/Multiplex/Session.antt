-- ===== src/Multiplex/Session.antt =====
-- internal/multiplex/session.go, stream.go and switchboard.go: a session, its streams and its pool
-- of connections. Each function is one call that runs to its end under the locks it takes; what the
-- call gets from outside (random numbers, the outcome of a connection's `Write`) is in its `Env`.
pub mod State
pub mod Switchboard
pub mod Close
pub mod Streams
pub mod Closed
pub mod Tombstone
pub mod Opening
pub mod Sending
pub mod Writing
pub mod Receiving
pub mod Delivery
pub use State.*
pub use Switchboard.*
