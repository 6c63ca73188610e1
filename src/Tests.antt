-- ===== src/Tests.antt =====
-- Runs of the definitions on small inputs, and the theorems at inputs that meet their conditions.
mod Ciphers
mod Frames
mod Deliveries
mod Sessions
mod Logins
mod Users
mod Routes
mod Handshakes
mod Panels
mod Plugins
mod Rounds
mod Configs
mod Clients
mod Connectors
mod Connections
