-- ===== src/Ws.antt =====
-- src/network.cpp: exact reads and writes on the TLS connection, and WebSocket framing.
pub mod Tls
pub mod Frame
pub mod Message
mod Tests
