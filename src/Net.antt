-- ===== src/Net.antt =====
-- The byte buffers and the packet format of the server's sockets.
pub mod Buffer
pub mod Cipher
pub mod Packet
pub mod Holding
mod Tests
