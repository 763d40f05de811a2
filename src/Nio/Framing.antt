-- ===== src/Nio/Framing.antt =====
-- How the receive buffer and the cipher cut the bytes of a connection into packets.
pub mod Buffers
pub mod Packets
pub mod Decoding
pub mod Streams
