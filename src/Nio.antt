-- ===== src/Nio.antt =====
-- UE4DevelopmentLibrary/Nio and the packet classes of UE4DevelopmentLibrary/Server: packets, the
-- receive buffer, the cipher that cuts the byte stream into packets, and the session.
pub mod OutPacket
pub mod InPacket
pub mod Buffer
pub mod Cipher
pub mod Session
pub mod Framing
pub mod PacketHead
