-- ===== src/Channel.antt =====
-- InterServerOpcode.hpp: the packets that the servers exchange through the intermediate server.
pub mod Packets
