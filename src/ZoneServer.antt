-- ===== src/ZoneServer.antt =====
-- UE4Model/Server/ZoneServer.cpp: what the characters in the zones do on behalf of their clients.
pub mod State
pub mod Requests
pub mod Moves
pub mod Fights
pub mod Dispatch
pub mod Spares
pub mod Apart
pub mod Others
pub mod Hits
pub mod Inventories
