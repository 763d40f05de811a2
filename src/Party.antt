-- ===== src/Party.antt =====
-- Parties of players: UE4Model/System/PartySystem.cpp.
pub mod System
pub mod Members
