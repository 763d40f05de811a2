-- ===== src/Zone.antt =====
-- Zones: UE4Model/Model/Zone.cpp.
pub mod Members
pub mod Control
pub mod Arrival
