-- ===== src/ZoneSystem.antt =====
-- UE4Model/System/ZoneSystem.cpp with the tables of UE4Model/Provider: the zones that there are.
pub mod Tables
pub mod Instances
pub mod Sweep
