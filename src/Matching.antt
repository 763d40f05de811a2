-- ===== src/Matching.antt =====
-- Matching for dungeons: UE4Model/System/MatchingSystem.cpp and its callers in ZoneServer.cpp.
pub mod Match
pub mod Seats
pub mod Spawning
pub mod Service
pub mod Queue
pub mod Lookup
pub mod Leaving
pub mod Binding
pub mod Withdrawal
pub mod Requests
pub mod Progress
pub mod Reachable
pub mod Bystander
