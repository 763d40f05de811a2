-- ===== src/Tests.antt =====
-- The theorems at concrete inputs.
mod Connections
mod Objects
mod Characters
mod Matches
mod Zones
mod Parties
mod Lobbies
mod Migrations
mod Worlds
mod Uuids
mod Instances
