-- ===== src/Model.antt =====
-- UE4Model: items, characters, zones, parties and matches.
pub mod FVector
pub mod ZoneObject
pub mod PawnObject
pub mod Item
pub mod ItemCodec
pub mod Inventory
pub mod Equipment
pub mod Character
