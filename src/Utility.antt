-- ===== src/Utility.antt =====
-- UE4DevelopmentLibrary/Utility.
pub mod Uuid
