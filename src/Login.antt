-- ===== src/Login.antt =====
-- UE4LoginServer: the server on which accounts are made and checked.
pub mod State
pub mod Handlers
