-- ===== src/Intermediate.antt =====
-- UE4IntermediateServer: the server that the other servers register with and through which they hand
-- their clients on.
pub mod State
pub mod Balance
pub mod Handlers
