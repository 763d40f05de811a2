-- ===== src/Migration.antt =====
-- A client that goes from the login server through the intermediate server to a lobby: the code of the
-- three servers together.
pub mod Arrival
pub mod Calls
pub mod Flow
