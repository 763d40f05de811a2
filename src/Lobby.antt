-- ===== src/Lobby.antt =====
-- UE4LobbyServer: the server on which an account's characters are made, deleted and chosen.
pub mod CharacterInfo
pub mod State
pub mod Listing
pub mod Requests
pub mod Dispatch
pub mod Spec
pub mod Quiet
pub mod Refinement
pub mod Guards
pub mod Characters
pub mod Entry
