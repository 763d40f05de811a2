-- ===== src/Server.antt =====
-- UE4DevelopmentLibrary/Server: what servers tell each other, and their clients.
pub mod RemoteServerInfo
pub mod Client
pub mod RemoteSessionInfo
