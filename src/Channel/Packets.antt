-- ===== src/Channel/Packets.antt =====
-- InterServerOpcode.hpp and the code that writes and reads each packet between the servers
-- (UE4LoginServer/LoginServer.cpp, UE4LobbyServer/LobbyServer.cpp,
-- UE4IntermediateServer/IntermediateServer.cpp). A packet's bytes begin with its opcode.
pub mod Codec
use ue4team_project_server.Common.{ℕ, List, Result, ok, throw, fault}
use ue4team_project_server.Stream.ByteStream.{ByteStream}
use ue4team_project_server.Stream.InputStream.{
  Reader, ◌>>=◌, pure, read_int16, read_int32, read_int64, read_string,
}
use ue4team_project_server.Stream.OutputStream.{
  Writer, ◌>>◌, write_int16, write_int32, write_int64, write_string,
}
use ue4team_project_server.Server.RemoteServerInfo.{
  RemoteServerInfo, write_server_info, read_server_info,
}
use ue4team_project_server.Server.RemoteSessionInfo.{
  RemoteSessionInfo, write_session_info, read_session_info,
}

-- ServerType
abbrev pub login_server : ℕ
login_server = 0

abbrev pub lobby_server : ℕ
lobby_server = 1

abbrev pub zone_server : ℕ
zone_server = 2

abbrev pub server_count : ℕ
server_count = 3

-- IntermediateServerReceivePacket, what the intermediate server is sent.
pub data ToIntermediate : Type 0 where
  register_remote_server : RemoteServerInfo → ToIntermediate
  update_server_connection : ℕ → ToIntermediate
  request_user_migration : ℕ → List ℕ → RemoteSessionInfo → ToIntermediate
  react_session_authority_info : List ℕ → List ℕ → ToIntermediate
  notify_user_logout : ℕ → ToIntermediate

-- IntermediateServerSendPacket, what it sends.
pub data FromIntermediate : Type 0 where
  notify_session_authority_info : List ℕ → List ℕ → RemoteSessionInfo → FromIntermediate
  react_user_migration : List ℕ → List ℕ → ℕ → FromIntermediate

unfoldable pub write_to_intermediate : ToIntermediate → Writer
write_to_intermediate (register_remote_server info) = do write_int16 0; write_server_info info
write_to_intermediate (update_server_connection current) = do write_int16 1; write_int64 current
write_to_intermediate (request_user_migration type user_uuid info) = do
  write_int16 2
  write_int16 type
  write_string user_uuid
  write_session_info info
write_to_intermediate (react_session_authority_info server_uuid user_uuid) = do
  write_int16 3
  write_string server_uuid
  write_string user_uuid
write_to_intermediate (notify_user_logout accid) = do write_int16 4; write_int32 accid

-- The port is a uint16_t, for which the overloads of operator<< come to that of int32_t.
unfoldable pub write_from_intermediate : FromIntermediate → Writer
write_from_intermediate (notify_session_authority_info server_uuid user_uuid info) = do
  write_int16 0
  write_string server_uuid
  write_string user_uuid
  write_session_info info
write_from_intermediate (react_user_migration user_uuid ip port) = do
  write_int16 1
  write_string user_uuid
  write_string ip
  write_int32 port

-- What the handlers read behind the opcode.
pub record Migration : Type 0 where
  pub server_type : ℕ
  pub user_uuid : List ℕ
  pub info : RemoteSessionInfo

unfoldable pub read_request_user_migration : Reader Migration
read_request_user_migration = do
  server_type ← read_int16
  user_uuid ← read_string
  info ← read_session_info
  pure (record { server_type = server_type; user_uuid = user_uuid; info = info })

pub record Route : Type 0 where
  pub server_uuid : List ℕ
  pub user_uuid : List ℕ

unfoldable pub read_react_session_authority_info : Reader Route
read_react_session_authority_info = do
  server_uuid ← read_string
  user_uuid ← read_string
  pure (record { server_uuid = server_uuid; user_uuid = user_uuid })

pub record Authority : Type 0 where
  pub route : Route
  pub info : RemoteSessionInfo

unfoldable pub read_notify_session_authority_info : Reader Authority
read_notify_session_authority_info = do
  server_uuid ← read_string
  user_uuid ← read_string
  info ← read_session_info
  pure (record { route = record { server_uuid = server_uuid; user_uuid = user_uuid }; info = info })

pub record Migrated : Type 0 where
  pub user_uuid : List ℕ
  pub ip : List ℕ
  pub port : ℕ

unfoldable pub read_react_user_migration : Reader Migrated
read_react_user_migration = do
  user_uuid ← read_string
  ip ← read_string
  port ← read_int16
  pure (record { user_uuid = user_uuid; ip = ip; port = port })

-- What is read from a packet of which nothing more is read.
abbrev pub value_of : {A : Type 0} → Result (A × ByteStream) → Result A
value_of (ok (value, rest)) = ok value
value_of (throw type) = throw type
value_of fault = fault
