-- ===== src/Channel/Packets/Codec.antt =====
-- The packets of a migration: the bytes that are written, and that their reader finds in them what was
-- written.
use ue4team_project_server.Common.{ℕ, ◌^◌, ◌<◌, ◌≡◌, List, [], ◌∷◌, ◌++◌, length, arith}
use ue4team_project_server.Stream.Bytes.{to_bytes}
use ue4team_project_server.Stream.InputStream.Reads.{
  Reads, Reads-bind, Reads-last, Reads-fixed, Reads-string, IsText,
}
use ue4team_project_server.Stream.OutputStream.{Writer}
use ue4team_project_server.Stream.OutputStream.Writes.{
  Writes, Writes-seq, Writes-fixed, text_bytes, Writes-text,
}
use ue4team_project_server.Server.RemoteSessionInfo.{
  RemoteSessionInfo, IsRemoteSessionInfo, session_info_bytes, whole_seconds,
  write_session_info-Writes, read_session_info-Reads,
}
use ue4team_project_server.Channel.Packets.{
  request_user_migration, react_session_authority_info, notify_session_authority_info,
  react_user_migration, write_to_intermediate, write_from_intermediate, read_request_user_migration,
  read_react_session_authority_info, read_notify_session_authority_info, read_react_user_migration,
}

-- A text that fits a packet.
abbrev pub IsShortText : List ℕ → Type 0
IsShortText t = IsText t × (length t < 64)

-- The bytes behind the opcode.
abbrev pub migration_bytes : ℕ → List ℕ → RemoteSessionInfo → List ℕ
migration_bytes type uuid info = to_bytes 2 type ++ (text_bytes uuid ++ session_info_bytes info)

abbrev pub route_bytes : List ℕ → List ℕ → List ℕ
route_bytes server user = text_bytes server ++ text_bytes user

abbrev pub authority_bytes : List ℕ → List ℕ → RemoteSessionInfo → List ℕ
authority_bytes server user info = text_bytes server ++ (text_bytes user ++ session_info_bytes info)

abbrev pub migrated_bytes : List ℕ → List ℕ → ℕ → List ℕ
migrated_bytes user ip port = text_bytes user ++ (text_bytes ip ++ to_bytes 4 port)

text :
    (t : List ℕ)
    → IsShortText t
    → Writes (ue4team_project_server.Stream.OutputStream.write_string t) (text_bytes t)
text t h = Writes-text t h.0 h.1

opcode : (n : ℕ) → Writes (ue4team_project_server.Stream.OutputStream.write_int16 n) (to_bytes 2 n)
opcode n = Writes-fixed 2 n (omega arith)

pub migration-Writes :
    (type : ℕ) (uuid : List ℕ) (info : RemoteSessionInfo)
    → IsShortText uuid
    → IsRemoteSessionInfo info
    → Writes
        (write_to_intermediate (request_user_migration type uuid info))
        (to_bytes 2 2 ++ migration_bytes type uuid info)
unfolding write_to_intermediate
migration-Writes type uuid info u h = Writes-seq _ _ _ _ (opcode 2) (
    Writes-seq _ _ _ _ (opcode type)
      (Writes-seq _ _ _ _ (text uuid u) (write_session_info-Writes info h)))

pub route-Writes :
    (server user : List ℕ)
    → IsShortText server
    → IsShortText user
    → Writes
        (write_to_intermediate (react_session_authority_info server user))
        (to_bytes 2 3 ++ route_bytes server user)
unfolding write_to_intermediate
route-Writes server user s u =
    Writes-seq _ _ _ _ (opcode 3) (Writes-seq _ _ _ _ (text server s) (text user u))

pub authority-Writes :
    (server user : List ℕ) (info : RemoteSessionInfo)
    → IsShortText server
    → IsShortText user
    → IsRemoteSessionInfo info
    → Writes
        (write_from_intermediate (notify_session_authority_info server user info))
        (to_bytes 2 0 ++ authority_bytes server user info)
unfolding write_from_intermediate
authority-Writes server user info s u h = Writes-seq _ _ _ _ (opcode 0) (
    Writes-seq _ _ _ _ (text server s)
      (Writes-seq _ _ _ _ (text user u) (write_session_info-Writes info h)))

pub migrated-Writes :
    (user ip : List ℕ) (port : ℕ)
    → IsShortText user
    → IsShortText ip
    → Writes
        (write_from_intermediate (react_user_migration user ip port))
        (to_bytes 2 1 ++ migrated_bytes user ip port)
unfolding write_from_intermediate
migrated-Writes user ip port u i = Writes-seq _ _ _ _ (opcode 1) (
    Writes-seq _ _ _ _ (text user u)
      (Writes-seq _ _ _ _ (text ip i) (Writes-fixed 4 port (omega arith))))

pub migration-Reads :
    (type : ℕ) (uuid : List ℕ) (info : RemoteSessionInfo)
    → type < 2 ^ 16
    → IsText uuid
    → IsRemoteSessionInfo info
    → Reads read_request_user_migration
        (migration_bytes type uuid info)
        (record { server_type = type; user_uuid = uuid; info = whole_seconds info })
unfolding read_request_user_migration
migration-Reads type uuid info t u h =
    Reads-bind _ _ _ _ type _ (Reads-fixed 2 type (omega arith)) (
      Reads-bind _ _ _ _ uuid _ (Reads-string uuid u)
        (Reads-last _ _ _ (whole_seconds info) (read_session_info-Reads info h)))

pub route-Reads :
    (server user : List ℕ)
    → IsText server
    → IsText user
    → Reads read_react_session_authority_info
        (route_bytes server user)
        (record { server_uuid = server; user_uuid = user })
unfolding read_react_session_authority_info
route-Reads server user s u =
    Reads-bind _ _ _ _ server _ (Reads-string server s)
      (Reads-last _ _ _ user (Reads-string user u))

pub authority-Reads :
    (server user : List ℕ) (info : RemoteSessionInfo)
    → IsText server
    → IsText user
    → IsRemoteSessionInfo info
    → Reads read_notify_session_authority_info (authority_bytes server user info) (record {
      route = record { server_uuid = server; user_uuid = user };
      info = whole_seconds info;
    })
unfolding read_notify_session_authority_info
authority-Reads server user info s u h = Reads-bind _ _ _ _ server _ (Reads-string server s) (
    Reads-bind _ _ _ _ user _ (Reads-string user u)
      (Reads-last _ _ _ (whole_seconds info) (read_session_info-Reads info h)))

-- Of the four bytes of the port the first two are read.
pub migrated-Reads :
    (user ip : List ℕ) (port : ℕ)
    → IsText user
    → IsText ip
    → port < 2 ^ 16
    → Reads read_react_user_migration
        (text_bytes user ++ (text_bytes ip ++ to_bytes 2 port))
        (record { user_uuid = user; ip = ip; port = port })
unfolding read_react_user_migration
migrated-Reads user ip port u i p = Reads-bind _ _ _ _ user _ (Reads-string user u) (
    Reads-bind _ _ _ _ ip _ (Reads-string ip i)
      (Reads-last _ _ _ port (Reads-fixed 2 port (omega arith))))

pub port_bytes : (port : ℕ) → port < 2 ^ 16 → to_bytes 4 port ≡ to_bytes 2 port ++ 0 ∷ 0 ∷ []
unfolding to_bytes
port_bytes port h = ground arith
