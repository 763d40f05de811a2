-- ===== src/Migration/Calls.antt =====
-- Each call of a migration, at a packet that has arrived as it was written.
use ue4team_project_server.Common.{
  ℕ, ◌^◌, ◌<◌, ◌≡◌, sym, ap, ◌∙◌, List, [], ◌∷◌, ◌++◌, some, append_assoc, ok, same_text_iff,
  text_keys, arith,
}
use ue4team_project_server.Common.Calls.{Call}
use ue4team_project_server.Common.Keyed.{find, emplace}
use ue4team_project_server.Stream.Bytes.{to_bytes}
use ue4team_project_server.Stream.ByteStream.{ByteStream}
use ue4team_project_server.Stream.InputStream.Reads.{IsText}
use ue4team_project_server.Stream.OutputStream.Writes.{text_bytes}
use ue4team_project_server.Server.Client.{Client}
use ue4team_project_server.Server.RemoteServerInfo.{RemoteServerInfo}
use ue4team_project_server.Server.RemoteSessionInfo.{
  RemoteSessionInfo, IsRemoteSessionInfo, whole_seconds,
}
use ue4team_project_server.Channel.Packets.{
  lobby_server, request_user_migration, react_session_authority_info, notify_session_authority_info,
  react_user_migration, read_request_user_migration, read_react_session_authority_info,
  read_notify_session_authority_info, read_react_user_migration, value_of,
}
use ue4team_project_server.Channel.Packets.Codec.{
  migration_bytes, route_bytes, authority_bytes, migrated_bytes, migration-Reads, route-Reads,
  authority-Reads, migrated-Reads, port_bytes,
}
use ue4team_project_server.Migration.Arrival.{
  Arrived, offset_set, opcode_read, front_read, whole_read,
}
use ue4team_project_server.Login.State as LoginState
use ue4team_project_server.Login.Handlers as LoginHandlers
use ue4team_project_server.Intermediate.State as IntermediateState
use ue4team_project_server.Intermediate.Handlers as IntermediateHandlers
use ue4team_project_server.Intermediate.Balance.{get_server_load_balance}
use ue4team_project_server.Lobby.State as LobbyState
use ue4team_project_server.Lobby.Dispatch as LobbyDispatch

module _ {Db : Type 0} (d : LoginState.Statements Db) where
  -- A login with the password of an account that is not connected.
  pub handle_login_request_lem :
      (now : ℕ) (client : Client) (packet : ByteStream) (c : LoginHandlers.Credentials)
      (a : LoginState.Account) (db : Db) (s : LoginState.Login Db)
      → value_of (LoginHandlers.read_credentials packet) ≡ ok c
      → d.account c.id s.database ≡ (ok (some a), db)
      → c.pw ≡ a.pw
      → a.loggedin ≡ 0
      → LoginHandlers.handle_login_request d now client packet s ≡ (
        ok tt,
        record s {
          database = db;
          sent =
              s.sent
              ++ LoginState.to_intermediate (
                  request_user_migration lobby_server client.uuid
                    (LoginHandlers.session_info client a now))
                ∷ [];
        },
      )
  unfolding LoginHandlers.handle_login_request
  handle_login_request_lem now client packet c a db s read row pw out =
      rw (read, row, (same_text_iff c.pw a.pw).1 pw, out)

module _ {Db : Type 0} where
  -- The answer of the intermediate server reaches the client that asked.
  pub login_answer :
      (stream : ByteStream) (user ip : List ℕ) (port : ℕ) (client : Client)
      (s : LoginState.Login Db)
      → Arrived stream 1 (migrated_bytes user ip port)
      → IsText user
      → IsText ip
      → port < 2 ^ 16
      → LoginState.get_client user s ≡ some client
      → LoginHandlers.process_channel_packet stream s ≡ (
        ok tt,
        record s {
          sent = s.sent ++ LoginState.to_client client.uuid (LoginState.lobby_result ip port) ∷ [];
        },
      )
  unfolding LoginHandlers.process_channel_packet LoginHandlers.react_user_migration
  login_answer stream user ip port client s a u i p found = rw (
    offset_set stream 1 _ a,
    opcode_read stream 1 _ a (omega arith),
    front_read stream 1 _ a read_react_user_migration _ (0 ∷ 0 ∷ []) _
        (migrated-Reads user ip port u i p) joined,
    found,
  )
    where
      joined :
          migrated_bytes user ip port
          ≡ (text_bytes user ++ (text_bytes ip ++ to_bytes 2 port)) ++ 0 ∷ 0 ∷ []
      joined =
          ap (λ m. text_bytes user ++ (text_bytes ip ++ m)) (port_bytes port p)
          ∙ ap (λ m. text_bytes user ++ m)
              (sym (append_assoc (text_bytes ip) (to_bytes 2 port) (0 ∷ 0 ∷ [])))
          ∙ sym (append_assoc (text_bytes user) (text_bytes ip ++ to_bytes 2 port) (0 ∷ 0 ∷ []))

module _ {Db D : Type 0} (f : IntermediateState.Doubles D) (log_out : ℕ → Call Db (Unit {0})) where
  -- A migration to a lobby is told to the server that the load balance names.
  pub request_lem :
      (stream : ByteStream) (user key target : List ℕ) (info : RemoteSessionInfo)
      (client target_client : Client) (s : IntermediateState.Intermediate Db)
      → Arrived stream 2 (migration_bytes lobby_server user info)
      → IsText user
      → IsRemoteSessionInfo info
      → IntermediateState.get_client key s ≡ some client
      → get_server_load_balance f lobby_server s.server_map ≡ ok target
      → IntermediateState.get_client target s ≡ some target_client
      → IntermediateHandlers.process_packet f log_out key stream s ≡ (
        ok tt,
        record s {
          sent =
              s.sent
              ++ (
                target_client.uuid,
                notify_session_authority_info client.uuid user (whole_seconds info),
              )
                ∷ [];
        },
      )
  unfolding IntermediateHandlers.process_packet IntermediateHandlers.handle_request_user_migration
  request_lem stream user key target info client target_client s a u i found chosen there = rw (
    found,
    offset_set stream 2 _ a,
    opcode_read stream 2 _ a (omega arith),
    whole_read stream 2 _ a read_request_user_migration _
        (migration-Reads lobby_server user info (omega arith) u i),
    chosen,
    there,
  )

  -- The reaction of the lobby is told to the server that the client came from.
  pub reaction_lem :
      (stream : ByteStream) (origin user key : List ℕ) (client origin_client : Client)
      (origin_info info : RemoteServerInfo) (s : IntermediateState.Intermediate Db)
      → Arrived stream 3 (route_bytes origin user)
      → IsText origin
      → IsText user
      → IntermediateState.get_client key s ≡ some client
      → find origin s.server_map ≡ some origin_info
      → find client.uuid s.server_map ≡ some info
      → IntermediateState.get_client origin s ≡ some origin_client
      → IntermediateHandlers.process_packet f log_out key stream s ≡ (
        ok tt,
        record s {
          sent = s.sent ++ (origin_client.uuid, react_user_migration user info.ip info.port) ∷ [];
        },
      )
  unfolding IntermediateHandlers.process_packet
      IntermediateHandlers.handle_react_session_authority_info
  reaction_lem stream origin user key client origin_client origin_info info s a o u found known dest
        there =
      rw (
        found,
        offset_set stream 3 _ a,
        opcode_read stream 3 _ a (omega arith),
        whole_read stream 3 _ a read_react_session_authority_info _ (route-Reads origin user o u),
        known,
        dest,
        there,
      )

module _ {Db : Type 0} where
  -- The lobby keeps the authority and reacts.
  pub authority_lem :
      (stream : ByteStream) (server user : List ℕ) (info : RemoteSessionInfo)
      (s : LobbyState.Lobby Db)
      → Arrived stream 0 (authority_bytes server user info)
      → IsText server
      → IsText user
      → IsRemoteSessionInfo info
      → LobbyDispatch.process_channel_packet stream s ≡ (
        ok tt,
        record s {
          authority_map = emplace info.id (whole_seconds info) s.authority_map;
          sent =
              s.sent ++ LobbyState.to_intermediate (react_session_authority_info server user) ∷ [];
        },
      )
  unfolding LobbyDispatch.process_channel_packet LobbyDispatch.notify_session_authority
  authority_lem stream server user info s a o u i = rw (
    offset_set stream 0 _ a,
    opcode_read stream 0 _ a (omega arith),
    whole_read stream 0 _ a read_notify_session_authority_info _
        (authority-Reads server user info o u i),
  )
