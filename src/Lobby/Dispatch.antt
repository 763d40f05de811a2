-- ===== src/Lobby/Dispatch.antt =====
-- UE4LobbyServer/LobbyServer.cpp: what the sessions of the clients, and the session to the intermediate
-- server, call.
use ue4team_project_server.Common.{
  ℕ, List, Option, none, some, ◌==◌, if◌then◌else◌, throw, null_pointer, text_keys,
}
use ue4team_project_server.Common.Calls.{Call, ◌>>=◌, ◌>>◌, return, get, modify, lift, catch}
use ue4team_project_server.Common.Keyed.{find, emplace, assign, erase}
use ue4team_project_server.Stream.ByteStream.{ByteStream, set_access_offset}
use ue4team_project_server.Stream.InputStream.{read_int16}
use ue4team_project_server.Server.Client
use ue4team_project_server.Server.Client.{Client, new_client, set_state, in_state}
use ue4team_project_server.Channel.Packets.{
  Authority, Migrated, read_notify_session_authority_info, read_react_user_migration,
  react_session_authority_info, notify_user_logout,
}
use ue4team_project_server.Lobby.State.{
  not_confirm, confirm, migrate_zone_notify, to_client, to_intermediate, Lobby, Statements, send,
}
use ue4team_project_server.Lobby.Requests.{
  receive, handle_confirm_request, handle_character_list_request, handle_character_create_request,
  handle_character_delete_request, handle_character_select_request,
}

-- ENetworkCSOpcode
pub data Opcode : Type 0 where
  lobby_confirm_request character_list_request character_create_request : Opcode
  character_delete_request character_selection_request other : Opcode

abbrev pub opcode_of : ℕ → Opcode
opcode_of n =
    if n == 100
    then lobby_confirm_request
    else if n == 101
    then character_list_request
    else if n == 102
    then character_create_request
    else if n == 103
    then character_delete_request
    else if n == 104
    then character_selection_request
    else other

module _ {Db : Type 0} where
  unfoldable pub get_client : List ℕ → Lobby Db → Option Client
  get_client key s = find key s.client_storage

  -- `uuid` is the UUID that the client's constructor generates; it becomes the session's key.
  unfoldable pub on_active : List ℕ → List ℕ → Lobby Db → Lobby Db
  on_active uuid remote_address s = record s {
    client_storage =
        emplace uuid (set_state not_confirm (new_client uuid remote_address)) s.client_storage;
  }

  abbrev pub log_out : Option Client → Call (Lobby Db) (Unit {0})
  log_out none = return tt
  log_out (some client) =
      if in_state confirm client.state
      then send (to_intermediate (notify_user_logout client.accid))
      else return tt

  unfoldable pub on_close : List ℕ → Call (Lobby Db) (Unit {0})
  on_close key s =
      log_out (get_client key s) (record s { client_storage = erase key s.client_storage })

  -- `client->Close()` on the object that the storage shares.
  abbrev pub close_found : List ℕ → Option Client → Lobby Db → Lobby Db
  close_found uuid none s = s
  close_found uuid (some c) s = record s {
    client_storage = assign uuid (Client.close c) s.client_storage;
  }

  abbrev pub close_stored : Client → Lobby Db → Lobby Db
  close_stored client s = close_found client.uuid (get_client client.uuid s) s

  abbrev pub told_of : Authority → Call (Lobby Db) (Unit {0})
  told_of a = do
    modify (λ s. record s { authority_map = emplace a.info.id a.info s.authority_map })
    send (to_intermediate (react_session_authority_info a.route.server_uuid a.route.user_uuid))

  unfoldable pub notify_session_authority : ByteStream → Call (Lobby Db) (Unit {0})
  notify_session_authority packet = do
    a ← receive read_notify_session_authority_info packet
    told_of a

  abbrev pub tell_zone : Migrated → Option Client → Call (Lobby Db) (Unit {0})
  tell_zone m none = return tt
  tell_zone m (some client) = send (to_client client.uuid (migrate_zone_notify m.ip m.port))

  abbrev pub zone_told : Migrated → Call (Lobby Db) (Unit {0})
  zone_told m = do s ← get; tell_zone m (get_client m.user_uuid s)

  unfoldable pub react_user_migration : ByteStream → Call (Lobby Db) (Unit {0})
  react_user_migration packet = do m ← receive read_react_user_migration packet; zone_told m

  abbrev pub bound : ℕ × ByteStream → Call (Lobby Db) (Unit {0})
  bound (opcode, packet) =
      if opcode == 0
      then notify_session_authority packet
      else if opcode == 1
      then react_user_migration packet
      else return tt

  abbrev pub opened_in : ByteStream → Call (Lobby Db) (Unit {0})
  opened_in body = catch (do opened ← lift (read_int16 body); bound opened) (λ s. s)

  -- UE4IntermediateHandler::ProcessPacket with the functions that Initialize binds.
  unfoldable pub process_channel_packet : ByteStream → Call (Lobby Db) (Unit {0})
  process_channel_packet packet = do body ← lift (set_access_offset 2 packet); opened_in body

module _ {Db : Type 0} (d : Statements Db) where
  abbrev pub handle : ℕ → Client → Opcode → ByteStream → Call (Lobby Db) (Unit {0})
  handle now client lobby_confirm_request packet = handle_confirm_request d client packet
  handle now client character_list_request packet = handle_character_list_request d client packet
  handle now client character_create_request packet =
      handle_character_create_request d client packet
  handle now client character_delete_request packet =
      handle_character_delete_request d client packet
  handle now client character_selection_request packet =
      handle_character_select_request d now client packet
  handle now client other packet = return tt

  abbrev pub open_packet : ℕ → Client → ℕ × ByteStream → Call (Lobby Db) (Unit {0})
  open_packet now client (opcode, packet) = handle now client (opcode_of opcode) packet

  abbrev pub process_for : ℕ → Option Client → ByteStream → Call (Lobby Db) (Unit {0})
  process_for now none packet = lift (throw null_pointer)
  process_for now (some client) packet = do
    body ← lift (set_access_offset 2 packet)
    catch (do opened ← lift (read_int16 body); open_packet now client opened) (close_stored client)

  unfoldable pub process_packet : ℕ → List ℕ → ByteStream → Call (Lobby Db) (Unit {0})
  process_packet now key packet = do s ← get; process_for now (get_client key s) packet
