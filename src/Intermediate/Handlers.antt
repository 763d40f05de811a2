-- ===== src/Intermediate/Handlers.antt =====
-- UE4IntermediateServer/IntermediateServer.cpp: what the sessions of the servers call. A handler is given the
-- client of the session and the packet behind its opcode. Locks are left out: a call runs alone.
use ue4team_project_server.Common.{
  ℕ, ◌^◌, Bool, ◌||◌, List, Option, none, some, leb, ◌==◌, if◌then◌else◌, signed, is_negative, to_ℕ,
  Result, throw, null_pointer, text_keys,
}
use ue4team_project_server.Common.Calls.{Call, ◌>>=◌, return, get, modify, lift, catch}
use ue4team_project_server.Common.Keyed.{find, emplace, assign, erase}
use ue4team_project_server.Stream.ByteStream.{ByteStream, set_access_offset}
use ue4team_project_server.Stream.InputStream.{Reader, read_int16, read_int32, read_int64}
use ue4team_project_server.Server.Client.{Client, new_client}
use ue4team_project_server.Server.RemoteServerInfo.{RemoteServerInfo, read_server_info}
use ue4team_project_server.Channel.Packets.{
  server_count, Migration, Route, read_request_user_migration, read_react_session_authority_info,
  notify_session_authority_info, react_user_migration, value_of,
}
use ue4team_project_server.Intermediate.State.{Intermediate, Doubles, send, get_client}
use ue4team_project_server.Intermediate.Balance.{get_server_load_balance}

-- type < kLoginServer || type >= kCount, of an int16
abbrev pub is_no_type : ℕ → Bool
is_no_type type = let z = signed (2 ^ 15) type in is_negative z || leb server_count (to_ℕ z)

module _ {Db : Type 0} where
  abbrev pub receive : {A : Type 0} → Reader A → ByteStream → Call (Intermediate Db) A
  receive reader packet = lift (value_of (reader packet))

  unfoldable pub on_active : List ℕ → List ℕ → Intermediate Db → Intermediate Db
  on_active uuid remote_address s = record s {
    client_storage = emplace uuid (new_client uuid remote_address) s.client_storage;
  }

  abbrev pub forget : Option Client → Intermediate Db → Intermediate Db
  forget none s = s
  forget (some client) s = record s { server_map = erase client.uuid s.server_map }

  unfoldable pub on_close : List ℕ → Intermediate Db → Intermediate Db
  on_close key s =
      forget (get_client key s) (record s { client_storage = erase key s.client_storage })

  unfoldable pub handle_register_server : Client → ByteStream → Call (Intermediate Db) (Unit {0})
  handle_register_server client packet = do
    info ← receive read_server_info packet
    modify (λ s. record s { server_map = emplace client.uuid info s.server_map })

  abbrev pub set_current_connection :
      List ℕ → ℕ → Option RemoteServerInfo → Intermediate Db → Intermediate Db
  set_current_connection uuid current none s = s
  set_current_connection uuid current (some info) s = record s {
    server_map = assign uuid (record info { current_connection = current }) s.server_map;
  }

  unfoldable pub update_server_connection : Client → ByteStream → Call (Intermediate Db) (Unit {0})
  update_server_connection client packet = do
    current ← receive read_int64 packet
    modify λ s. set_current_connection client.uuid current (find client.uuid s.server_map) s

  abbrev pub notify_target : Client → Migration → Option Client → Call (Intermediate Db) (Unit {0})
  notify_target client m none = return tt
  notify_target client m (some target) =
      send target.uuid (notify_session_authority_info client.uuid m.user_uuid m.info)

  abbrev pub migrate :
      {D : Type 0} → Doubles D → Client → Migration → Call (Intermediate Db) (Unit {0})
  migrate f client m = if is_no_type m.server_type then return tt else (do
    s ← get
    uuid ← lift (get_server_load_balance f m.server_type s.server_map)
    notify_target client m (get_client uuid s))

  unfoldable pub handle_request_user_migration :
      {D : Type 0} → Doubles D → Client → ByteStream → Call (Intermediate Db) (Unit {0})
  handle_request_user_migration f client packet = do
    m ← receive read_request_user_migration packet
    migrate f client m

  abbrev pub tell_origin :
      Route
      → Option RemoteServerInfo
      → Option RemoteServerInfo
      → Option Client
      → Call (Intermediate Db) (Unit {0})
  tell_origin r none dest origin_client = return tt
  tell_origin r (some origin) none origin_client = return tt
  tell_origin r (some origin) (some dest) none = return tt
  tell_origin r (some origin) (some dest) (some origin_client) =
      send origin_client.uuid (react_user_migration r.user_uuid dest.ip dest.port)

  abbrev pub route : Client → Route → Call (Intermediate Db) (Unit {0})
  route client r = do
    s ← get
    tell_origin r (find r.server_uuid s.server_map) (find client.uuid s.server_map)
        (get_client r.server_uuid s)

  unfoldable pub handle_react_session_authority_info :
      Client → ByteStream → Call (Intermediate Db) (Unit {0})
  handle_react_session_authority_info client packet = do
    r ← receive read_react_session_authority_info packet
    route client r

  abbrev pub on_database :
      Result (Unit {0}) × Db → Intermediate Db → Result (Unit {0}) × Intermediate Db
  on_database (result, database) s = (result, record s { database = database })

  -- `log_out` executes the update of the account's row.
  unfoldable pub handle_notify_user_logout :
      (ℕ → Call Db (Unit {0})) → Client → ByteStream → Call (Intermediate Db) (Unit {0})
  handle_notify_user_logout log_out client packet = do
    accid ← receive read_int32 packet
    (λ s. on_database (log_out accid s.database) s)

module _ {Db D : Type 0} (f : Doubles D) (log_out : ℕ → Call Db (Unit {0})) where
  abbrev pub dispatch : Client → ℕ × ByteStream → Call (Intermediate Db) (Unit {0})
  dispatch client (opcode, packet) =
      if opcode == 0
      then handle_register_server client packet
      else if opcode == 1
      then update_server_connection client packet
      else if opcode == 2
      then handle_request_user_migration f client packet
      else if opcode == 3
      then handle_react_session_authority_info client packet
      else if opcode == 4
      then handle_notify_user_logout log_out client packet
      else return tt

  abbrev pub process_for : Option Client → ByteStream → Call (Intermediate Db) (Unit {0})
  process_for none packet = lift (throw null_pointer)
  process_for (some client) packet = do
    body ← lift (set_access_offset 2 packet)
    catch (do opened ← lift (read_int16 body); dispatch client opened) (λ s. s)

  unfoldable pub process_packet : List ℕ → ByteStream → Call (Intermediate Db) (Unit {0})
  process_packet key packet = do s ← get; process_for (get_client key s) packet
