-- ===== src/Login/Handlers.antt =====
-- UE4LoginServer/LoginServer.cpp: what the sessions of the clients, and the session to the intermediate
-- server, call. Locks are left out: a call runs alone.
use ue4team_project_server.Common.{
  ℕ, Bool, not, List, Option, none, some, ◌==◌, if◌then◌else◌, throw, null_pointer, same_text,
  text_keys,
}
use ue4team_project_server.Common.Calls.{Call, ◌>>=◌, ◌>>◌, return, get, lift, catch}
use ue4team_project_server.Common.Keyed.{emplace, erase}
use ue4team_project_server.Stream.ByteStream.{ByteStream, set_access_offset}
use ue4team_project_server.Stream.InputStream.{Reader, read_int16, read_string, pure}
use ue4team_project_server.Stream.InputStream.{◌>>=◌ as and_read}
use ue4team_project_server.Server.Client.{Client, new_client}
use ue4team_project_server.Server.RemoteSessionInfo.{RemoteSessionInfo}
use ue4team_project_server.Channel.Packets.{
  lobby_server, Migrated, read_react_user_migration, request_user_migration, value_of,
}
use ue4team_project_server.Login.State.{
  create_account_result, login_result, lobby_result, to_client, to_intermediate, Login, Account,
  Statements, execute, send, get_client, close_client,
}

-- What both requests read.
pub record Credentials : Type 0 where
  pub id : List ℕ
  pub pw : List ℕ

abbrev pub read_credentials : Reader Credentials
read_credentials =
    and_read read_string λ id. and_read read_string λ pw. pure (record { id = id; pw = pw })

-- -1 as an int32, what the constructor of the session's entry sets.
abbrev pub no_cid : ℕ
no_cid = 0xffffffff

abbrev pub session_info : Client → Account → ℕ → RemoteSessionInfo
session_info client a now = record {
  ip = client.remote_address;
  id = a.id;
  time = now;
  accid = a.accid;
  cid = no_cid;
}

module _ {Db : Type 0} where
  abbrev pub receive : {A : Type 0} → Reader A → ByteStream → Call (Login Db) A
  receive reader packet = lift (value_of (reader packet))

  unfoldable pub on_active : List ℕ → List ℕ → Login Db → Login Db
  on_active uuid remote_address s = record s {
    client_storage = emplace uuid (new_client uuid remote_address) s.client_storage;
  }

  unfoldable pub on_close : List ℕ → Login Db → Login Db
  on_close key s = record s { client_storage = erase key s.client_storage }

  abbrev pub tell_lobby : Migrated → Option Client → Call (Login Db) (Unit {0})
  tell_lobby m none = return tt
  tell_lobby m (some client) = send (to_client client.uuid (lobby_result m.ip m.port))

  unfoldable pub react_user_migration : ByteStream → Call (Login Db) (Unit {0})
  react_user_migration packet = do
    m ← receive read_react_user_migration packet
    s ← get
    tell_lobby m (get_client m.user_uuid s)

  abbrev pub bound : ℕ × ByteStream → Call (Login Db) (Unit {0})
  bound (opcode, packet) = if opcode == 1 then react_user_migration packet else return tt

  -- UE4IntermediateHandler::ProcessPacket with the function that Initialize binds.
  unfoldable pub process_channel_packet : ByteStream → Call (Login Db) (Unit {0})
  process_channel_packet packet = do
    body ← lift (set_access_offset 2 packet)
    catch (do opened ← lift (read_int16 body); bound opened) (λ s. s)

module _ {Db : Type 0} (d : Statements Db) where
  abbrev pub insert_new : Client → Credentials → Bool → Call (Login Db) (Unit {0})
  insert_new client c known = do
    (if known then return tt else execute (d.insert_account c.id c.pw))
    send (to_client client.uuid (create_account_result (not known)))

  -- An exception of the database is printed, and the client is told nothing.
  unfoldable pub handle_create_account_request : Client → ByteStream → Call (Login Db) (Unit {0})
  handle_create_account_request client packet = do
    c ← receive read_credentials packet
    catch (do known ← execute (d.has_account c.id); insert_new client c known) (λ s. s)

  abbrev pub admit : ℕ → Client → Account → Call (Login Db) (Unit {0})
  admit now client a =
      if a.loggedin == 0
      then send (
          to_intermediate
            (request_user_migration lobby_server client.uuid (session_info client a now)))
      else send (to_client client.uuid (login_result 2))

  abbrev pub check : ℕ → Client → List ℕ → Option Account → Call (Login Db) (Unit {0})
  check now client pw none = send (to_client client.uuid (login_result 0))
  check now client pw (some a) =
      if same_text pw a.pw
      then admit now client a
      else send (to_client client.uuid (login_result 0))

  -- `now` is the time of the clock in the new RemoteSessionInfo.
  unfoldable pub handle_login_request : ℕ → Client → ByteStream → Call (Login Db) (Unit {0})
  handle_login_request now client packet = do
    c ← receive read_credentials packet
    a ← execute (d.account c.id)
    check now client c.pw a

  abbrev pub dispatch : ℕ → Client → ℕ × ByteStream → Call (Login Db) (Unit {0})
  dispatch now client (opcode, packet) =
      if opcode == 0
      then handle_create_account_request client packet
      else if opcode == 1
      then handle_login_request now client packet
      else return tt

  abbrev pub process_for : ℕ → Option Client → ByteStream → Call (Login Db) (Unit {0})
  process_for now none packet = lift (throw null_pointer)
  process_for now (some client) packet = do
    body ← lift (set_access_offset 2 packet)
    catch (do opened ← lift (read_int16 body); dispatch now client opened) (close_client client)

  unfoldable pub process_packet : ℕ → List ℕ → ByteStream → Call (Login Db) (Unit {0})
  process_packet now key packet = do s ← get; process_for now (get_client key s) packet
