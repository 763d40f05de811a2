-- ===== src/Tests/Migrations.antt =====
-- A login server, two lobbies and a client, and the choice between the lobbies.
use ue4team_project_server.Common.{
  ℕ, ◌*◌, ◌/◌, ◌<◌, ◌≡◌, ◌≢◌, refl, List, [], ◌∷◌, ◌++◌, none, some, true, ltb, ok, All, Any, ◌⊎◌,
  text_keys, same_text, length, ◌^◌, arith,
}
use ue4team_project_server.Common.Calls.{Call}
use ue4team_project_server.Common.Keyed.{find, emplace}
use ue4team_project_server.Stream.Bytes.{to_bytes}
use ue4team_project_server.Stream.ByteStream.{ByteStream}
use ue4team_project_server.Stream.InputStream.{read_string}
use ue4team_project_server.Stream.InputStream.Reads.{IsText}
use ue4team_project_server.Server.Client.{Client, new_client}
use ue4team_project_server.Server.RemoteServerInfo.{RemoteServerInfo, get_current_capacity_ratio}
use ue4team_project_server.Server.RemoteSessionInfo.{
  RemoteSessionInfo, IsRemoteSessionInfo, whole_seconds, to_time_t,
}
use ue4team_project_server.Channel.Packets.{
  lobby_server, login_server, value_of, request_user_migration, notify_session_authority_info,
  react_session_authority_info, react_user_migration,
}
use ue4team_project_server.Channel.Packets.Codec.{
  migration_bytes, route_bytes, authority_bytes, migrated_bytes,
}
use ue4team_project_server.Migration.Arrival.{framed, framed-Arrived}
use ue4team_project_server.Migration.Flow.{Channels, Login, login_enters_lobby}
use ue4team_project_server.Login.State as LoginState
use ue4team_project_server.Login.Handlers as LoginHandlers
use ue4team_project_server.Intermediate.State as IntermediateState
use ue4team_project_server.Intermediate.State.{Doubles, Ordered}
use ue4team_project_server.Intermediate.Handlers as IntermediateHandlers
use ue4team_project_server.Intermediate.Balance.{
  get_server_load_balance, get_server_load_balance-least, balance, Best, NotAbove, IsChoice,
}
use ue4team_project_server.Lobby.State as LobbyState
use ue4team_project_server.Lobby.Dispatch as LobbyDispatch
use ue4team_project_server.Lobby.Requests as LobbyRequests
use ue4team_project_server.Lobby.Spec.{let_in}
use ue4team_project_server.Lobby.Quiet.{guest, hall}
use ue4team_project_server.Lobby.State.{Statements}

-- Hundredths, rounded down, in place of doubles.
abbrev hundredths : Doubles ℕ
hundredths = record { divide = λ a b. 100 * a / b; greater = λ a b. ltb b a; first_ratio = 110 }

hundredths-Ordered : Ordered hundredths
hundredths-Ordered = record {
  irreflexive = λ a. ground arith;
  transitive = λ a b c h k. ground arith;
}

abbrev server : ℕ → List ℕ → ℕ → RemoteServerInfo
server type ip current = record {
  server_type = type;
  ip = ip;
  port = 7000;
  max_connection = 100;
  current_connection = current;
}

abbrev servers : List (List ℕ × RemoteServerInfo)
servers =
    (b'l' ∷ [], server login_server (b'1' ∷ []) 0)
    ∷ (b'a' ∷ [], server lobby_server (b'2' ∷ []) 60)
    ∷ (b'b' ∷ [], server lobby_server (b'3' ∷ []) 20)
    ∷ []

get_server_load_balance-least_example :
    (b : Best ℕ) × (get_server_load_balance hundredths lobby_server servers ≡ ok b.uuid)
    × All (NotAbove hundredths lobby_server b.ratio) servers
    × (((b.uuid ≡ []) × (b.ratio ≡ 110))
        ⊎ ((ltb b.ratio 110 ≡ true) × Any (IsChoice hundredths lobby_server b) servers))
get_server_load_balance-least_example =
    get_server_load_balance-least hundredths lobby_server servers hundredths-Ordered (omega arith)

least : get_server_load_balance hundredths lobby_server servers ≡ ok (b'b' ∷ [])
unfolding get_server_load_balance balance get_current_capacity_ratio
least = refl

abbrev home : List ℕ
home = b'h' ∷ []

abbrev account : LoginState.Account
account = record { accid = 9; id = b'm' ∷ b'e' ∷ []; pw = b'p' ∷ []; loggedin = 0 }

abbrev user : Client
user = new_client (b'u' ∷ []) home

abbrev accounts : LoginState.Statements ℕ
accounts = record {
  has_account = λ id db. (ok true, db);
  insert_account = λ id pw db. (ok tt, db);
  account = λ id db. (ok (some account), db);
}

abbrev login_state : LoginState.Login ℕ
login_state = record { client_storage = (b'u' ∷ [], user) ∷ []; database = 0; sent = [] }

abbrev channel : List ℕ → Client
channel uuid = new_client uuid (b'x' ∷ [])

abbrev intermediate : IntermediateState.Intermediate ℕ
intermediate = record {
  client_storage = (b'l' ∷ [], channel (b'l' ∷ [])) ∷ (b'b' ∷ [], channel (b'b' ∷ [])) ∷ [];
  server_map = servers;
  database = 0;
  sent = [];
}

abbrev lobby : LobbyState.Lobby ℕ
lobby = record { client_storage = []; authority_map = []; slot_info = []; database = 0; sent = [] }

servers_known :
    (IntermediateState.get_client (b'l' ∷ []) intermediate ≡ some (channel (b'l' ∷ [])))
    × (find (b'l' ∷ []) servers ≡ some (server login_server (b'1' ∷ []) 0))
    × (IntermediateState.get_client (b'b' ∷ []) intermediate ≡ some (channel (b'b' ∷ [])))
    × (find (b'b' ∷ []) servers ≡ some (server lobby_server (b'3' ∷ []) 20))
unfolding find same_text
servers_known = (refl, refl, refl, refl)

IsText-of : (c : ℕ) → c ≢ 0 → IsText (c ∷ [])
IsText-of c h = (h, tt)

abbrev channels : Channels hundredths intermediate
channels = record {
  login = channel (b'l' ∷ []);
  login_info = server login_server (b'1' ∷ []) 0;
  login_known = servers_known.0;
  login_registered = servers_known.1;
  login_text = IsText-of b'l' (λ e. absurd (omega arith));
  lobby = channel (b'b' ∷ []);
  lobby_info = server lobby_server (b'3' ∷ []) 20;
  lobby_known = servers_known.2;
  lobby_registered = servers_known.3;
  lobby_chosen = least;
  lobby_ip = IsText-of b'3' (λ e. absurd (omega arith));
  lobby_port = omega arith;
}

abbrev request : ByteStream
request = record { memory = b'm' ∷ b'e' ∷ 0 ∷ b'p' ∷ 0 ∷ []; buffer_length = 5; access_offset = 0 }

abbrev credentials : LoginHandlers.Credentials
credentials = record { id = b'm' ∷ b'e' ∷ []; pw = b'p' ∷ [] }

request_read :
    (LoginState.get_client (b'u' ∷ []) login_state ≡ some user)
    × (value_of (LoginHandlers.read_credentials request) ≡ ok credentials)
unfolding find same_text read_string
request_read = (refl, refl)

abbrev entry : RemoteSessionInfo
entry = LoginHandlers.session_info user account 1000

entry-IsRemoteSessionInfo : IsRemoteSessionInfo entry
unfolding to_time_t
entry-IsRemoteSessionInfo = record {
  ip_text = omega arith;
  ip_short = omega arith;
  id_text = omega arith;
  id_short = omega arith;
  time_fits = omega arith;
  accid_fits = omega arith;
  cid_fits = omega arith;
}

abbrev login : Login accounts 1000 request login_state
login = record {
  client = user;
  known = request_read.0;
  uuid_text = IsText-of b'u' (λ e. absurd (omega arith));
  credentials = credentials;
  read = request_read.1;
  account = account;
  database = 0;
  row = refl;
  password = refl;
  logged_out = refl;
  fits = entry-IsRemoteSessionInfo;
}

-- The packets of the run, and a client of the lobby at the same address that confirms.
abbrev bytes_1 : List ℕ
bytes_1 = migration_bytes lobby_server (b'u' ∷ []) entry

abbrev bytes_2 : List ℕ
bytes_2 = authority_bytes (b'l' ∷ []) (b'u' ∷ []) (whole_seconds entry)

abbrev bytes_3 : List ℕ
bytes_3 = route_bytes (b'l' ∷ []) (b'u' ∷ [])

abbrev bytes_4 : List ℕ
bytes_4 = migrated_bytes (b'u' ∷ []) (b'3' ∷ []) 7000

abbrev entrant : Client
entrant = new_client (b'v' ∷ []) home

abbrev confirmation : ByteStream
confirmation = record { memory = b'm' ∷ b'e' ∷ 0 ∷ []; buffer_length = 3; access_offset = 0 }

confirms :
    (value_of (read_string confirmation) ≡ ok (b'm' ∷ b'e' ∷ []))
    × (find (b'm' ∷ b'e' ∷ []) lobby.authority_map ≡ none)
unfolding read_string find
confirms = (refl, refl)

lengths :
    (length bytes_1 < 2 ^ 63)
    × (length bytes_2 < 2 ^ 63)
    × (length bytes_3 < 2 ^ 63)
    × (length bytes_4 < 2 ^ 63)
unfolding to_bytes
lengths = (omega arith, omega arith, omega arith, omega arith)

abbrev silent : Statements ℕ
silent = record {
  insert_character = λ accid info db. (ok tt, db);
  cid_of_name = λ name db. (ok none, db);
  insert_item = λ cid accid itemid db. (ok tt, db);
  delete_character = λ cid db. (ok tt, db);
  cids_of_account = λ accid db. (ok [], db);
  character = λ cid db. (ok none, db);
  equipped_items = λ cid db. (ok [], db);
}

abbrev log_out : ℕ → Call ℕ (Unit {0})
log_out accid db = (ok tt, db)

abbrev at_login : LoginState.Login ℕ
at_login = record login_state {
  sent = LoginState.to_intermediate (request_user_migration lobby_server (b'u' ∷ []) entry) ∷ [];
}

abbrev at_intermediate : IntermediateState.Intermediate ℕ
at_intermediate = record intermediate {
  sent =
      (b'b' ∷ [], notify_session_authority_info (b'l' ∷ []) (b'u' ∷ []) (whole_seconds entry)) ∷ [];
}

abbrev arrived : RemoteSessionInfo
arrived = whole_seconds (whole_seconds entry)

abbrev at_lobby : LobbyState.Lobby ℕ
at_lobby = record lobby {
  authority_map = emplace (b'm' ∷ b'e' ∷ []) arrived [];
  sent = LobbyState.to_intermediate (react_session_authority_info (b'l' ∷ []) (b'u' ∷ [])) ∷ [];
}

login_enters_lobby_example :
    (LoginHandlers.handle_login_request accounts 1000 user request login_state ≡ (ok tt, at_login))
    × (IntermediateHandlers.process_packet hundredths log_out
          (b'l' ∷ [])
          (framed (to_bytes 2 2 ++ bytes_1))
          intermediate
        ≡ (ok tt, at_intermediate))
    × (LobbyDispatch.process_channel_packet (framed (to_bytes 2 0 ++ bytes_2)) lobby
        ≡ (ok tt, at_lobby))
    × (IntermediateHandlers.process_packet hundredths log_out
          (b'b' ∷ [])
          (framed (to_bytes 2 3 ++ bytes_3))
          at_intermediate
        ≡ (
          ok tt,
          record at_intermediate {
            sent =
                at_intermediate.sent
                ++ (b'l' ∷ [], react_user_migration (b'u' ∷ []) (b'3' ∷ []) 7000) ∷ [];
          },
        ))
    × (LoginHandlers.process_channel_packet (framed (to_bytes 2 1 ++ bytes_4)) at_login ≡ (
      ok tt,
      record at_login {
        sent =
            at_login.sent
            ++ LoginState.to_client (b'u' ∷ []) (LoginState.lobby_result (b'3' ∷ []) 7000) ∷ [];
      },
    ))
    × (let t = hall (LobbyRequests.handle_confirm_request silent entrant confirmation at_lobby).1 in
        (t.guests (b'v' ∷ []) ≡ some (let_in (guest entrant) (b'm' ∷ b'e' ∷ []) arrived))
        × (t.tickets (b'm' ∷ b'e' ∷ []) ≡ none))
login_enters_lobby_example =
    login_enters_lobby accounts hundredths log_out silent 1000 request
      (framed (to_bytes 2 2 ++ bytes_1)) (framed (to_bytes 2 0 ++ bytes_2))
      (framed (to_bytes 2 3 ++ bytes_3)) (framed (to_bytes 2 1 ++ bytes_4)) confirmation login_state
      intermediate lobby login channels (framed-Arrived 2 bytes_1 lengths.0)
      (framed-Arrived 0 bytes_2 lengths.1) (framed-Arrived 3 bytes_3 lengths.2)
      (framed-Arrived 1 bytes_4 lengths.3) confirms.1 entrant confirms.0 refl
