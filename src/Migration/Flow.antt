-- ===== src/Migration/Flow.antt =====
-- A login, up to the client's entry into the lobby.
use ue4team_project_server.Common.{
  ℕ, ◌^◌, ◌<◌, ◌≡◌, ◌∙◌, [], ◌∷◌, ◌++◌, none, some, ok, text_keys, same_refl,
}
use ue4team_project_server.Common.Calls.{Call}
use ue4team_project_server.Common.Keyed.{find, emplace, find-emplace}
use ue4team_project_server.Stream.ByteStream.{ByteStream}
use ue4team_project_server.Stream.InputStream.{read_string}
use ue4team_project_server.Stream.InputStream.Reads.{IsText}
use ue4team_project_server.Server.Client.{Client}
use ue4team_project_server.Server.RemoteServerInfo.{RemoteServerInfo}
use ue4team_project_server.Server.RemoteSessionInfo.{
  RemoteSessionInfo, IsRemoteSessionInfo, whole_seconds, whole_seconds-IsRemoteSessionInfo,
}
use ue4team_project_server.Channel.Packets.{
  lobby_server, request_user_migration, react_session_authority_info, notify_session_authority_info,
  react_user_migration, value_of,
}
use ue4team_project_server.Channel.Packets.Codec.{
  migration_bytes, route_bytes, authority_bytes, migrated_bytes,
}
use ue4team_project_server.Migration.Arrival.{Arrived}
use ue4team_project_server.Migration.Calls.{
  handle_login_request_lem, login_answer, request_lem, reaction_lem, authority_lem,
}
use ue4team_project_server.Login.State as LoginState
use ue4team_project_server.Login.Handlers as LoginHandlers
use ue4team_project_server.Intermediate.State as IntermediateState
use ue4team_project_server.Intermediate.Handlers as IntermediateHandlers
use ue4team_project_server.Intermediate.Balance.{get_server_load_balance}
use ue4team_project_server.Lobby.State as LobbyState
use ue4team_project_server.Lobby.Dispatch as LobbyDispatch
use ue4team_project_server.Lobby.Requests as LobbyRequests
use ue4team_project_server.Lobby.Spec.{let_in}
use ue4team_project_server.Lobby.Quiet.{guest, hall}
use ue4team_project_server.Lobby.Entry.{confirm-admits}

-- The login server and a lobby as the intermediate server knows them, the lobby being the one that the load
-- balance names.
pub record Channels {Db D : Type 0} (f : IntermediateState.Doubles D)
    (s : IntermediateState.Intermediate Db) : Type 0 where
  pub login : Client
  pub login_info : RemoteServerInfo
  pub login_known : IntermediateState.get_client login.uuid s ≡ some login
  pub login_registered : find login.uuid s.server_map ≡ some login_info
  pub login_text : IsText login.uuid
  pub lobby : Client
  pub lobby_info : RemoteServerInfo
  pub lobby_known : IntermediateState.get_client lobby.uuid s ≡ some lobby
  pub lobby_registered : find lobby.uuid s.server_map ≡ some lobby_info
  pub lobby_chosen : get_server_load_balance f lobby_server s.server_map ≡ ok lobby.uuid
  pub lobby_ip : IsText lobby_info.ip
  pub lobby_port : lobby_info.port < 2 ^ 16

-- A login that the database accepts, from a client that the login server knows.
pub record Login {Db : Type 0} (d : LoginState.Statements Db) (now : ℕ) (request : ByteStream)
    (s : LoginState.Login Db) : Type 0 where
  pub client : Client
  pub known : LoginState.get_client client.uuid s ≡ some client
  pub uuid_text : IsText client.uuid
  pub credentials : LoginHandlers.Credentials
  pub read : value_of (LoginHandlers.read_credentials request) ≡ ok credentials
  pub account : LoginState.Account
  pub database : Db
  pub row : d.account credentials.id s.database ≡ (ok (some account), database)
  pub password : credentials.pw ≡ account.pw
  pub logged_out : account.loggedin ≡ 0
  pub fits : IsRemoteSessionInfo (LoginHandlers.session_info client account now)

module _ {Dl Di Dd D : Type 0} (dl : LoginState.Statements Dl) (f : IntermediateState.Doubles D)
    (log_out : ℕ → Call Di (Unit {0})) (dd : LobbyState.Statements Dd) (now : ℕ)
    (request migration notice reaction answer confirmation : ByteStream) (s : LoginState.Login Dl)
    (i : IntermediateState.Intermediate Di) (b : LobbyState.Lobby Dd) (l : Login dl now request s)
    (c : Channels f i) where
  -- the authority as the login server writes it, and as the two servers behind it read it
  abbrev pub written : RemoteSessionInfo
  written = LoginHandlers.session_info (l.client) (l.account) now

  abbrev pub passed : RemoteSessionInfo
  passed = whole_seconds written

  abbrev pub logged_in : LoginState.Login Dl
  logged_in = record s {
    database = l.database;
    sent =
        s.sent
        ++ LoginState.to_intermediate (request_user_migration lobby_server (l.client.uuid) written)
          ∷ [];
  }

  abbrev pub asked : IntermediateState.Intermediate Di
  asked = record i {
    sent =
        i.sent
        ++ (c.lobby.uuid, notify_session_authority_info (c.login.uuid) (l.client.uuid) passed) ∷ [];
  }

  abbrev pub informed : LobbyState.Lobby Dd
  informed = record b {
    authority_map = emplace (l.account.id) (whole_seconds passed) b.authority_map;
    sent =
        b.sent
        ++ LobbyState.to_intermediate (react_session_authority_info (c.login.uuid) (l.client.uuid))
          ∷ [];
  }

  -- An accepted login, with a lobby that the load balance names, where each packet arrives at the next server
  -- as it was written and the lobby has no authority of the id waiting. The login server asks for the
  -- migration; the intermediate server tells the lobby of the authority; the lobby keeps it, with its time cut
  -- to whole seconds, and reacts; the intermediate server names the address and the port of that lobby to the
  -- login server; and that server tells them to the client. A client of the lobby that then confirms the id
  -- from the same address is let in as that account, and the authority is used up.
  pub login_enters_lobby :
      Arrived migration 2 (migration_bytes lobby_server (l.client.uuid) written)
      → Arrived notice 0 (authority_bytes (c.login.uuid) (l.client.uuid) passed)
      → Arrived reaction 3 (route_bytes (c.login.uuid) (l.client.uuid))
      → Arrived answer 1 (migrated_bytes (l.client.uuid) (c.lobby_info.ip) (c.lobby_info.port))
      → find (l.account.id) b.authority_map ≡ none
      → (entrant : Client) → value_of (read_string confirmation) ≡ ok (l.account.id)
      → l.client.remote_address ≡ entrant.remote_address
      → (LoginHandlers.handle_login_request dl now (l.client) request s ≡ (ok tt, logged_in))
        × (IntermediateHandlers.process_packet f log_out (c.login.uuid) migration i
            ≡ (ok tt, asked))
        × (LobbyDispatch.process_channel_packet notice b ≡ (ok tt, informed))
        × (IntermediateHandlers.process_packet f log_out (c.lobby.uuid) reaction asked ≡ (
          ok tt,
          record asked {
            sent =
                asked.sent
                ++ (
                  c.login.uuid,
                  react_user_migration (l.client.uuid) (c.lobby_info.ip) (c.lobby_info.port),
                )
                  ∷ [];
          },
        ))
        × (LoginHandlers.process_channel_packet answer logged_in ≡ (
          ok tt,
          record logged_in {
            sent =
                logged_in.sent
                ++ LoginState.to_client
                    (l.client.uuid)
                    (LoginState.lobby_result (c.lobby_info.ip) (c.lobby_info.port))
                  ∷ [];
          },
        ))
        × (let t = hall (LobbyRequests.handle_confirm_request dd entrant confirmation informed).1 in
            (t.guests entrant.uuid
              ≡ some (let_in (guest entrant) (l.account.id) (whole_seconds passed)))
            × (t.tickets (l.account.id) ≡ none))
  login_enters_lobby a1 a2 a3 a4 none_waits entrant confirms same_address =
      let fits = whole_seconds-IsRemoteSessionInfo written (l.fits) in
      (
        handle_login_request_lem dl now (l.client) request (l.credentials) (l.account) (l.database)
            s (l.read) (l.row) (l.password) (l.logged_out),
        request_lem f log_out migration (l.client.uuid) (c.login.uuid) (c.lobby.uuid) written
            (c.login) (c.lobby) i a1 (l.uuid_text) (l.fits) (c.login_known) (c.lobby_chosen)
            (c.lobby_known),
        authority_lem notice (c.login.uuid) (l.client.uuid) passed b a2 (c.login_text) (l.uuid_text)
            fits,
        reaction_lem f log_out reaction (c.login.uuid) (l.client.uuid) (c.lobby.uuid) (c.lobby)
            (c.login) (c.login_info) (c.lobby_info) asked a3 (c.login_text) (l.uuid_text)
            (c.lobby_known) (c.login_registered) (c.lobby_registered) (c.login_known),
        login_answer answer (l.client.uuid) (c.lobby_info.ip) (c.lobby_info.port) (l.client)
            logged_in a4 (l.uuid_text) (c.lobby_ip) (c.lobby_port) (l.known),
        confirm-admits dd entrant informed confirmation (l.account.id) (whole_seconds passed)
            confirms waiting same_address,
      )
    where
      waiting : find (l.account.id) informed.authority_map ≡ some (whole_seconds passed)
      waiting =
          find-emplace (l.account.id) (whole_seconds passed) b.authority_map (l.account.id)
          ∙ rw (same_refl (l.account.id), none_waits)
