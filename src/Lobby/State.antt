-- ===== src/Lobby/State.antt =====
-- UE4LobbyServer/LobbyServer.hpp: what the lobby keeps, and what it hands to its sessions and to the
-- database.
use ue4team_project_server.Common.{ℕ, List, [], ◌∷◌, ◌++◌, Option, Result, replicate, text_keys}
use ue4team_project_server.Common.Calls.{Call, modify}
use ue4team_project_server.Common.Keyed.{emplace, assign}
use ue4team_project_server.Server.Client.{Client}
use ue4team_project_server.Server.Client
use ue4team_project_server.Server.RemoteSessionInfo.{RemoteSessionInfo}
use ue4team_project_server.Channel.Packets.{ToIntermediate}
use ue4team_project_server.Lobby.CharacterInfo.{LobbyCharacterInfo}

abbrev pub slot_size : ℕ
slot_size = 5

-- LobbyServer::ClientState
abbrev pub not_confirm : ℕ
not_confirm = 0

abbrev pub confirm : ℕ
confirm = 1

abbrev pub reserve_to_migrate : ℕ
reserve_to_migrate = 2

-- -1 as an int32, which stands for a slot without a character.
abbrev pub no_cid : ℕ
no_cid = 0xffffffff

-- What the lobby sends to a client. `none` is the -1 of a character that was not made; a list has the
-- number that is written in front of it.
pub data ToClient : Type 0 where
  create_notify : Option LobbyCharacterInfo → ToClient
  delete_notify : ℕ → ToClient
  list_notify : ℕ → List LobbyCharacterInfo → ToClient
  migrate_zone_notify : List ℕ → ℕ → ToClient

-- A call of Session::Send, with the UUID of the client whose session it is.
pub data Sent : Type 0 where
  to_client : List ℕ → ToClient → Sent
  to_intermediate : ToIntermediate → Sent

-- `slot_info` has the cids of a client's slots. `database` is the database behind the connections of
-- the pool.
pub record Lobby (Db : Type 0) : Type 0 where
  pub client_storage : List (List ℕ × Client)
  pub authority_map : List (List ℕ × RemoteSessionInfo)
  pub slot_info : List (List ℕ × List ℕ)
  pub database : Db
  pub sent : List Sent

-- The prepared statements that the lobby executes; each may throw. `character` is the row of a cid,
-- with the columns that the row does not have left as the constructor of the struct sets them.
pub record Statements (Db : Type 0) : Type 0 where
  pub insert_character : ℕ → LobbyCharacterInfo → Call Db (Unit {0})
  pub cid_of_name : List ℕ → Call Db (Option ℕ)
  pub insert_item : ℕ → ℕ → ℕ → Call Db (Unit {0})
  pub delete_character : ℕ → Call Db (Unit {0})
  pub cids_of_account : ℕ → Call Db (List ℕ)
  pub character : ℕ → Call Db (Option LobbyCharacterInfo)
  pub equipped_items : ℕ → Call Db (List ℕ)

-- The array that `operator[]` makes where there is none.
abbrev pub zero_slots : List ℕ
zero_slots = replicate slot_size 0

module _ {Db : Type 0} where
  abbrev pub on_database : {A : Type 0} → Result A × Db → Lobby Db → Result A × Lobby Db
  on_database (result, database) s = (result, record s { database = database })

  abbrev pub execute : {A : Type 0} → Call Db A → Call (Lobby Db) A
  execute statement s = on_database (statement s.database) s

  abbrev pub send : Sent → Call (Lobby Db) (Unit {0})
  send packet = modify λ s. record s { sent = s.sent ++ packet ∷ [] }

  -- The client object is shared with the storage.
  abbrev pub put_client : Client → Call (Lobby Db) (Unit {0})
  put_client client =
      modify λ s. record s { client_storage = assign client.uuid client s.client_storage }

  abbrev pub close_client : Client → Call (Lobby Db) (Unit {0})
  close_client client = put_client (Client.close client)

  abbrev pub touch_slots : List ℕ → Call (Lobby Db) (Unit {0})
  touch_slots uuid = modify λ s. record s { slot_info = emplace uuid zero_slots s.slot_info }

  abbrev pub put_slots : List ℕ → List ℕ → Call (Lobby Db) (Unit {0})
  put_slots uuid slots = modify λ s. record s { slot_info = assign uuid slots s.slot_info }
