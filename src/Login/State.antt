-- ===== src/Login/State.antt =====
-- UE4LoginServer/LoginServer.hpp: what the login server keeps, and what it hands to its sessions and to the
-- database.
use ue4team_project_server.Common.{ℕ, Bool, List, [], ◌∷◌, ◌++◌, Option, Result, text_keys}
use ue4team_project_server.Common.Calls.{Call, modify}
use ue4team_project_server.Common.Keyed.{find, assign}
use ue4team_project_server.Server.Client
use ue4team_project_server.Server.Client.{Client}
use ue4team_project_server.Channel.Packets.{ToIntermediate}

-- What is sent to a client: whether an account was made; 0 for a wrong id or password and 2 for an account
-- that is connected; or 1 with the address and the port of a lobby.
pub data ToClient : Type 0 where
  create_account_result : Bool → ToClient
  login_result : ℕ → ToClient
  lobby_result : List ℕ → ℕ → ToClient

pub data Sent : Type 0 where
  to_client : List ℕ → ToClient → Sent
  to_intermediate : ToIntermediate → Sent

pub record Login (Db : Type 0) : Type 0 where
  pub client_storage : List (List ℕ × Client)
  pub database : Db
  pub sent : List Sent

-- A row of the accounts.
pub record Account : Type 0 where
  pub accid : ℕ
  pub id : List ℕ
  pub pw : List ℕ
  pub loggedin : ℕ

-- The prepared statements that the server executes; each may throw.
pub record Statements (Db : Type 0) : Type 0 where
  pub has_account : List ℕ → Call Db Bool
  pub insert_account : List ℕ → List ℕ → Call Db (Unit {0})
  pub account : List ℕ → Call Db (Option Account)

module _ {Db : Type 0} where
  abbrev pub on_database : {A : Type 0} → Result A × Db → Login Db → Result A × Login Db
  on_database (result, database) s = (result, record s { database = database })

  abbrev pub execute : {A : Type 0} → Call Db A → Call (Login Db) A
  execute statement s = on_database (statement s.database) s

  abbrev pub send : Sent → Call (Login Db) (Unit {0})
  send packet = modify λ s. record s { sent = s.sent ++ packet ∷ [] }

  abbrev pub get_client : List ℕ → Login Db → Option Client
  get_client key s = find key s.client_storage

  abbrev pub close_client : Client → Login Db → Login Db
  close_client client s = record s {
    client_storage = assign client.uuid (Client.close client) s.client_storage;
  }
