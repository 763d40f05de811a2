-- ===== src/Intermediate/State.antt =====
-- UE4IntermediateServer/IntermediateServer.hpp: the connected servers and what they say of themselves.
use ue4team_project_server.Common.{
  ℕ, Bool, List, [], ◌∷◌, ◌++◌, Option, text_keys, ◌≡◌, true, false,
}
use ue4team_project_server.Common.Calls.{Call, modify}
use ue4team_project_server.Common.Keyed.{find}
use ue4team_project_server.Server.Client.{Client}
use ue4team_project_server.Server.RemoteServerInfo.{RemoteServerInfo}
use ue4team_project_server.Channel.Packets.{FromIntermediate}

-- `sent` has the calls of Session::Send, with the UUID of the server whose session it is. `database` is
-- the database behind the connections of the pool.
pub record Intermediate (Db : Type 0) : Type 0 where
  pub client_storage : List (List ℕ × Client)
  pub server_map : List (List ℕ × RemoteServerInfo)
  pub database : Db
  pub sent : List (List ℕ × FromIntermediate)

-- double, with the quotient of two int64, the order, and the value of 1.1f.
pub record Doubles (D : Type 0) : Type 0 where
  pub divide : ℕ → ℕ → D
  pub greater : D → D → Bool
  pub first_ratio : D

-- What the choice of a server relies on: the order of the numbers that occur, none of them a NaN, is
-- irreflexive and transitive.
pub record Ordered {D : Type 0} (f : Doubles D) : Type 0 where
  pub irreflexive : (a : D) → f.greater a a ≡ false
  pub transitive : (a b c : D) → f.greater a b ≡ true → f.greater b c ≡ true → f.greater a c ≡ true

module _ {Db : Type 0} where
  abbrev pub send : List ℕ → FromIntermediate → Call (Intermediate Db) (Unit {0})
  send uuid packet = modify λ s. record s { sent = s.sent ++ (uuid, packet) ∷ [] }

  abbrev pub get_client : List ℕ → Intermediate Db → Option Client
  get_client uuid s = find uuid s.client_storage
