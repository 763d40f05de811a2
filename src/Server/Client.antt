-- ===== src/Server/Client.antt =====
-- UE4DevelopmentLibrary/Server/UE4Client.hpp: a connected peer. The session that it holds shows as its
-- address and as whether Close was called on it.
use ue4team_project_server.Common.{ℕ, Bool, true, false, List, [], ℤ, pos, negsuc, ◌==◌}

-- `uuid` is the text of the UUID.
pub record Client : Type 0 where
  pub uuid : List ℕ
  pub state : ℤ
  pub accid : ℕ
  pub account : List ℕ
  pub remote_address : List ℕ
  pub closed : Bool

-- What the constructor leaves in `accid_` is not specified; no statement depends on it.
abbrev uninitialised_accid : ℕ
uninitialised_accid = 0xcdcdcdcd

abbrev pub new_client : List ℕ → List ℕ → Client
new_client uuid remote_address = record {
  uuid = uuid;
  state = negsuc 0;
  accid = uninitialised_accid;
  account = [];
  remote_address = remote_address;
  closed = false;
}

abbrev pub close : Client → Client
close c = record c { closed = true }

abbrev pub set_state : ℕ → Client → Client
set_state state c = record c { state = pos state }

-- GetState() == state
abbrev pub in_state : ℕ → ℤ → Bool
in_state state (pos n) = n == state
in_state state (negsuc n) = false
