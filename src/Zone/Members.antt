-- ===== src/Zone/Members.antt =====
-- UE4Model/Model/Zone.cpp: how characters come into a zone and leave it, and which of them runs the
-- monsters of a dungeon. The packets that are sent are events, in order; a client is its key.
use ue4team_project_server.Model.FVector.{FVector, zero_vector}
use ue4team_project_server.Common.{
  ℕ, ◌+◌, ◌%◌, ◌^◌, Bool, true, false, ◌&&◌, ◌==◌, if◌then◌else◌, Option, none, some, List, [], ◌∷◌,
  ◌++◌, Result, ok, fault, ◌>>=◌,
}

pub data ZoneType : Type 0 where
  town dungeon kinds : ZoneType

-- What zones use of a character: `client` and `zone` are weak pointers, to a client's key and to a
-- zone's instance id.
pub record Member : Type 0 where
  pub object_id : ℕ
  pub client : Option ℕ
  pub zone : Option ℕ
  pub location : FVector
  pub rotation : FVector

pub data Packet : Type 0 where
  enter_map spawn_character_of : ℕ → Packet
  set_monster_controller : Bool → Packet

pub record Sent : Type 0 where
  pub to : ℕ
  pub packet : Packet

-- `chrs` is the unordered map in the order in which it is iterated.
pub record Zone : Type 0 where
  pub zone_type : ZoneType
  pub instance_id : ℕ
  pub player_spawn : FVector
  pub last_object_id : ℕ
  pub monster_controller_id : ℕ
  pub chrs : List (ℕ × Member)
  pub sent : List Sent

-- -1 as int64.
abbrev pub mob_controller_null_value : ℕ
mob_controller_null_value = 18446744073709551615

abbrev pub is_dungeon : ZoneType → Bool
is_dungeon town = false
is_dungeon dungeon = true
is_dungeon kinds = false

abbrev pub get_character : ℕ → List (ℕ × Member) → Option Member
get_character oid [] = none
get_character oid ((k, c) ∷ chrs) = if k == oid then some c else get_character oid chrs

abbrev pub is_member : ℕ → List (ℕ × Member) → Bool
is_member oid [] = false
is_member oid ((k, c) ∷ chrs) = if k == oid then true else is_member oid chrs

-- `emplace` leaves an entry of the key as it is.
abbrev pub emplace : ℕ → Member → List (ℕ × Member) → List (ℕ × Member)
emplace oid c chrs = if is_member oid chrs then chrs else chrs ++ (oid, c) ∷ []

abbrev pub erase : ℕ → List (ℕ × Member) → List (ℕ × Member)
erase oid [] = []
erase oid ((k, c) ∷ chrs) = if k == oid then chrs else (k, c) ∷ erase oid chrs

abbrev pub to_client : Option ℕ → Packet → List Sent
to_client none p = []
to_client (some key) p = record { to = key; packet = p } ∷ []

-- `BroadCastNoLock` with an exception.
abbrev pub broadcast_except : ℕ → Packet → List (ℕ × Member) → List Sent
broadcast_except oid p [] = []
broadcast_except oid p ((k, c) ∷ chrs) =
    let rest = broadcast_except oid p chrs in
    if k == oid then rest else to_client c.client p ++ rest

-- The new controller is sent a packet through its client, which is not tested.
abbrev pub take_control : Option ℕ → ℕ → Zone → Result Zone
take_control client oid z =
    if is_dungeon z.zone_type && (z.monster_controller_id == mob_controller_null_value)
    then elim client [
      | none ↦ fault
      | some key ↦ ok (record z {
        monster_controller_id = oid;
        sent = z.sent ++ record { to = key; packet = set_monster_controller true } ∷ [];
      })
    ]
    else ok z

abbrev pub announce : ℕ → Zone → Zone
announce oid z = record z { sent = z.sent ++ broadcast_except oid (spawn_character_of oid) z.chrs }

abbrev pub entered : Member → Zone → Member
entered c z = record {
  object_id = z.last_object_id;
  client = c.client;
  zone = some z.instance_id;
  location = z.player_spawn;
  rotation = zero_vector;
}

-- The character after the call, which is the one in the map, and the zone.
unfoldable pub spawn_character : Member → Zone → Result (Member × Zone)
spawn_character c z =
    take_control c.client z.last_object_id (record z {
      last_object_id = (z.last_object_id + 1) % 2 ^ 64;
      chrs = emplace z.last_object_id (entered c z) z.chrs;
      sent = z.sent ++ to_client c.client (enter_map z.last_object_id);
    })
    >>= λ controlled. ok (entered c z, announce z.last_object_id controlled)

abbrev pub is_here : ℕ → Option ℕ → Bool
is_here instance_id none = false
is_here instance_id (some id) = id == instance_id

-- A member that may run the monsters: its client and its zone live, and the zone is this one.
abbrev pub eligible : ℕ → Member → Bool
eligible instance_id c = elim c.client [ none ↦ false | some key ↦ is_here instance_id c.zone ]

abbrev pub hand_over_to : Member → Zone → Zone
hand_over_to c z =
    if z.monster_controller_id == mob_controller_null_value
    then record z {
      monster_controller_id = c.object_id;
      sent = z.sent ++ to_client c.client (set_monster_controller true);
    }
    else z

-- The loop over the copied members, which ends at the first eligible one.
abbrev pub hand_over : List (ℕ × Member) → Zone → Zone
hand_over [] z = z
hand_over ((k, c) ∷ chrs) z =
    let rest = hand_over chrs z in if eligible z.instance_id c then hand_over_to c z else rest

abbrev pub client_of : Option Member → Option ℕ
client_of none = none
client_of (some c) = c.client

abbrev pub released : Option Member → Option Member
released none = none
released (some c) = some (record c { zone = none })

abbrev pub without : ℕ → Zone → Zone
without object_id z =
    let chrs = erase object_id z.chrs in
    if is_dungeon z.zone_type && (z.monster_controller_id == object_id)
    then hand_over chrs (record z {
      monster_controller_id = mob_controller_null_value;
      chrs = chrs;
      sent =
          z.sent
          ++ to_client (client_of (get_character object_id z.chrs)) (set_monster_controller false);
    })
    else record z { chrs = chrs }

-- The character that was in the map, after the call, and the zone.
unfoldable pub remove_character : ℕ → Zone → Option Member × Zone
remove_character object_id z = (released (get_character object_id z.chrs), without object_id z)

-- `SetZone(nullptr)` on a member, with which a change of zones begins.
abbrev pub detach : ℕ → List (ℕ × Member) → List (ℕ × Member)
detach oid [] = []
detach oid ((k, c) ∷ chrs) =
    if k == oid then (k, record c { zone = none }) ∷ chrs else (k, c) ∷ detach oid chrs

unfoldable pub leave_zone : ℕ → Zone → Zone
leave_zone oid z = record z { chrs = detach oid z.chrs }
