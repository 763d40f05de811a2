-- ===== src/ZoneSystem/Instances.antt =====
-- UE4Model/System/ZoneSystem.cpp, with AddMonster of UE4Model/Model/Zone.cpp. A zone that is made is in the list
-- of the system at once; who holds it besides is left out.
use ue4team_project_server.Common.{
  ℕ, ◌+◌, ◌%◌, ◌^◌, Bool, true, false, ◌&&◌, ◌==◌, if◌then◌else◌, List, [], ◌∷◌, ◌++◌, Option, none,
  some, number_keys,
}
use ue4team_project_server.Common.Keyed.{emplace}
use ue4team_project_server.Model.FVector.{FVector}
use ue4team_project_server.Zone.Members.{
  ZoneType, town, dungeon, kinds, is_dungeon, Zone, mob_controller_null_value, Member,
}
use ue4team_project_server.ZoneSystem.Tables.{
  SpawnPoint, Portal, ZoneData, Tables, Monster, get_data, get_monster,
}

-- `zone` has the members and the control of the monsters, `active` whether the state is kActive.
pub record Instance : Type 0 where
  pub zone : Zone
  pub map_id : ℕ
  pub active : Bool
  pub next_map : Portal
  pub mobs : List (ℕ × Monster)

pub record System : Type 0 where
  pub new_instance_id : ℕ
  pub maps : List Instance

-- static_cast<Zone::Type>; the code asks for the first two only.
abbrev pub zone_type_of : ℕ → ZoneType
zone_type_of n = if n == 0 then town else if n == 1 then dungeon else kinds

abbrev pub new_instance : ℕ → ZoneData → Instance
new_instance new_id entry = record {
  zone = record {
    zone_type = zone_type_of entry.zone_type;
    instance_id = new_id;
    player_spawn = entry.player_spawn;
    last_object_id = 0;
    monster_controller_id = mob_controller_null_value;
    chrs = [];
    sent = [];
  };
  map_id = entry.map_id;
  active = false;
  next_map = entry.portal;
  mobs = [];
}

abbrev pub add_monster : Monster → FVector → FVector → Instance → Instance
add_monster mob location rotation i = record i {
  zone = record i.zone { last_object_id = (i.zone.last_object_id + 1) % 2 ^ 64 };
  mobs =
      emplace i.zone.last_object_id
        (record mob { object_id = i.zone.last_object_id; location = location; rotation = rotation })
        i.mobs;
}

-- SpawnPoint::Type::kMonster
abbrev pub is_monster : SpawnPoint → Bool
is_monster p = p.spawn_type == 1

abbrev pub spawned : SpawnPoint → Option Monster → Instance → Instance
spawned p none i = i
spawned p (some mob) i = add_monster mob p.location p.rotation i

unfoldable pub populate : Tables → List SpawnPoint → Instance → Instance
populate tables [] i = i
populate tables (p ∷ points) i =
    populate tables points
      (if is_monster p then spawned p (get_monster tables (p.id % 2 ^ 32)) i else i)

-- The id of the new zone, if there is one, and the system after the call.
abbrev pub created : Tables → Option ZoneData → System → Option ℕ × System
created tables none s = (none, record s { new_instance_id = (s.new_instance_id + 1) % 2 ^ 64 })
created tables (some entry) s = (
  some s.new_instance_id,
  record {
    new_instance_id = (s.new_instance_id + 1) % 2 ^ 64;
    maps = s.maps ++ populate tables entry.spawn_point (new_instance s.new_instance_id entry) ∷ [];
  },
)

unfoldable pub create_new_instance : Tables → ℕ → System → Option ℕ × System
create_new_instance tables mapid s = created tables (get_data tables mapid) s

unfoldable pub find_instance : ℕ → List Instance → Option Instance
find_instance instance_id [] = none
find_instance instance_id (i ∷ maps) =
    if i.zone.instance_id == instance_id then some i else find_instance instance_id maps

abbrev pub get_instance : ℕ → System → Option Instance
get_instance instance_id s = find_instance instance_id s.maps

abbrev pub is_empty : List (ℕ × Member) → Bool
is_empty [] = true
is_empty (c ∷ chrs) = false

abbrev pub is_left : Instance → Bool
is_left i = is_dungeon i.zone.zone_type && is_empty i.zone.chrs

unfoldable pub erase_left : List Instance → List Instance
erase_left [] = []
erase_left (i ∷ maps) = if is_left i then erase_left maps else i ∷ erase_left maps

-- A pass of the update thread; what Update does to a zone's clock is left out.
abbrev pub sweep : System → System
sweep s = record s { maps = erase_left s.maps }
