-- ===== src/Tests/Instances.antt =====
-- A system with the town, and a dungeon with one monster.
use ue4team_project_server.Common.{◌≡◌, refl, [], ◌∷◌, none, some, arith, number_keys}
use ue4team_project_server.Common.Keyed.{find}
use ue4team_project_server.Model.FVector.{zero_vector}
use ue4team_project_server.ZoneSystem.Tables.{Portal, ZoneData, MonsterTemplate, Tables, get_data}
use ue4team_project_server.ZoneSystem.Instances.{
  Instance, System, new_instance, create_new_instance, get_instance, sweep, populate,
}
use ue4team_project_server.ZoneSystem.Sweep.{IsSystem, Swept, sweep-Swept, new_dungeon_is_swept}

abbrev gate : Portal
gate = record { map_id = 100; range = 0; location = zero_vector }

abbrev town_entry : ZoneData
town_entry = record {
  map_id = 100;
  zone_type = 0;
  portal = gate;
  player_spawn = zero_vector;
  spawn_point = [];
}

abbrev dungeon_entry : ZoneData
dungeon_entry = record {
  map_id = 101;
  zone_type = 1;
  portal = gate;
  player_spawn = zero_vector;
  spawn_point =
      record { spawn_type = 1; id = 9; location = zero_vector; rotation = zero_vector } ∷ [];
}

abbrev wolf : MonsterTemplate
wolf = record {
  template_id = 9;
  attack_min = 1;
  attack_max = 2;
  attack_range = 3;
  attack_speed = 4;
  defence = 5;
  hp = 6;
}

abbrev tables : Tables
tables = record {
  zone_data = (100, town_entry) ∷ (101, dungeon_entry) ∷ [];
  mob_data = (9, wolf) ∷ [];
}

abbrev started : System
started = record { new_instance_id = 1; maps = new_instance 0 town_entry ∷ [] }

started-IsSystem : IsSystem started
started-IsSystem = record { distinct = (tt, tt); below = (omega arith, tt) }

dungeon_known : get_data tables 101 ≡ some dungeon_entry
unfolding find
dungeon_known = refl

-- The monster of the new dungeon takes the first object id.
abbrev filled : Instance
filled = populate tables dungeon_entry.spawn_point (new_instance 1 dungeon_entry)

first_monster : filled.zone.last_object_id ≡ 1
unfolding populate find
first_monster = refl

new_dungeon_is_swept_example :
    let (made, t) = create_new_instance tables 101 started in
    (made ≡ some 1)
    × ((i : Instance) × (get_instance 1 t ≡ some i))
    × (get_instance 1 (sweep t) ≡ none)
new_dungeon_is_swept_example =
    new_dungeon_is_swept tables 101 dungeon_entry started started-IsSystem dungeon_known refl

-- The town, and a dungeon in which nobody is.
abbrev opened : System
opened = record {
  new_instance_id = 2;
  maps = new_instance 0 town_entry ∷ new_instance 1 dungeon_entry ∷ [];
}

opened-IsSystem : IsSystem opened
opened-IsSystem = record {
  distinct = (((λ e. absurd (omega (arith, e))), tt), (tt, tt));
  below = (omega arith, (omega arith, tt));
}

sweep-Swept_example :
    IsSystem (sweep opened) × Swept (get_instance 1 opened) (get_instance 1 (sweep opened))
sweep-Swept_example = sweep-Swept opened 1 opened-IsSystem
