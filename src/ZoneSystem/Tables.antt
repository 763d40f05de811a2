-- ===== src/ZoneSystem/Tables.antt =====
-- UE4Model/Provider/ZoneDataProvider.cpp and MonsterTemplateProvider.cpp: what is known of maps and of kinds of
-- monsters. How the tables are read from their files is left out; numbers are bit patterns, and the
-- key of a map is its id as callers have it, an int32.
use ue4team_project_server.Common.{ℕ, List, Option, none, some, number_keys}
use ue4team_project_server.Common.Keyed.{find}
use ue4team_project_server.Model.FVector.{FVector, zero_vector}
use ue4team_project_server.Model.PawnObject.{PawnStat}

pub record SpawnPoint : Type 0 where
  pub spawn_type : ℕ
  pub id : ℕ
  pub location : FVector
  pub rotation : FVector

pub record Portal : Type 0 where
  pub map_id : ℕ
  pub range : ℕ
  pub location : FVector

pub record ZoneData : Type 0 where
  pub map_id : ℕ
  pub zone_type : ℕ
  pub portal : Portal
  pub player_spawn : FVector
  pub spawn_point : List SpawnPoint

pub record MonsterTemplate : Type 0 where
  pub template_id : ℕ
  pub attack_min : ℕ
  pub attack_max : ℕ
  pub attack_range : ℕ
  pub attack_speed : ℕ
  pub defence : ℕ
  pub hp : ℕ

pub record Tables : Type 0 where
  pub zone_data : List (ℕ × ZoneData)
  pub mob_data : List (ℕ × MonsterTemplate)

pub record Monster : Type 0 where
  pub template_id : ℕ
  pub object_id : ℕ
  pub location : FVector
  pub rotation : FVector
  pub stat : PawnStat

-- -1 as int64.
abbrev pub no_object_id : ℕ
no_object_id = 0xffffffffffffffff

abbrev pub get_data : Tables → ℕ → Option ZoneData
get_data tables mapid = find mapid tables.zone_data

-- The template's speed is not set.
abbrev pub made_of : MonsterTemplate → Monster
made_of entry = record {
  template_id = entry.template_id;
  object_id = no_object_id;
  location = zero_vector;
  rotation = zero_vector;
  stat = record {
    hp = entry.hp;
    max_hp = entry.hp;
    attack_min = entry.attack_min;
    attack_max = entry.attack_max;
    attack_range = entry.attack_range;
    attack_speed = entry.attack_speed;
    defence = entry.defence;
    speed = 0;
  };
}

abbrev pub made : Option MonsterTemplate → Option Monster
made none = none
made (some entry) = some (made_of entry)

abbrev pub get_monster : Tables → ℕ → Option Monster
get_monster tables mobid = made (find mobid tables.mob_data)
