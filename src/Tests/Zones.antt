-- ===== src/Tests/Zones.antt =====
-- A dungeon with two members, the first of which runs the monsters.
use ue4team_project_server.Model.FVector.{zero_vector}
use ue4team_project_server.Common.{ℕ, ◌≡◌, refl, true, Option, some, [], ◌∷◌, ok, arith, inl}
use ue4team_project_server.Zone.Members.{
  enter_map, set_monster_controller, dungeon, Member, Zone, mob_controller_null_value,
  spawn_character, remove_character,
}
use ue4team_project_server.Zone.Control.{IsDungeon, remove_character-IsDungeon}

abbrev member : ℕ → Option ℕ → Member
member oid client = record {
  object_id = oid;
  client = client;
  zone = some 9;
  location = zero_vector;
  rotation = zero_vector;
}

abbrev cave : Zone
cave = record {
  zone_type = dungeon;
  instance_id = 9;
  player_spawn = record { x = 1; y = 2; z = 3 };
  last_object_id = 2;
  monster_controller_id = 0;
  chrs = (0, member 0 (some 40)) ∷ (1, member 1 (some 41)) ∷ [];
  sent = [];
}

-- Where a character with client 42 stands after it came in.
abbrev member_at : ℕ → Member
member_at oid = record (member oid (some 42)) { location = cave.player_spawn }

abbrev empty_cave : Zone
empty_cave = record cave { monster_controller_id = mob_controller_null_value; chrs = [] }

cave-IsDungeon : IsDungeon cave
cave-IsDungeon = record {
  type = refl;
  entries = ((refl, omega arith), ((refl, omega arith), tt));
  ids_left = omega arith;
  controlled = inl refl;
}

-- The second member takes over.
handing_over : (remove_character 0 cave).1.monster_controller_id ≡ 1
unfolding remove_character
handing_over = refl

remove_character-IsDungeon_example : IsDungeon (remove_character 0 cave).1
remove_character-IsDungeon_example = remove_character-IsDungeon 0 cave cave-IsDungeon

-- A character with a client runs the monsters of the empty dungeon.
taking_over :
    spawn_character (member 7 (some 42)) empty_cave
    ≡ ok (
      member_at 2,
      record empty_cave {
        last_object_id = 3;
        monster_controller_id = 2;
        chrs = (2, member_at 2) ∷ [];
        sent =
            record { to = 42; packet = enter_map 2 }
            ∷ record { to = 42; packet = set_monster_controller true }
            ∷ [];
      },
    )
unfolding spawn_character
taking_over = refl
