-- ===== src/Tests/Worlds.antt =====
-- A zone with two characters and a monster.
use ue4team_project_server.Common.{
  ℕ, ◌≡◌, ◌≢◌, refl, List, [], ◌∷◌, ◌++◌, some, ok, pos, text_keys, number_keys, same_text, arith,
}
use ue4team_project_server.Common.Keyed.{find, assign}
use ue4team_project_server.Stream.Bytes.{to_bytes}
use ue4team_project_server.Stream.ByteStream.{ByteStream}
use ue4team_project_server.Stream.InputStream.{read_fixed}
use ue4team_project_server.Migration.Arrival.{framed}
use ue4team_project_server.Channel.Packets.{value_of}
use ue4team_project_server.Model.FVector.{FVector, zero_vector, read_vector, vector_bytes}
use ue4team_project_server.ZoneServer.State.{
  World, ZoneClient, Character, Monster, Zone, confirm, headed, update_character_position,
  actor_damaged, character_type, monster_type,
}
use ue4team_project_server.ZoneServer.Requests.{Motion, read_motion, Hit, read_hit}
use ue4team_project_server.ZoneServer.Moves.{at_pose, handle_chr_position_notify}
use ue4team_project_server.ZoneServer.Fights.{Scripts, handle_character_hit_success}
use ue4team_project_server.ZoneServer.Dispatch.{handle, notify_current_chr_position}
use ue4team_project_server.ZoneServer.Spares.{population}
use ue4team_project_server.ZoneServer.Apart.{others_are_spared}
use ue4team_project_server.ZoneServer.Others.{position_reaches_others}
use ue4team_project_server.ZoneServer.Hits.{hit_is_told}

abbrev ann : List ℕ
ann = b'a' ∷ []

abbrev bob : List ℕ
bob = b'b' ∷ []

abbrev player : List ℕ → ℕ → ZoneClient
player uuid address = record { uuid = uuid; state = pos confirm; character = some address }

abbrev standing : ℕ → List ℕ → Character
standing oid uuid = record {
  object_id = oid;
  location = zero_vector;
  rotation = zero_vector;
  hp = 0x42c80000;
  zone = some 1;
  client = some uuid;
}

abbrev wolf : Monster
wolf = record {
  object_id = 5;
  state = 1;
  location = zero_vector;
  rotation = zero_vector;
  hp = 0x42480000;
}

abbrev field : Zone
field = record {
  monster_controller_id = 10;
  chrs = (10, 100) ∷ (11, 101) ∷ [];
  mobs = (5, wolf) ∷ [];
}

abbrev world : World
world = record {
  clients = (ann, player ann 100) ∷ (bob, player bob 101) ∷ [];
  characters = (100, standing 10 ann) ∷ (101, standing 11 bob) ∷ [];
  zones = (1, field) ∷ [];
  sent = [];
}

abbrev here : FVector
here = record { x = 7; y = 8; z = 9 }

-- the packet behind its length and its opcode
abbrev position : ByteStream
position =
    record (framed
      (to_bytes 2 1001 ++ (to_bytes 4 3 ++ (vector_bytes here ++ vector_bytes zero_vector)))) {
        access_offset = 4;
      }

abbrev motion : Motion
motion = record { state = 3; pose = record { location = here; rotation = zero_vector } }

position_read : value_of (read_motion position) ≡ ok motion
unfolding read_fixed read_vector to_bytes
position_read = refl

ann_stored : find 100 world.characters ≡ some (standing 10 ann)
unfolding find
ann_stored = refl

bob_stored : find 101 world.characters ≡ some (standing 11 bob)
unfolding find
bob_stored = refl

field_found : find 1 world.zones ≡ some field
unfolding find
field_found = refl

position_reaches_others_example : handle_chr_position_notify (player ann 100) position world ≡ (
  ok tt,
  record world {
    characters = (100, at_pose motion (standing 10 ann)) ∷ (101, standing 11 bob) ∷ [];
    sent = (bob, headed (update_character_position 10 3 here zero_vector)) ∷ [];
  },
)
unfolding find assign same_text
position_reaches_others_example =
    position_reaches_others (player ann 100) position motion 100 (standing 10 ann) field world refl
      position_read refl ann_stored field_found
      ((standing 10 ann, ann_stored), ((standing 11 bob, bob_stored), tt))

-- A blow that kills.
abbrev scripts : Scripts
scripts = record {
  attack_monster = λ id chr mob. (chr, record mob { hp = 0 });
  attack_character = λ id chr mob. (chr, mob);
}

apart : (player ann 100).character ≢ some 101
apart e = absurd (ground (arith, e))

others_are_spared_example :
    let t = (handle scripts notify_current_chr_position (player ann 100) position world).1 in
    (find 101 t.characters ≡ find 101 world.characters)
    × (t.clients ≡ world.clients)
    × ((id : ℕ) → population id t ≡ population id world)
others_are_spared_example =
    others_are_spared scripts notify_current_chr_position (player ann 100) position world 101 apart

abbrev hit : Hit
hit = record {
  attacker = 10;
  attacked = 5;
  attack_id = 2;
  pose = record { location = here; rotation = zero_vector };
}

abbrev hit_bytes : ByteStream
hit_bytes =
    record (framed (
      to_bytes 2 1009
      ++ (to_bytes 8 10
          ++ (to_bytes 8 5
              ++ (to_bytes 4 2 ++ (vector_bytes here ++ vector_bytes zero_vector)))))) {
                access_offset = 4;
              }

hit_read : value_of (read_hit hit_bytes) ≡ ok hit
unfolding read_fixed read_vector to_bytes
hit_read = refl

wolf_found : find 5 field.mobs ≡ some wolf
unfolding find
wolf_found = refl

hit_is_told_example : handle_character_hit_success scripts (player ann 100) hit_bytes world ≡ (
  ok tt,
  record world {
    zones = (1, record field { mobs = (5, record wolf { hp = 0; state = 2 }) ∷ [] }) ∷ [];
    sent =
        (ann, headed (actor_damaged character_type 10 monster_type 5 2 0))
        ∷ (bob, headed (actor_damaged character_type 10 monster_type 5 2 0))
        ∷ [];
  },
)
unfolding find assign same_text
hit_is_told_example =
    hit_is_told scripts (player ann 100) hit_bytes hit 100 (standing 10 ann) (standing 10 ann) 1
      field wolf (record wolf { hp = 0 }) world hit_read refl ann_stored refl refl field_found
      wolf_found refl refl ((standing 10 ann, ann_stored), ((standing 11 bob, bob_stored), tt))
