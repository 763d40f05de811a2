-- ===== src/Tests/Objects.antt =====
-- Objects that are written and read back, and the limits of a stream.
use ue4team_project_server.Lobby.CharacterInfo.{
  LobbyCharacterInfo, write_lobby_character_info, read_lobby_character_info,
}
use ue4team_project_server.Lobby.CharacterInfo.Codec.{
  IsLobbyCharacterInfo, info_bytes, lobby_character_info_round_trip,
}
use ue4team_project_server.Common.{
  ◌^◌, ◌<◌, length, ◌≡◌, refl, [], ◌∷◌, replicate, ok, fault, arith,
}
use ue4team_project_server.Stream.Bytes.{to_bytes}
use ue4team_project_server.Stream.ByteStream.{ByteStream, initialize}
use ue4team_project_server.Stream.OutputStream.{output_stream, write_bytes}
use ue4team_project_server.Stream.OutputStream.Writes.{
  output_stream-IsValid, IsValid, write_bytes_overrun,
}
use ue4team_project_server.Stream.RoundTrip.{reopen}
use ue4team_project_server.Model.Item.{equip_item, write_item, read_item}
use ue4team_project_server.Model.ItemCodec.{IsItem, item_round_trip}

abbrev fresh : ByteStream
fresh = initialize (replicate 64 0) 64 0

fresh-IsValid : IsValid fresh
fresh-IsValid = record {
  allocated = refl;
  within = omega arith;
  room = omega arith;
  tight = omega arith;
}

write_bytes_overrun_example : write_bytes (replicate 129 7) fresh ≡ fault
write_bytes_overrun_example =
    write_bytes_overrun fresh (replicate 129 7) fresh-IsValid (omega arith) (omega arith)

sword-IsItem : IsItem (equip_item 300001)
sword-IsItem = record {
  type_fits = omega arith;
  itemid_fits = omega arith;
  class_fits = record {
    atk_fits = omega arith;
    def_fits = omega arith;
    str_fits = omega arith;
    dex_fits = omega arith;
    int_fits = omega arith;
  };
}

item_round_trip_example :
    (t : ByteStream) × (write_item (equip_item 300001) fresh ≡ ok t)
    × (read_item (equip_item 300001).class (reopen fresh t)
        ≡ ok (equip_item 300001, record (reopen fresh t) { access_offset = t.access_offset }))
unfolding to_bytes
item_round_trip_example =
    item_round_trip (equip_item 300001) fresh sword-IsItem fresh-IsValid (omega arith)

abbrev hero : LobbyCharacterInfo
hero = record {
  slot = 2;
  name = b'a' ∷ b'b' ∷ [];
  gender = 1;
  level = 1;
  str = 10;
  dex = 10;
  intel = 10;
  job = 4;
  face = 5;
  hair = 6;
  gold = 0;
  zone = 100;
  x = 0;
  y = 0;
  z = 0;
  armor_itemid = 3000001;
  hand_itemid = 3100001;
  shoes_itemid = 3200001;
  weapon_itemid = 3300001;
}

hero-IsLobbyCharacterInfo : IsLobbyCharacterInfo hero
hero-IsLobbyCharacterInfo = omega arith

hero_small : length (info_bytes hero) < 2 ^ 60
unfolding to_bytes
hero_small = omega arith

lobby_character_info_round_trip_example :
    (t : ByteStream) × (write_lobby_character_info hero (output_stream 64) ≡ ok t)
    × (read_lobby_character_info (reopen (output_stream 64) t)
        ≡ ok (hero, record (reopen (output_stream 64) t) { access_offset = t.access_offset }))
unfolding output_stream
lobby_character_info_round_trip_example =
    lobby_character_info_round_trip hero (output_stream 64) hero-IsLobbyCharacterInfo
      (output_stream-IsValid 64 (omega arith) (omega arith)) (omega (arith, hero_small))
