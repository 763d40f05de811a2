-- ===== src/Lobby/CharacterInfo.antt =====
-- UE4LobbyServer/PacketGenerateHelper.cpp: a character of the lobby over the wire.
pub mod Codec
use ue4team_project_server.Common.{ℕ, List, length, ltb, if◌then◌else◌, Result, ok, fault}
use ue4team_project_server.Common.{◌>>=◌ as and_then}
use ue4team_project_server.Stream.InputStream.{
  Reader, ◌>>=◌, pure, read_int32, read_float32, read_string,
}
use ue4team_project_server.Stream.OutputStream.{
  Writer, ◌>>◌, write_int32, write_float32, write_string,
}

-- `name` is what the array of 100 chars holds before its first zero. 100 bytes leave no zero in it.
-- Integers and floats are bit patterns.
pub record LobbyCharacterInfo : Type 0 where
  pub slot : ℕ
  pub name : List ℕ
  pub gender : ℕ
  pub level : ℕ
  pub str : ℕ
  pub dex : ℕ
  pub intel : ℕ
  pub job : ℕ
  pub face : ℕ
  pub hair : ℕ
  pub gold : ℕ
  pub zone : ℕ
  pub x : ℕ
  pub y : ℕ
  pub z : ℕ
  pub armor_itemid : ℕ
  pub hand_itemid : ℕ
  pub shoes_itemid : ℕ
  pub weapon_itemid : ℕ

abbrev pub name_size : ℕ
name_size = 100

-- memset and memcpy into the array, with the length of the string.
abbrev pub copy_name : List ℕ → Result (List ℕ)
copy_name name = if ltb name_size (length name) then fault else ok name

-- std::string(info.name), which looks for a zero in the array.
abbrev pub c_name : LobbyCharacterInfo → Result (List ℕ)
c_name info = if ltb (length info.name) name_size then ok info.name else fault

abbrev pub write_name : LobbyCharacterInfo → Writer
write_name info s = and_then (c_name info) (λ name. write_string name s)

unfoldable pub write_lobby_character_info : LobbyCharacterInfo → Writer
write_lobby_character_info info = do
  write_int32 info.slot
  write_name info
  write_int32 info.level
  write_int32 info.str
  write_int32 info.dex
  write_int32 info.intel
  write_int32 info.job
  write_int32 info.face
  write_int32 info.hair
  write_int32 info.gold
  write_int32 info.zone
  write_float32 info.x
  write_float32 info.y
  write_float32 info.z
  write_int32 info.armor_itemid
  write_int32 info.hand_itemid
  write_int32 info.shoes_itemid
  write_int32 info.weapon_itemid
  write_int32 info.gender

abbrev pub copied : List ℕ → Reader (List ℕ)
copied name s = and_then (copy_name name) (λ array. ok (array, s))

unfoldable pub read_lobby_character_info : Reader LobbyCharacterInfo
read_lobby_character_info = do
  slot ← read_int32
  name ← read_string
  level ← read_int32
  str ← read_int32
  dex ← read_int32
  intel ← read_int32
  job ← read_int32
  face ← read_int32
  hair ← read_int32
  gold ← read_int32
  zone ← read_int32
  x ← read_float32
  y ← read_float32
  z ← read_float32
  armor_itemid ← read_int32
  hand_itemid ← read_int32
  shoes_itemid ← read_int32
  weapon_itemid ← read_int32
  gender ← read_int32
  array ← copied name
  pure (record {
    slot = slot;
    name = array;
    level = level;
    str = str;
    dex = dex;
    intel = intel;
    job = job;
    face = face;
    hair = hair;
    gold = gold;
    zone = zone;
    x = x;
    y = y;
    z = z;
    armor_itemid = armor_itemid;
    hand_itemid = hand_itemid;
    shoes_itemid = shoes_itemid;
    weapon_itemid = weapon_itemid;
    gender = gender;
  })
