-- ===== src/Model/Item.antt =====
-- UE4Model/Model/Item: Item.cpp, EquipItem.cpp and ConsumeItem.cpp. An object is its fields and the
-- class that it was made of, which `dynamic_pointer_cast` asks for.
use ue4team_project_server.Common.{ℕ, Bool, true, false}
use ue4team_project_server.Stream.InputStream.{Reader, ◌>>=◌, pure, read_int32}
use ue4team_project_server.Stream.OutputStream.{Writer, ◌>>◌, write_int32}

-- Item::Type is an int32 that may hold any value; these are its enumerators.
abbrev pub type_null : ℕ
type_null = 0

abbrev pub type_etc : ℕ
type_etc = 1

abbrev pub type_consume : ℕ
type_consume = 2

abbrev pub type_equip : ℕ
type_equip = 3

pub record EquipStat : Type 0 where
  pub add_atk : ℕ
  pub add_def : ℕ
  pub add_str : ℕ
  pub add_dex : ℕ
  pub add_int : ℕ

pub data Class : Type 0 where
  plain consume : Class
  equip : EquipStat → Class

pub record Item : Type 0 where
  pub item_type : ℕ
  pub itemid : ℕ
  pub class : Class

-- -1 as int32.
abbrev pub no_itemid : ℕ
no_itemid = 4294967295

abbrev pub plain_item : Item
plain_item = record { item_type = type_etc; itemid = no_itemid; class = plain }

abbrev pub consume_item : ℕ → Item
consume_item itemid = record { item_type = type_consume; itemid = itemid; class = consume }

abbrev pub equip_item : ℕ → Item
equip_item itemid = record {
  item_type = type_equip;
  itemid = itemid;
  class = equip (record { add_atk = 0; add_def = 0; add_str = 0; add_dex = 0; add_int = 0 });
}

abbrev pub is_equip : Item → Bool
is_equip i = elim i.class [ plain ↦ false | consume ↦ false | equip _ ↦ true ]

abbrev pub write_base : Item → Writer
write_base i = do write_int32 i.item_type; write_int32 i.itemid

abbrev pub write_stat : EquipStat → Writer
write_stat e = do
  write_int32 e.add_atk
  write_int32 e.add_def
  write_int32 e.add_str
  write_int32 e.add_dex
  write_int32 e.add_int

unfoldable pub write_class : Class → Item → Writer
write_class plain i = write_base i
write_class consume i = write_base i
write_class (equip e) i = write_base i >> write_stat e

-- The virtual `Write`.
unfoldable pub write_item : Item → Writer
unfolding write_class
write_item i = write_class i.class i

abbrev pub read_stat : Reader EquipStat
read_stat = do
  add_atk ← read_int32
  add_def ← read_int32
  add_str ← read_int32
  add_dex ← read_int32
  add_int ← read_int32
  pure (record {
    add_atk = add_atk;
    add_def = add_def;
    add_str = add_str;
    add_dex = add_dex;
    add_int = add_int;
  })

-- The virtual `Read`, into an object of the given class.
unfoldable pub read_item : Class → Reader Item
read_item plain = do
  item_type ← read_int32
  itemid ← read_int32
  pure (record { item_type = item_type; itemid = itemid; class = plain })
read_item consume = do
  item_type ← read_int32
  itemid ← read_int32
  pure (record { item_type = item_type; itemid = itemid; class = consume })
read_item (equip _) = do
  item_type ← read_int32
  itemid ← read_int32
  stat ← read_stat
  pure (record { item_type = item_type; itemid = itemid; class = equip stat })
