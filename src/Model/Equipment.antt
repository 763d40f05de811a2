-- ===== src/Model/Equipment.antt =====
-- UE4Model/Model/Character/Equipment.cpp: one equip item, or none, in each of four positions.
use ue4team_project_server.Common.{
  ℕ, ◌+◌, ◌%◌, ◌^◌, Bool, Option, none, some, List, [], ◌∷◌, set, Result, ok, ◌>>=◌, pos,
}
use ue4team_project_server.Model.Item.{Item, EquipStat, Class, plain, consume, equip}
use ue4team_project_server.Model.Inventory.{at, has_value}

-- Equipment::Position. `kCount` is an enumerator as the others are.
pub data Position : Type 0 where
  armor hand shoes weapon count : Position

abbrev pub to_int32 : Position → ℕ
to_int32 armor = 0
to_int32 hand = 1
to_int32 shoes = 2
to_int32 weapon = 3
to_int32 count = 4

pub record Equipment : Type 0 where
  pub equipments : List (Option Item)

unfoldable pub has_equip_item : Equipment → Position → Result Bool
has_equip_item e p = do item ← at e.equipments (pos (to_int32 p)); ok (has_value item)

-- A null pointer may be given, and empties the position.
unfoldable pub equip_at : Equipment → Position → Option Item → Result Equipment
equip_at e p item = do
  _ ← at e.equipments (pos (to_int32 p))
  ok (record { equipments = set e.equipments (to_int32 p) item })

unfoldable pub unequip : Equipment → Position → Result (Option Item × Equipment)
unequip e p = do
  item ← at e.equipments (pos (to_int32 p))
  ok (item, record { equipments = set e.equipments (to_int32 p) none })

-- A value of an equip item; other classes have none of these fields.
abbrev pub stat_of : (EquipStat → ℕ) → Class → ℕ
stat_of field plain = 0
stat_of field consume = 0
stat_of field (equip stat) = field stat

-- The loop of the four totals, from the running sum on, in int32 arithmetic.
abbrev pub sum_from : (EquipStat → ℕ) → ℕ → List (Option Item) → ℕ
sum_from field sum [] = sum
sum_from field sum (none ∷ items) = sum_from field sum items
sum_from field sum (some i ∷ items) = sum_from field ((sum + stat_of field i.class) % 2 ^ 32) items

unfoldable pub get_total_add_str : Equipment → ℕ
get_total_add_str e = sum_from EquipStat.add_str 0 e.equipments

unfoldable pub get_total_add_dex : Equipment → ℕ
get_total_add_dex e = sum_from EquipStat.add_dex 0 e.equipments

unfoldable pub get_total_add_intel : Equipment → ℕ
get_total_add_intel e = sum_from EquipStat.add_int 0 e.equipments

unfoldable pub get_total_atk : Equipment → ℕ
get_total_atk e = sum_from EquipStat.add_atk 0 e.equipments
