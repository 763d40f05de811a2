-- ===== src/Model/Character/Totals.antt =====
-- The totals of what is worn.
use ue4team_project_server.Common.{
  ℕ, ◌+◌, ◌%◌, ◌^◌, ◌<◌, ◌≡◌, ◌∙◌, Option, none, some, List, [], ◌∷◌, get_elem?, set, tally,
  tally-set, ok, arith,
}
use ue4team_project_server.Model.Item.{Item, EquipStat}
use ue4team_project_server.Model.Equipment.{
  Equipment, Position, to_int32, equip_at, stat_of, sum_from, get_total_add_str, get_total_add_dex,
  get_total_add_intel, get_total_atk,
}
use ue4team_project_server.Model.Character.Wearing.{equip_at_old}

abbrev pub worn_stat : (EquipStat → ℕ) → Option Item → ℕ
worn_stat field none = 0
worn_stat field (some i) = stat_of field i.class

-- The running int32 sum is the sum of the values, reduced once.
sum_from-tally :
    (field : EquipStat → ℕ) (sum : ℕ) (items : List (Option Item))
    → sum < 2 ^ 32
    → sum_from field sum items ≡ (sum + tally (worn_stat field) items) % 2 ^ 32
sum_from-tally field sum [] small = omega arith
sum_from-tally field sum (none ∷ items) small = sum_from-tally field sum items small ∙ omega arith
sum_from-tally field sum (some i ∷ items) small =
    sum_from-tally field ((sum + stat_of field i.class) % 2 ^ 32) items (omega arith) ∙ omega arith

sum_from-set :
    (field : EquipStat → ℕ) (items : List (Option Item)) (n : ℕ) (i : Item)
    → get_elem? items n ≡ some none
    → sum_from field 0 (set items n (some i))
      ≡ (sum_from field 0 items + stat_of field i.class) % 2 ^ 32
sum_from-set field items n i free = omega (
  arith,
  sum_from-tally field 0 items (omega arith),
  sum_from-tally field 0 (set items n (some i)) (omega arith),
  tally-set (worn_stat field) items n none (some i) free,
)

-- An item put on a free position adds its values to each of the four totals, as int32.
pub equip_at-totals :
    (e : Equipment) (p : Position) (i : Item)
    → get_elem? e.equipments (to_int32 p) ≡ some none
    → (f : Equipment) × (equip_at e p (some i) ≡ ok f)
      × (get_total_atk f ≡ (get_total_atk e + stat_of EquipStat.add_atk i.class) % 2 ^ 32)
      × (get_total_add_str f ≡ (get_total_add_str e + stat_of EquipStat.add_str i.class) % 2 ^ 32)
      × (get_total_add_dex f ≡ (get_total_add_dex e + stat_of EquipStat.add_dex i.class) % 2 ^ 32)
      × (get_total_add_intel f
          ≡ (get_total_add_intel e + stat_of EquipStat.add_int i.class) % 2 ^ 32)
unfolding get_total_atk get_total_add_str get_total_add_dex get_total_add_intel
equip_at-totals e p i free = (
  record { equipments = set e.equipments (to_int32 p) (some i) },
  equip_at_old e p none (some i) free,
  sum_from-set EquipStat.add_atk e.equipments (to_int32 p) i free,
  sum_from-set EquipStat.add_str e.equipments (to_int32 p) i free,
  sum_from-set EquipStat.add_dex e.equipments (to_int32 p) i free,
  sum_from-set EquipStat.add_int e.equipments (to_int32 p) i free,
)
