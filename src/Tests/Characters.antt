-- ===== src/Tests/Characters.antt =====
-- A character with a stack of potions, a sword and a coat.
use ue4team_project_server.Model.Character.Exchange.{Moves, change_inventory_item_position-Moves}
use ue4team_project_server.Common.{
  ◌++◌, ◌≢◌, ◌%◌, ◌^◌, ◌+◌, All-replicate, ℕ, ◌≡◌, refl, true, false, Option, none, some, [], ◌∷◌,
  replicate, get_elem?, ok, pos, negsuc, arith, All,
}
use ue4team_project_server.Model.Character.Totals.{equip_at-totals}
use ue4team_project_server.Model.Equipment.{
  Equipment, equip_at, get_total_atk, get_total_add_str, get_total_add_dex, get_total_add_intel,
  has_equip_item, weapon, count,
}
use ue4team_project_server.Model.Item.{equip, type_equip, Item, consume_item, equip_item}
use ue4team_project_server.Model.Inventory.{has_item, pop, push, Slot, get_empty_slot_index}
use ue4team_project_server.Model.Character.{
  wear, displace, stacks, Character, change_inventory_item_position, inventory_to_equipment,
  equipment_to_inventory,
}
use ue4team_project_server.Model.Character.Holding.{IsCharacter, Occupied}
use ue4team_project_server.Stream.Bytes.{to_bytes}
use ue4team_project_server.Stream.ByteStream.{ByteStream}
use ue4team_project_server.Stream.InputStream.{read_fixed}
use ue4team_project_server.Migration.Arrival.{framed}
use ue4team_project_server.Channel.Packets.{value_of}
use ue4team_project_server.ZoneServer.Inventories.{
  read_places, handle_inventory_update, inventory_update, moved_item_is_hidden,
}
use ue4team_project_server.Model.Character.Counting.{Kept, change_inventory_item_position-Kept}
use ue4team_project_server.Model.Character.Wearing.{wear_and_take_off}
use ue4team_project_server.Model.Character.Keeping.{Wears, inventory_to_equipment-Wears}

abbrev held : Item → ℕ → Option Slot
held i n = some (record { item = some i; count = n })

abbrev hero : Character
hero = record {
  inventory = record {
    slots =
        held (consume_item 7) 3
        ∷ held (consume_item 7) 4
        ∷ held (equip_item 300001) 1
        ∷ replicate 27 none;
  };
  equipment = record { equipments = some (equip_item 1) ∷ none ∷ none ∷ none ∷ [] };
}

hero-IsCharacter : IsCharacter hero
hero-IsCharacter = record {
  inventory_ok = record {
    places = refl;
    occupied =
        ((consume_item 7, refl), ((consume_item 7, refl), ((equip_item 300001, refl), empties)));
  };
  equipment_ok = record { positions = refl; worn = (refl, (tt, (tt, (tt, tt)))) };
}
  where
    empties : All Occupied (replicate 27 none)
    empties = All-replicate Occupied 27 none tt

-- Two stacks of the same potion become one.
stacking :
    change_inventory_item_position hero (pos 0) (pos 1)
    ≡ ok (
      true,
      record hero {
        inventory = record {
          slots = none ∷ held (consume_item 7) 7 ∷ held (equip_item 300001) 1 ∷ replicate 27 none;
        };
      },
    )
unfolding change_inventory_item_position has_item pop push displace stacks
stacking = refl

-- Other items change places, and an index out of range does nothing.
swapping :
    change_inventory_item_position hero (pos 0) (pos 2)
    ≡ ok (
      true,
      record hero {
        inventory = record {
          slots =
              held (equip_item 300001) 1
              ∷ held (consume_item 7) 4
              ∷ held (consume_item 7) 3
              ∷ replicate 27 none;
        };
      },
    )
unfolding change_inventory_item_position has_item pop push displace stacks
swapping = refl

out_of_range : change_inventory_item_position hero (negsuc 0) (pos 30) ≡ ok (false, hero)
unfolding change_inventory_item_position has_item pop push displace stacks
out_of_range = refl

first_empty : get_empty_slot_index (hero.inventory) ≡ pos 3
unfolding get_empty_slot_index
first_empty = refl

change_inventory_item_position-Kept_example :
    Kept 7 hero (change_inventory_item_position hero (pos 0) (pos 1))
change_inventory_item_position-Kept_example =
    change_inventory_item_position-Kept 7 hero (pos 0) (pos 1) hero-IsCharacter

wear_and_take_off_example :
    (d : Character) × (inventory_to_equipment hero (pos 2) weapon ≡ ok (true, d))
    × (get_elem? d.inventory.slots 2 ≡ some none)
    × (get_elem? d.equipment.equipments 3 ≡ some (some (equip_item 300001)))
    × (equipment_to_inventory d weapon (pos 2) ≡ ok (true, hero))
wear_and_take_off_example =
    wear_and_take_off hero 2 weapon (equip_item 300001) (omega arith) refl refl refl

real_weapon : weapon ≡ count → ⊥
real_weapon e = cc

inventory_to_equipment-Wears_example :
    Wears 7 hero (pos 0) (inventory_to_equipment hero (pos 0) weapon)
inventory_to_equipment-Wears_example =
    inventory_to_equipment-Wears 7 hero (pos 0) weapon hero-IsCharacter real_weapon

-- A potion is not worn, and is gone.
dropping :
    inventory_to_equipment hero (pos 0) weapon
    ≡ ok (
      false,
      record hero {
        inventory = record {
          slots = none ∷ held (consume_item 7) 4 ∷ held (equip_item 300001) 1 ∷ replicate 27 none;
        };
      },
    )
unfolding inventory_to_equipment has_item has_equip_item pop wear
dropping = refl

abbrev sword : Item
sword = record {
  item_type = type_equip;
  itemid = 300002;
  class = equip (record { add_atk = 30; add_def = 0; add_str = 1; add_dex = 2; add_int = 3 });
}

equip_at-totals_example :
    (f : Equipment) × (equip_at hero.equipment weapon (some sword) ≡ ok f)
    × (get_total_atk f ≡ (get_total_atk hero.equipment + 30) % 2 ^ 32)
    × (get_total_add_str f ≡ (get_total_add_str hero.equipment + 1) % 2 ^ 32)
    × (get_total_add_dex f ≡ (get_total_add_dex hero.equipment + 2) % 2 ^ 32)
    × (get_total_add_intel f ≡ (get_total_add_intel hero.equipment + 3) % 2 ^ 32)
equip_at-totals_example = equip_at-totals hero.equipment weapon sword refl

zero_two : ◌≢◌ {A = ℕ} 0 2
zero_two e = omega arith

zero_one : ◌≢◌ {A = ℕ} 0 1
zero_one e = omega arith

two_one : ◌≢◌ {A = ℕ} 2 1
two_one e = omega arith

change_inventory_item_position-Moves_example :
    Moves hero 0 2 1
      (record { item = some (consume_item 7); count = 3 })
      (change_inventory_item_position hero (pos 0) (pos 2))
change_inventory_item_position-Moves_example =
    change_inventory_item_position-Moves hero 0 2 1
      (record { item = some (consume_item 7); count = 3 }) hero-IsCharacter (omega arith)
      (omega arith) refl zero_two zero_one two_one

-- The reply to the stacking.
abbrev stacked_hero : Character
stacked_hero = record hero {
  inventory = record {
    slots = none ∷ held (consume_item 7) 7 ∷ held (equip_item 300001) 1 ∷ replicate 27 none;
  };
}

abbrev update_request : ByteStream
update_request = record (framed (to_bytes 2 1003 ++ (to_bytes 4 0 ++ to_bytes 4 1))) {
  access_offset = 4;
}

update_read : value_of (read_places update_request) ≡ ok (record { slot1 = 0; slot2 = 1 })
unfolding read_fixed to_bytes
update_read = refl

moved_item_is_hidden_example :
    ((now : Slot) × (get_elem? stacked_hero.inventory.slots 1 ≡ some (some now)))
    × (handle_inventory_update (some hero) update_request
        ≡ ok (some (stacked_hero, inventory_update 0 none 0 1 none 0)))
moved_item_is_hidden_example =
    moved_item_is_hidden 0 1 (omega arith) (omega arith) hero stacked_hero
      (record { item = some (consume_item 7); count = 3 }) update_request hero-IsCharacter
      (λ e. absurd (omega arith)) update_read refl stacking refl
