-- ===== src/Model/Character.antt =====
-- UE4Model/Model/Character/Character.cpp: what a character does with its inventory and equipment. An
-- operation returns its result and the character after it; the character's lock is held throughout.
pub mod Holding
pub mod Moving
pub mod Counting
pub mod Exchange
pub mod Wearing
pub mod Keeping
pub mod Totals
pub mod Placing
use ue4team_project_server.Common.{
  ◌||◌, ◌+◌, ◌%◌, ◌^◌, Bool, true, false, not, ◌&&◌, ltb, ◌==◌, if◌then◌else◌, Option, none, some,
  Result, ok, ◌>>=◌, deref, ℤ, is_negative, to_ℕ,
}
use ue4team_project_server.Model.Item.{Item, is_equip, type_equip}
use ue4team_project_server.Model.Inventory.{
  Inventory, Slot, inventory_size, has_item, push, pop, get_empty_slot_index,
}
use ue4team_project_server.Model.Equipment.{Equipment, Position, has_equip_item, equip_at, unequip}

pub record Character : Type 0 where
  pub inventory : Inventory
  pub equipment : Equipment

abbrev pub in_range : ℤ → Bool
in_range i = not (is_negative i) && ltb (to_ℕ i) inventory_size

-- `dynamic_pointer_cast<EquipItem>`.
abbrev pub as_equip : Option Item → Option Item
as_equip none = none
as_equip (some i) = if is_equip i then some i else none

-- The popped slot's item is put on if it is an equip item, and is lost if it is not.
unfoldable pub wear : Character → Inventory → Position → Option Item → Result (Bool × Character)
wear c inventory p none = ok (false, record c { inventory = inventory })
wear c inventory p (some i) = do
  equipment ← equip_at c.equipment p (some i)
  ok (true, record { inventory = inventory; equipment = equipment })

unfoldable pub inventory_to_equipment : Character → ℤ → Position → Result (Bool × Character)
unfolding wear
inventory_to_equipment c inventory_index p =
    if not (in_range inventory_index)
    then ok (false, c)
    else (has_item c.inventory inventory_index >>= λ has.
        if not has
        then ok (false, c)
        else (has_equip_item c.equipment p >>= λ worn. if worn then ok (false, c) else (do
          (slot, inventory) ← pop c.inventory inventory_index
          wear c inventory p (as_equip slot.item))))

-- The overload that is given the place.
unfoldable pub equipment_to_inventory : Character → Position → ℤ → Result (Bool × Character)
equipment_to_inventory c p inventory_index =
    if not (in_range inventory_index)
    then ok (false, c)
    else (has_item c.inventory inventory_index >>= λ has.
        if has
        then ok (false, c)
        else (has_equip_item c.equipment p >>= λ worn. if not worn then ok (false, c) else (do
          (item, equipment) ← unequip c.equipment p
          inventory ← push c.inventory inventory_index item 1
          ok (true, record { inventory = inventory; equipment = equipment }))))

-- The overload that looks for a place.
unfoldable pub equipment_to_first_empty : Character → Position → Result (Bool × Character)
equipment_to_first_empty c p = equipment_to_inventory c p (get_empty_slot_index c.inventory)

-- Whether the item that stands at the new place is stacked with the moved one.
unfoldable pub stacks : Option Item → Option Item → Result Bool
stacks now prev = do
  n ← deref now
  if n.item_type == type_equip then ok false else (deref prev >>= λ p. ok (n.itemid == p.itemid))

-- The new place, when it is not empty: a stack grows, another item changes places.
unfoldable pub displace : Inventory → ℤ → ℤ → Slot → Result (Slot × Inventory)
unfolding stacks
displace inventory prev_index new_index prev = do
  (now, rest) ← pop inventory new_index
  stacked ← stacks now.item prev.item
  if stacked
      then ok (record prev { count = (prev.count + now.count) % 2 ^ 32 }, rest)
      else (push rest prev_index now.item now.count >>= λ swapped. ok (prev, swapped))

unfoldable pub change_inventory_item_position : Character → ℤ → ℤ → Result (Bool × Character)
unfolding displace
change_inventory_item_position c prev_index new_index =
    if not (in_range prev_index) || not (in_range new_index)
    then ok (false, c)
    else (has_item c.inventory prev_index >>= λ has. if not has then ok (false, c) else (do
      (prev, rest) ← pop c.inventory prev_index
      taken ← has_item rest new_index
      (moved, inventory) ←
          (if taken then displace rest prev_index new_index prev else ok (prev, rest))
      placed ← push inventory new_index moved.item moved.count
      ok (true, record c { inventory = placed })))

unfoldable pub destory_item : Character → ℤ → Result (Bool × Character)
destory_item c inventory_index =
    if not (in_range inventory_index)
    then ok (false, c)
    else (has_item c.inventory inventory_index >>= λ has. if not has then ok (false, c) else (do
      (_, inventory) ← pop c.inventory inventory_index
      ok (true, record c { inventory = inventory })))
