-- ===== src/Model/Character/Moving.antt =====
-- What moving an item does, case by case.
use ue4team_project_server.Common.{
  ℕ, ◌+◌, ◌%◌, ◌^◌, ◌≡◌, Bool, true, false, Option, none, some, get_elem?, set, ok, pos, ◌==◌,
  if◌then◌else◌, arith,
}
use ue4team_project_server.Model.Item.{Item, type_equip}
use ue4team_project_server.Model.Inventory.{Inventory, Slot}
use ue4team_project_server.Model.Character.{
  Character, in_range, change_inventory_item_position, displace, stacks,
}
use ue4team_project_server.Model.Character.Holding.{has_item-none, has_item-some, pop-some, push_at}

-- Item `a`, which stands where `b` is moved to, takes it in.
abbrev pub stacked : Item → Item → Bool
stacked a b = if a.item_type == type_equip then false else a.itemid == b.itemid

stacks-some : (a b : Item) → stacks (some a) (some b) ≡ ok (stacked a b)
unfolding stacks
stacks-some a b = ground arith

abbrev pub grown : Slot → Slot → Slot
grown prev now = record prev { count = (prev.count + now.count) % 2 ^ 32 }

module _ (c : Character) (m n : ℕ) (m_in : in_range (pos m) ≡ true) (n_in : in_range (pos n) ≡ true)
    (prev : Slot) (e : get_elem? c.inventory.slots m ≡ some (some prev)) where
  abbrev rest : Inventory
  rest = record { slots = set c.inventory.slots m none }

  pub move_to_empty :
      (get_elem? rest.slots n ≡ some none)
      → change_inventory_item_position c (pos m) (pos n)
        ≡ ok (true, record c { inventory = record { slots = set rest.slots n (some prev) } })
  unfolding change_inventory_item_position
  move_to_empty f = rw (
    m_in,
    n_in,
    has_item-some c.inventory m prev e,
    pop-some c.inventory m prev e,
    has_item-none rest n f,
    push_at rest n none prev.item prev.count f,
  )

  module _ (now : Slot) (a b : Item) (f : get_elem? rest.slots n ≡ some (some now))
      (ha : now.item ≡ some a) (hb : prev.item ≡ some b) where
    pub displace_stack :
        stacked a b ≡ true
        → displace rest (pos m) (pos n) prev
          ≡ ok (grown prev now, record { slots = set rest.slots n none })
    unfolding displace
    displace_stack g = rw (pop-some rest n now f, ha, hb, stacks-some a b, g)

    pub displace_swap :
        (old : Option Slot)
        → get_elem? (set rest.slots n none) m ≡ some old
        → stacked a b ≡ false
        → displace rest (pos m) (pos n) prev
          ≡ ok (prev, record { slots = set (set rest.slots n none) m (some now) })
    unfolding displace
    displace_swap old k g = rw (
      pop-some rest n now f,
      ha,
      hb,
      stacks-some a b,
      g,
      push_at (record { slots = set rest.slots n none }) m old (some a) now.count k,
    )

    pub move_to_taken :
        (moved : Slot) (inventory : Inventory) (old : Option Slot)
        → displace rest (pos m) (pos n) prev ≡ ok (moved, inventory)
        → get_elem? inventory.slots n ≡ some old
        → change_inventory_item_position c (pos m) (pos n)
          ≡ ok
              (true, record c { inventory = record { slots = set inventory.slots n (some moved) } })
    unfolding change_inventory_item_position
    move_to_taken moved inventory old d k = rw (
      m_in,
      n_in,
      has_item-some c.inventory m prev e,
      pop-some c.inventory m prev e,
      has_item-some rest n now f,
      d,
      push_at inventory n old moved.item moved.count k,
    )
