-- ===== src/Model/Character/Holding.antt =====
-- What a character holds: the places that its operations keep well formed, and the count of each item.
use ue4team_project_server.Common.{
  refl, ltb→lt, inr, ltb, Bool-cases, All-set, ◌∙◌, inl, length-set, get_elem?_lt, ◌⊎◌, ℕ, ◌<◌, ◌≡◌,
  true, false, Option, none, some, get_elem?, set, length, All, tally, ok, ℤ, pos, negsuc, ◌==◌,
  if◌then◌else◌, arith,
}
use ue4team_project_server.Model.Item.{Item, is_equip}
use ue4team_project_server.Model.Inventory.{Inventory, Slot, inventory_size, has_item, push, pop}
use ue4team_project_server.Model.Equipment.{Equipment}
use ue4team_project_server.Model.Character.{Character, in_range}

abbrev pub Occupied : Option Slot → Type 0
Occupied none = Unit
Occupied (some s) = (i : Item) × (s.item ≡ some i)

abbrev pub Worn : Option Item → Type 0
Worn none = Unit
Worn (some i) = is_equip i ≡ true

-- Thirty places, and an occupied one holds an item.
pub record IsInventory (inventory : Inventory) : Type 0 where
  pub places : length inventory.slots ≡ inventory_size
  pub occupied : All Occupied inventory.slots

-- Four positions, and what is worn is an equip item.
pub record IsEquipment (equipment : Equipment) : Type 0 where
  pub positions : length equipment.equipments ≡ 4
  pub worn : All Worn equipment.equipments

pub record IsCharacter (c : Character) : Type 0 where
  pub inventory_ok : IsInventory c.inventory
  pub equipment_ok : IsEquipment c.equipment

abbrev item_amount : ℕ → Option Item → ℕ → ℕ
item_amount itemid none n = 0
item_amount itemid (some i) n = if i.itemid == itemid then n else 0

abbrev pub slot_amount : ℕ → Option Slot → ℕ
slot_amount itemid none = 0
slot_amount itemid (some s) = item_amount itemid s.item s.count

-- The count of an item over all places.
abbrev pub amount : ℕ → Inventory → ℕ
amount itemid inventory = tally (slot_amount itemid) inventory.slots

module _ (inventory : Inventory) (h : IsInventory inventory) (n : ℕ)
    (within : n < inventory_size) where
  pub place : (s : Option Slot) × (get_elem? inventory.slots n ≡ some s)
  place = get_elem?_lt inventory.slots n (omega (arith, h.places))

module _ (inventory : Inventory) (n : ℕ) where
  pub has_item-none :
      get_elem? inventory.slots n ≡ some none → has_item inventory (pos n) ≡ ok false
  unfolding has_item
  has_item-none e = rw e

  pub has_item-some :
      (s : Slot)
      → get_elem? inventory.slots n ≡ some (some s)
      → has_item inventory (pos n) ≡ ok true
  unfolding has_item
  has_item-some s e = rw e

  pub pop-some :
      (s : Slot)
      → get_elem? inventory.slots n ≡ some (some s)
      → pop inventory (pos n) ≡ ok (s, record { slots = set inventory.slots n none })
  unfolding pop
  pop-some s e = rw e

  pub push_at :
      (old : Option Slot) (item : Option Item) (count : ℕ)
      → get_elem? inventory.slots n ≡ some old
      → push inventory (pos n) item count
        ≡ ok (record {
          slots = set inventory.slots n (some (record { item = item; count = count }));
        })
  unfolding push
  push_at old item count e = rw e

pub set-IsInventory :
    (inventory : Inventory) (n : ℕ) (s : Option Slot)
    → IsInventory inventory
    → Occupied s
    → IsInventory (record { slots = set inventory.slots n s })
set-IsInventory inventory n s h o = record {
  places = length-set inventory.slots n s ∙ h.places;
  occupied = All-set Occupied inventory.slots n s h.occupied o;
}

-- In range is a number below thirty.
pub in_range-cases :
    (i : ℤ)
    → (in_range i ≡ false)
      ⊎ ((n : ℕ) × (i ≡ pos n) × (in_range (pos n) ≡ true) × n < inventory_size)
in_range-cases (negsuc n) = inl refl
in_range-cases (pos n) = elim (Bool-cases (ltb n inventory_size)) [
  | inl e ↦ inr (n, refl, e, ltb→lt n inventory_size e)
  | inr e ↦ inl e
]
