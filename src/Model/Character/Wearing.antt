-- ===== src/Model/Character/Wearing.antt =====
-- Putting equip items on, taking them off, and destroying items.
use ue4team_project_server.Common.{
  set_same, set-set, get_elem?_within, get_elem?-set, lt→ltb, ℕ, ◌<◌, ◌≡◌, refl, ap, ◌∙◌, true,
  false, Option, none, some, get_elem?, set, ok, pos, arith,
}
use ue4team_project_server.Model.Item.{Item, is_equip}
use ue4team_project_server.Model.Inventory.{has_value, Inventory, Slot, inventory_size}
use ue4team_project_server.Model.Equipment.{
  Equipment, Position, armor, hand, shoes, weapon, count, to_int32, has_equip_item, equip_at,
  unequip,
}
use ue4team_project_server.Model.Character.{
  Character, in_range, as_equip, inventory_to_equipment, equipment_to_inventory, wear,
}
use ue4team_project_server.Model.Character.Holding.{has_item-none, has_item-some, pop-some, push_at}

module _ (e : Equipment) (p : Position) where
  has_equip_item_at :
      (t : Option Item)
      → get_elem? e.equipments (to_int32 p) ≡ some t
      → has_equip_item e p ≡ ok (has_value t)
  unfolding has_equip_item
  has_equip_item_at t g = rw g

  pub equip_at_old :
      (t item : Option Item)
      → get_elem? e.equipments (to_int32 p) ≡ some t
      → equip_at e p item ≡ ok (record { equipments = set e.equipments (to_int32 p) item })
  unfolding equip_at
  equip_at_old t item g = rw g

  unequip_at :
      (t : Option Item)
      → get_elem? e.equipments (to_int32 p) ≡ some t
      → unequip e p ≡ ok (t, record { equipments = set e.equipments (to_int32 p) none })
  unfolding unequip
  unequip_at t g = rw g

pub position_lt : (p : Position) → (p ≡ count → ⊥) → to_int32 p < 4
position_lt armor h = omega arith
position_lt hand h = omega arith
position_lt shoes h = omega arith
position_lt weapon h = omega arith
position_lt count h = absurd (h refl)

pub as_equip-some : (i : Item) → is_equip i ≡ true → as_equip (some i) ≡ some i
as_equip-some i e = rw e

module _ (c : Character) (n : ℕ) (p : Position) (n_in : in_range (pos n) ≡ true) where
  pub wear_refused :
      get_elem? c.inventory.slots n ≡ some none → inventory_to_equipment c (pos n) p ≡ ok (false, c)
  unfolding inventory_to_equipment
  wear_refused e = rw (n_in, has_item-none c.inventory n e)

  pub wear_busy :
      (s : Slot) (worn : Item)
      → get_elem? c.inventory.slots n ≡ some (some s)
      → get_elem? c.equipment.equipments (to_int32 p) ≡ some (some worn)
      → inventory_to_equipment c (pos n) p ≡ ok (false, c)
  unfolding inventory_to_equipment
  wear_busy s worn e f =
      rw (n_in, has_item-some c.inventory n s e, has_equip_item_at c.equipment p (some worn) f)

  pub wear_popped :
      (s : Slot)
      → get_elem? c.inventory.slots n ≡ some (some s)
      → get_elem? c.equipment.equipments (to_int32 p) ≡ some none
      → inventory_to_equipment c (pos n) p
        ≡ wear c (record { slots = set c.inventory.slots n none }) p (as_equip s.item)
  unfolding inventory_to_equipment
  wear_popped s e f = rw (
    n_in,
    has_item-some c.inventory n s e,
    has_equip_item_at c.equipment p none f,
    pop-some c.inventory n s e,
  )

  pub wear-some :
      (inventory : Inventory) (i : Item) (t : Option Item)
      → get_elem? c.equipment.equipments (to_int32 p) ≡ some t
      → wear c inventory p (some i)
        ≡ ok (
          true,
          record {
            inventory = inventory;
            equipment = record { equipments = set c.equipment.equipments (to_int32 p) (some i) };
          },
        )
  unfolding wear
  wear-some inventory i t f = rw (equip_at_old c.equipment p t (some i) f)

  pub wear-none :
      (inventory : Inventory)
      → wear c inventory p none ≡ ok (false, record c { inventory = inventory })
  unfolding wear
  wear-none inventory = refl

  pub take_off_refused :
      (s : Slot)
      → get_elem? c.inventory.slots n ≡ some (some s)
      → equipment_to_inventory c p (pos n) ≡ ok (false, c)
  unfolding equipment_to_inventory
  take_off_refused s e = rw (n_in, has_item-some c.inventory n s e)

  pub take_off_bare :
      get_elem? c.inventory.slots n ≡ some none
      → get_elem? c.equipment.equipments (to_int32 p) ≡ some none
      → equipment_to_inventory c p (pos n) ≡ ok (false, c)
  unfolding equipment_to_inventory
  take_off_bare e f =
      rw (n_in, has_item-none c.inventory n e, has_equip_item_at c.equipment p none f)

  pub take_off_done :
      (i : Item)
      → get_elem? c.inventory.slots n ≡ some none
      → get_elem? c.equipment.equipments (to_int32 p) ≡ some (some i)
      → equipment_to_inventory c p (pos n)
        ≡ ok (
          true,
          record {
            inventory = record {
              slots = set c.inventory.slots n (some (record { item = some i; count = 1 }));
            };
            equipment = record { equipments = set c.equipment.equipments (to_int32 p) none };
          },
        )
  unfolding equipment_to_inventory
  take_off_done i e f = rw (
    n_in,
    has_item-none c.inventory n e,
    has_equip_item_at c.equipment p (some i) f,
    unequip_at c.equipment p (some i) f,
    push_at c.inventory n none (some i) 1 e,
  )

-- An equip item that stands alone in a place of the inventory is put on a free position and its
-- place becomes empty, and taking it off to that place gives the character back.
pub wear_and_take_off :
    (c : Character) (n : ℕ) (p : Position) (i : Item)
    → n < inventory_size
    → get_elem? c.inventory.slots n ≡ some (some (record { item = some i; count = 1 }))
    → is_equip i ≡ true
    → get_elem? c.equipment.equipments (to_int32 p) ≡ some none
    → (d : Character) × (inventory_to_equipment c (pos n) p ≡ ok (true, d))
      × (get_elem? d.inventory.slots n ≡ some none)
      × (get_elem? d.equipment.equipments (to_int32 p) ≡ some (some i))
      × (equipment_to_inventory d p (pos n) ≡ ok (true, c))
wear_and_take_off c n p i n_lt held eq free = (
  d,
  wear_popped c n p n_in _ held free
      ∙ ap (wear c d.inventory p) (as_equip-some i eq)
      ∙ wear-some c n p n_in d.inventory i none free,
  emptied,
  worn,
  take_off_done d n p n_in i emptied worn ∙ ap (λ x. ok (true, x)) back,
)
  where
    n_in : in_range (pos n) ≡ true
    n_in = lt→ltb n inventory_size n_lt

    d : Character
    d = record {
      inventory = record { slots = set c.inventory.slots n none };
      equipment = record { equipments = set c.equipment.equipments (to_int32 p) (some i) };
    }

    emptied : get_elem? d.inventory.slots n ≡ some none
    emptied = get_elem?-set c.inventory.slots n none (get_elem?_within c.inventory.slots n _ held)

    worn : get_elem? d.equipment.equipments (to_int32 p) ≡ some (some i)
    worn =
        get_elem?-set c.equipment.equipments (to_int32 p) (some i)
          (get_elem?_within c.equipment.equipments (to_int32 p) _ free)

    back :
        record {
          inventory = record {
            slots = set d.inventory.slots n (some (record { item = some i; count = 1 }));
          };
          equipment = record { equipments = set d.equipment.equipments (to_int32 p) none };
        }
        ≡ c
    back = rw (
      set-set c.inventory.slots n none (some (record { item = some i; count = 1 })),
      set_same c.inventory.slots n _ held,
      set-set c.equipment.equipments (to_int32 p) (some i) none,
      set_same c.equipment.equipments (to_int32 p) _ free,
    )
