-- ===== src/Model/Character/Placing.antt =====
-- Taking off to the first empty place, and destroying what a place holds.
use ue4team_project_server.Common.{
  suc, ℕ, ◌+◌, ◌≡◌, refl, sym, ap, ◌∙◌, subst, Bool, true, false, Option, none, some, List, [], ◌∷◌,
  get_elem?, set, take, All, tally-set, get_elem?_within, Result, ok, ℤ, pos, negsuc, arith, ◌⊎◌,
  inl, inr, lt→ltb,
}
use ue4team_project_server.Model.Item.{Item}
use ue4team_project_server.Model.Inventory.{
  Slot, inventory_size, has_value, empty_from, get_empty_slot_index,
}
use ue4team_project_server.Model.Equipment.{Position, to_int32}
use ue4team_project_server.Model.Character.{
  Character, in_range, equipment_to_inventory, equipment_to_first_empty, destory_item,
}
use ue4team_project_server.Model.Character.Holding.{
  IsCharacter, slot_amount, amount, place, has_item-none, has_item-some, pop-some, set-IsInventory,
  in_range-cases,
}
use ue4team_project_server.Model.Character.Wearing.{take_off_done}

-- Every place is taken.
abbrev pub Full : List (Option Slot) → Type 0
Full = All (λ s. has_value s ≡ true)

-- The loop finds the first empty place, or -1 when there is none.
empty_from-first :
    (i : ℕ) (slots : List (Option Slot))
    → ((empty_from i slots ≡ negsuc 0) × Full slots)
      ⊎ ((n : ℕ) × (empty_from i slots ≡ pos (i + n))
          × (get_elem? slots n ≡ some none)
          × Full (take n slots))
empty_from-first i [] = inl (refl, tt)
empty_from-first i (none ∷ slots) = inr (0, ap pos (omega arith), refl, tt)
empty_from-first i (some s ∷ slots) = elim (empty_from-first (suc i) slots) [
  | inl (e, f) ↦ inl (e, (refl, f))
  | inr (n, e, g, f) ↦ inr (suc n, e ∙ ap pos (omega arith), g, (refl, f))
]

take_off_nowhere :
    (c : Character) (p : Position) → equipment_to_inventory c p (negsuc 0) ≡ ok (false, c)
unfolding equipment_to_inventory
take_off_nowhere c p = refl

-- On a well-formed character with an item on the position, taking off without a place puts the item
-- into the first empty place, with all places before it taken, or fails and changes nothing when
-- every place is taken.
pub take_off_to_first_empty :
    (c : Character) (p : Position) (i : Item)
    → IsCharacter c
    → get_elem? c.equipment.equipments (to_int32 p) ≡ some (some i)
    → (Full c.inventory.slots × (equipment_to_first_empty c p ≡ ok (false, c)))
      ⊎ ((n : ℕ) × (get_elem? c.inventory.slots n ≡ some none)
          × Full (take n c.inventory.slots)
          × (equipment_to_first_empty c p
              ≡ ok (
                true,
                record {
                  inventory = record {
                    slots = set c.inventory.slots n (some (record { item = some i; count = 1 }));
                  };
                  equipment = record { equipments = set c.equipment.equipments (to_int32 p) none };
                },
              )))
unfolding equipment_to_first_empty get_empty_slot_index
take_off_to_first_empty c p i h worn = elim (empty_from-first 0 c.inventory.slots) [
  | inl (e, f) ↦ inl (f, ap (equipment_to_inventory c p) e ∙ take_off_nowhere c p)
  | inr (n, e, g, f) ↦
      let n_lt = get_elem?_within c.inventory.slots n none g in
      inr (
        n,
        g,
        f,
        ap (equipment_to_inventory c p) (e ∙ ap pos (omega arith))
            ∙ take_off_done c n p (lt→ltb n inventory_size (omega (arith, h.inventory_ok.places))) i
                g worn,
      )
]

-- What destroying at an index comes to.
abbrev pub Destroys : ℕ → Character → ℤ → Result (Bool × Character) → Type 0
Destroys itemid c i r =
    (done : Bool) × (d : Character) × (r ≡ ok (done, d))
    × IsCharacter d
    × (((done ≡ false) × (d ≡ c))
        ⊎ ((done ≡ true)
            × ((n : ℕ) × (s : Slot) × (i ≡ pos n)
                × (get_elem? c.inventory.slots n ≡ some (some s))
                × (amount itemid d.inventory + slot_amount itemid (some s)
                    ≡ amount itemid c.inventory))))

module _ (itemid : ℕ) (c : Character) (h : IsCharacter c) (n : ℕ)
    (n_in : in_range (pos n) ≡ true) where
  destroy_at :
      (t : Option Slot)
      → get_elem? c.inventory.slots n ≡ some t
      → Destroys itemid c (pos n) (destory_item c (pos n))
  unfolding destory_item
  destroy_at none e = (false, c, rw (n_in, has_item-none c.inventory n e), h, inl (refl, refl))
  destroy_at (some s) e = (
    true,
    record c { inventory = record { slots = set c.inventory.slots n none } },
    rw (n_in, has_item-some c.inventory n s e, pop-some c.inventory n s e),
    record {
      inventory_ok = set-IsInventory c.inventory n none h.inventory_ok tt;
      equipment_ok = h.equipment_ok;
    },
    inr (
      refl,
      (
        n,
        s,
        refl,
        e,
        omega (arith, tally-set (slot_amount itemid) c.inventory.slots n (some s) none e),
      ),
    ),
  )

-- Destroying never faults on a well-formed character: it takes what the place holds out of the count
-- of every item, or fails and changes nothing.
pub destory_item-Destroys :
    (itemid : ℕ) (c : Character) (inventory_index : ℤ)
    → IsCharacter c
    → Destroys itemid c inventory_index (destory_item c inventory_index)
unfolding destory_item
destory_item-Destroys itemid c i h = elim (in_range-cases i) [
  | inl e ↦ (false, c, rw e, h, inl (refl, refl))
  | inr (n, en, n_in, n_lt) ↦
      let (t, e) = place c.inventory h.inventory_ok n n_lt in
      subst (λ k. Destroys itemid c k (destory_item c k)) (sym en)
        (destroy_at itemid c h n n_in t e)
]
