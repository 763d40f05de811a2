-- ===== src/Model/Character/Keeping.antt =====
-- Wearing, taking off and destroying keep a character well formed and account for every item.
use ue4team_project_server.Common.{
  All-set, Bool-cases, tally-set, All-get, length-set, get_elem?_lt, ℕ, ◌+◌, ◌≡◌, refl, ap, sym,
  ◌∙◌, Bool, true, false, Option, none, some, get_elem?, set, tally, ok, ℤ, pos, arith, inl, inr,
  Result, subst, ◌==◌, if◌then◌else◌, ◌⊎◌,
}
use ue4team_project_server.Model.Item.{Item, is_equip}
use ue4team_project_server.Model.Inventory.{Slot}
use ue4team_project_server.Model.Equipment.{Equipment, Position, count, to_int32}
use ue4team_project_server.Model.Character.{
  wear, Character, in_range, as_equip, inventory_to_equipment, equipment_to_inventory,
}
use ue4team_project_server.Model.Character.Holding.{
  Occupied, Worn, IsInventory, IsEquipment, IsCharacter, place, set-IsInventory, in_range-cases,
}
use ue4team_project_server.Model.Character.Wearing.{
  position_lt, as_equip-some, wear_refused, wear_busy, wear_popped, wear-some, wear-none,
  take_off_refused, take_off_bare, take_off_done,
}

abbrev is_id : ℕ → Option Item → ℕ
is_id itemid none = 0
is_id itemid (some i) = if i.itemid == itemid then 1 else 0

abbrev slot_is : ℕ → Option Slot → ℕ
slot_is itemid none = 0
slot_is itemid (some s) = is_id itemid s.item

-- The places and positions that hold an item of this id.
abbrev pub instances : ℕ → Character → ℕ
instances itemid c =
    tally (slot_is itemid) c.inventory.slots + tally (is_id itemid) c.equipment.equipments

-- The place was emptied of an item that is no equip item.
abbrev pub Dropped : Character → ℤ → Character → Type 0
Dropped c i d =
    (n : ℕ) × (s : Slot) × (i ≡ pos n)
    × (get_elem? c.inventory.slots n ≡ some (some s))
    × (as_equip s.item ≡ none)
    × (d ≡ record c { inventory = record { slots = set c.inventory.slots n none } })

abbrev pub WearOutcome : ℕ → Character → ℤ → Bool → Character → Type 0
WearOutcome itemid c i done d =
    ((done ≡ true) × (instances itemid d ≡ instances itemid c))
    ⊎ ((done ≡ false) × ((d ≡ c) ⊎ Dropped c i d))

abbrev pub Wears : ℕ → Character → ℤ → Result (Bool × Character) → Type 0
Wears itemid c i r =
    (done : Bool) × (d : Character) × (r ≡ ok (done, d))
    × IsCharacter d
    × WearOutcome itemid c i done d

abbrev pub TakesOff : ℕ → Character → Result (Bool × Character) → Type 0
TakesOff itemid c r =
    (done : Bool) × (d : Character) × (r ≡ ok (done, d))
    × IsCharacter d
    × (((done ≡ true) × (instances itemid d ≡ instances itemid c)) ⊎ ((done ≡ false) × (d ≡ c)))

as_equip-none : (i : Item) → is_equip i ≡ false → as_equip (some i) ≡ none
as_equip-none i e = rw e

set-IsEquipment :
    (e : Equipment) (n : ℕ) (t : Option Item)
    → IsEquipment e
    → Worn t
    → IsEquipment (record { equipments = set e.equipments n t })
set-IsEquipment e n t h w = record {
  positions = length-set e.equipments n t ∙ h.positions;
  worn = All-set Worn e.equipments n t h.worn w;
}

position_at :
    (e : Equipment) (p : Position)
    → IsEquipment e
    → (p ≡ count → ⊥)
    → (t : Option Item) × (get_elem? e.equipments (to_int32 p) ≡ some t)
position_at e p h real =
    get_elem?_lt e.equipments (to_int32 p) (omega (arith, h.positions, position_lt p real))

module _ (itemid : ℕ) (c : Character) (h : IsCharacter c) (p : Position) where
  unchanged : (i : ℤ) (r : Result (Bool × Character)) → r ≡ ok (false, c) → Wears itemid c i r
  unchanged i r e = (false, c, e, h, inr (refl, inl refl))

  kept : (r : Result (Bool × Character)) → r ≡ ok (false, c) → TakesOff itemid c r
  kept r e = (false, c, e, h, inr (refl, refl))

  module _ (n : ℕ) (n_in : in_range (pos n) ≡ true) where
    emptied : Character
    emptied = record c { inventory = record { slots = set c.inventory.slots n none } }

    emptied_ok : IsInventory (record { slots = set c.inventory.slots n none })
    emptied_ok = set-IsInventory c.inventory n none h.inventory_ok tt

    module _ (s : Slot) (e : get_elem? c.inventory.slots n ≡ some (some s))
        (f : get_elem? c.equipment.equipments (to_int32 p) ≡ some none) where
      drop_it : as_equip s.item ≡ none → Wears itemid c (pos n) (inventory_to_equipment c (pos n) p)
      unfolding emptied
      drop_it g = (
        false,
        emptied,
        wear_popped c n p n_in s e f
            ∙ ap (wear c emptied.inventory p) g
            ∙ wear-none c n p n_in emptied.inventory,
        record { inventory_ok = emptied_ok; equipment_ok = h.equipment_ok },
        inr (refl, inr (n, s, refl, e, g, refl)),
      )

      put_on :
          (i : Item)
          → s.item ≡ some i
          → is_equip i ≡ true
          → Wears itemid c (pos n) (inventory_to_equipment c (pos n) p)
      put_on i k g = (
        true,
        record {
          inventory = record { slots = set c.inventory.slots n none };
          equipment = record { equipments = set c.equipment.equipments (to_int32 p) (some i) };
        },
        wear_popped c n p n_in s e f
            ∙ ap (λ x. wear c (record { slots = set c.inventory.slots n none }) p (as_equip x)) k
            ∙ ap (wear c (record { slots = set c.inventory.slots n none }) p) (as_equip-some i g)
            ∙ wear-some c n p n_in (record { slots = set c.inventory.slots n none }) i none f,
        record {
          inventory_ok = emptied_ok;
          equipment_ok = set-IsEquipment c.equipment (to_int32 p) (some i) h.equipment_ok g;
        },
        inl (
          refl,
          omega (
            arith,
            tally-set (slot_is itemid) c.inventory.slots n (some s) none e,
            tally-set (is_id itemid) c.equipment.equipments (to_int32 p) none (some i) f,
            ap (is_id itemid) k,
          ),
        ),
      )

      put_on_or_drop :
          (i : Item) → s.item ≡ some i → Wears itemid c (pos n) (inventory_to_equipment c (pos n) p)
      put_on_or_drop i k = elim (Bool-cases (is_equip i)) [
        | inl g ↦ put_on i k g
        | inr g ↦ drop_it (ap as_equip k ∙ as_equip-none i g)
      ]

    put_on_at :
        (t : Option Slot) (w : Option Item)
        → get_elem? c.inventory.slots n ≡ some t
        → get_elem? c.equipment.equipments (to_int32 p) ≡ some w
        → Wears itemid c (pos n) (inventory_to_equipment c (pos n) p)
    put_on_at none w e f = unchanged (pos n) _ (wear_refused c n p n_in e)
    put_on_at (some s) (some w) e f = unchanged (pos n) _ (wear_busy c n p n_in s w e f)
    put_on_at (some s) none e f =
        let (i, k) = All-get Occupied c.inventory.slots n (some s) h.inventory_ok.occupied e in
        put_on_or_drop s e f i k

    take_off_at :
        (t : Option Slot) (w : Option Item)
        → get_elem? c.inventory.slots n ≡ some t
        → get_elem? c.equipment.equipments (to_int32 p) ≡ some w
        → TakesOff itemid c (equipment_to_inventory c p (pos n))
    take_off_at (some s) w e f = kept _ (take_off_refused c n p n_in s e)
    take_off_at none none e f = kept _ (take_off_bare c n p n_in e f)
    take_off_at none (some i) e f = (
      true,
      _,
      take_off_done c n p n_in i e f,
      record {
        inventory_ok = set-IsInventory c.inventory n _ h.inventory_ok (i, refl);
        equipment_ok = set-IsEquipment c.equipment (to_int32 p) none h.equipment_ok tt;
      },
      inl (
        refl,
        omega (
          arith,
          tally-set (slot_is itemid) c.inventory.slots n none
              (some (record { item = some i; count = 1 })) e,
          tally-set (is_id itemid) c.equipment.equipments (to_int32 p) (some i) none f,
        ),
      ),
    )

-- On a well-formed character, for any index and any real position, putting on does not fault and
-- leaves the character well formed: it succeeds and no item is gained or lost, or it fails and
-- changes nothing, or it fails after it has emptied the place of an item that is no equip item.
pub inventory_to_equipment-Wears :
    (itemid : ℕ) (c : Character) (inventory_index : ℤ) (p : Position)
    → IsCharacter c
    → (p ≡ count → ⊥)
    → Wears itemid c inventory_index (inventory_to_equipment c inventory_index p)
unfolding inventory_to_equipment
inventory_to_equipment-Wears itemid c i p h real = elim (in_range-cases i) [
  | inl e ↦ unchanged itemid c h p i _ (rw e)
  | inr (n, en, n_in, n_lt) ↦
      let (t, e) = place c.inventory h.inventory_ok n n_lt in
      let (w, f) = position_at c.equipment p h.equipment_ok real in
      subst (λ k. Wears itemid c k (inventory_to_equipment c k p)) (sym en)
        (put_on_at itemid c h p n n_in t w e f)
]

-- On a well-formed character, for any index and any real position, taking off does not fault and
-- leaves the character well formed: it succeeds and no item is gained or lost, or it fails and
-- changes nothing.
pub equipment_to_inventory-TakesOff :
    (itemid : ℕ) (c : Character) (p : Position) (inventory_index : ℤ)
    → IsCharacter c
    → (p ≡ count → ⊥)
    → TakesOff itemid c (equipment_to_inventory c p inventory_index)
unfolding equipment_to_inventory
equipment_to_inventory-TakesOff itemid c p i h real = elim (in_range-cases i) [
  | inl e ↦ kept itemid c h p _ (rw e)
  | inr (n, en, n_in, n_lt) ↦
      let (t, e) = place c.inventory h.inventory_ok n n_lt in
      let (w, f) = position_at c.equipment p h.equipment_ok real in
      subst (λ k. TakesOff itemid c (equipment_to_inventory c p k)) (sym en)
        (take_off_at itemid c h p n n_in t w e f)
]
