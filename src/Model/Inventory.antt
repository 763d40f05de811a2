-- ===== src/Model/Inventory.antt =====
-- UE4Model/Model/Character/Inventory.cpp: thirty places, each empty or with an item and its count.
-- Access outside the array or to an empty place is a fault, since the source does not test for it.
use ue4team_project_server.Common.{
  ℕ, suc, Bool, true, false, ◌==◌, Option, none, some, List, [], ◌∷◌, get_elem?, set, Result, ok,
  fault, ◌>>=◌, deref, ℤ, pos, negsuc, to_ℕ,
}
use ue4team_project_server.Model.Item.{Item}

abbrev pub inventory_size : ℕ
inventory_size = 30

-- `item` is a shared_ptr, which may be null; `count` is an int32 pattern.
pub record Slot : Type 0 where
  pub item : Option Item
  pub count : ℕ

pub record Inventory : Type 0 where
  pub slots : List (Option Slot)

-- `array_[i]` of an array.
abbrev pub at {ℓ} : {A : Type ℓ} → List A → ℤ → Result A
at xs (pos i) = deref (get_elem? xs i)
at xs (negsuc i) = fault

abbrev pub has_value {ℓ} : {A : Type ℓ} → Option A → Bool
has_value none = false
has_value (some a) = true

unfoldable pub has_item : Inventory → ℤ → Result Bool
has_item inventory slot_index = do slot ← at inventory.slots slot_index; ok (has_value slot)

unfoldable pub push : Inventory → ℤ → Option Item → ℕ → Result Inventory
push inventory slot_index item count = do
  _ ← at inventory.slots slot_index
  ok (record {
    slots = set inventory.slots (to_ℕ slot_index) (some (record { item = item; count = count }));
  })

unfoldable pub get : Inventory → ℤ → Result Slot
get inventory slot_index = do slot ← at inventory.slots slot_index; deref slot

unfoldable pub pop : Inventory → ℤ → Result (Slot × Inventory)
pop inventory slot_index = do
  place ← at inventory.slots slot_index
  slot ← deref place
  ok (slot, record { slots = set inventory.slots (to_ℕ slot_index) none })

-- The loop from place `i` on.
abbrev pub empty_from : ℕ → List (Option Slot) → ℤ
empty_from i [] = negsuc 0
empty_from i (none ∷ slots) = pos i
empty_from i (some _ ∷ slots) = empty_from (suc i) slots

unfoldable pub get_empty_slot_index : Inventory → ℤ
get_empty_slot_index inventory = empty_from 0 inventory.slots

abbrev is_minus_one : ℤ → Bool
is_minus_one (pos n) = false
is_minus_one (negsuc n) = n == 0

unfoldable pub is_full : Inventory → Bool
is_full inventory = is_minus_one (get_empty_slot_index inventory)
