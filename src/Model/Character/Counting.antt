-- ===== src/Model/Character/Counting.antt =====
-- Moving an item keeps the character well formed and the count of every item.
use ue4team_project_server.Common.{
  subst, not, or_true, All-set, ap, All-get, inr, ◌∙◌, length-set, inl, sym, get_elem?_lt,
  Bool-cases, get_elem?-set_ne, ◌≢◌, get_elem?-set, tally-set, ℕ, ◌+◌, ◌%◌, ◌^◌, ◌<◌, ◌≡◌, refl,
  Bool, true, false, Option, none, some, List, get_elem?, set, tally, Result, ok, ℤ, pos, arith,
}
use ue4team_project_server.Model.Item.{Item}
use ue4team_project_server.Model.Inventory.{Inventory, Slot, inventory_size}
use ue4team_project_server.Model.Character.{Character, in_range, change_inventory_item_position}
use ue4team_project_server.Model.Character.Holding.{
  Occupied, IsInventory, IsCharacter, slot_amount, amount, place, has_item-none, set-IsInventory,
  in_range-cases,
}
use ue4team_project_server.Model.Character.Moving.{
  stacked, grown, move_to_empty, move_to_taken, displace_stack, displace_swap,
}

abbrev pub Kept : ℕ → Character → Result (Bool × Character) → Type 0
Kept itemid c r =
    (done : Bool) × (d : Character) × (r ≡ ok (done, d))
    × IsCharacter d
    × (d.equipment ≡ c.equipment)
    × (amount itemid d.inventory % 2 ^ 32 ≡ amount itemid c.inventory % 2 ^ 32)

kept_refused :
    (itemid : ℕ) (c : Character) (r : Result (Bool × Character))
    → IsCharacter c
    → r ≡ ok (false, c)
    → Kept itemid c r
kept_refused itemid c r h e = (false, c, e, h, refl, refl)

kept_done :
    (itemid : ℕ) (c : Character) (inventory : Inventory) (r : Result (Bool × Character))
    → IsCharacter c
    → IsInventory inventory
    → amount itemid inventory % 2 ^ 32 ≡ amount itemid c.inventory % 2 ^ 32
    → r ≡ ok (true, record c { inventory = inventory })
    → Kept itemid c r
kept_done itemid c inventory r h i a e = (
  true,
  record c { inventory = inventory },
  e,
  record { inventory_ok = i; equipment_ok = h.equipment_ok },
  refl,
  a,
)

some-none : {s : Slot} → some (some s) ≡ some none → ⊥
some-none e = cc

stacked_same : (a b : Item) → stacked a b ≡ true → a.itemid ≡ b.itemid
stacked_same a b g = ground arith

amount-grown :
    (itemid : ℕ) (prev now : Slot) (a b : Item)
    → now.item ≡ some a
    → prev.item ≡ some b
    → stacked a b ≡ true
    → slot_amount itemid (some (grown prev now))
      ≡ (slot_amount itemid (some prev) + slot_amount itemid (some now)) % 2 ^ 32
amount-grown itemid prev now a b ha hb g =
    let same = stacked_same a b g in rw (ha, hb, same) (ground arith)

moved_to_empty :
    (itemid : ℕ) (slots : List (Option Slot)) (m n : ℕ) (prev : Slot)
    → get_elem? slots m ≡ some (some prev)
    → get_elem? (set slots m none) n ≡ some none
    → tally (slot_amount itemid) (set (set slots m none) n (some prev))
      ≡ tally (slot_amount itemid) slots
moved_to_empty itemid slots m n prev e f = omega (
  arith,
  tally-set (slot_amount itemid) slots m (some prev) none e,
  tally-set (slot_amount itemid) (set slots m none) n none (some prev) f,
)

module _ (itemid : ℕ) (c : Character) (h : IsCharacter c) (m n : ℕ) (m_in : in_range (pos m) ≡ true)
    (n_in : in_range (pos n) ≡ true) (m_lt : m < inventory_size) (n_lt : n < inventory_size)
    (prev : Slot) (e : get_elem? c.inventory.slots m ≡ some (some prev)) (b : Item)
    (hb : prev.item ≡ some b) where
  abbrev first : List (Option Slot)
  first = set c.inventory.slots m none

  first_ok : IsInventory (record { slots = first })
  first_ok = set-IsInventory c.inventory m none h.inventory_ok tt

  module _ (now : Slot) (f : get_elem? first n ≡ some (some now)) (a : Item)
      (ha : now.item ≡ some a) where
    abbrev second : List (Option Slot)
    second = set first n none

    second_ok : IsInventory (record { slots = second })
    second_ok = set-IsInventory (record { slots = first }) n none first_ok tt

    emptied : get_elem? second n ≡ some none
    emptied = get_elem?-set first n none (omega (arith, first_ok.places))

    apart : n ≢ m
    apart q = absurd (
        some-none (
          sym f
          ∙ ap (get_elem? first) q
          ∙ get_elem?-set c.inventory.slots m none (omega (arith, h.inventory_ok.places))))

    origin : get_elem? second m ≡ some none
    origin =
        get_elem?-set_ne first n m none apart
        ∙ get_elem?-set c.inventory.slots m none (omega (arith, h.inventory_ok.places))

    stack : stacked a b ≡ true → Kept itemid c (change_inventory_item_position c (pos m) (pos n))
    stack g =
        kept_done itemid c _ _ h
          (set-IsInventory (record { slots = second }) n (some (grown prev now)) second_ok (b, hb))
          (omega (
            arith,
            amount-grown itemid prev now a b ha hb g,
            tally-set (slot_amount itemid) c.inventory.slots m (some prev) none e,
            tally-set (slot_amount itemid) first n (some now) none f,
            tally-set (slot_amount itemid) second n none (some (grown prev now)) emptied,
          ))
          (move_to_taken c m n m_in n_in prev e now a b f ha hb (grown prev now)
            (record { slots = second }) none
            (displace_stack c m n m_in n_in prev e now a b f ha hb g) emptied)

    swap : stacked a b ≡ false → Kept itemid c (change_inventory_item_position c (pos m) (pos n))
    swap g =
        let third = set second m (some now) in
        let empty = get_elem?-set_ne second m n (some now) (λ q. apart (sym q)) ∙ emptied in
        kept_done itemid c _ _ h
          (set-IsInventory (record { slots = third }) n (some prev)
            (set-IsInventory (record { slots = second }) m (some now) second_ok (a, ha)) (b, hb))
          (omega (
            arith,
            tally-set (slot_amount itemid) c.inventory.slots m (some prev) none e,
            tally-set (slot_amount itemid) first n (some now) none f,
            tally-set (slot_amount itemid) second m none (some now) origin,
            tally-set (slot_amount itemid) third n none (some prev) empty,
          ))
          (move_to_taken c m n m_in n_in prev e now a b f ha hb prev (record { slots = third }) none
            (displace_swap c m n m_in n_in prev e now a b f ha hb none origin g) empty)

  moved :
      (t : Option Slot)
      → get_elem? first n ≡ some t
      → Occupied t
      → Kept itemid c (change_inventory_item_position c (pos m) (pos n))
  moved none f _ =
      kept_done itemid c _ _ h
        (set-IsInventory (record { slots = first }) n (some prev) first_ok (b, hb))
        (omega (arith, moved_to_empty itemid c.inventory.slots m n prev e f))
        (move_to_empty c m n m_in n_in prev e f)
  moved (some now) f (a, ha) = elim (Bool-cases (stacked a b)) [
    | inl g ↦ stack now f a ha g
    | inr g ↦ swap now f a ha g
  ]

module _ (itemid : ℕ) (c : Character) (h : IsCharacter c) where
  moved_within :
      (m n : ℕ)
      → in_range (pos m) ≡ true
      → in_range (pos n) ≡ true
      → m < inventory_size
      → n < inventory_size
      → (s : Option Slot) → get_elem? c.inventory.slots m ≡ some s
      → Occupied s
      → Kept itemid c (change_inventory_item_position c (pos m) (pos n))
  unfolding change_inventory_item_position
  moved_within m n m_in n_in m_lt n_lt none e _ =
      kept_refused itemid c _ h (rw (m_in, n_in, has_item-none c.inventory m e))
  moved_within m n m_in n_in m_lt n_lt (some prev) e (b, hb) =
      let (t, f) =
        get_elem?_lt (set c.inventory.slots m none) n
          (omega (arith, length-set c.inventory.slots m none, h.inventory_ok.places)) in
      moved itemid c h m n m_in n_in m_lt n_lt prev e b hb t f (
        All-get Occupied _ n t
          (All-set Occupied c.inventory.slots m none h.inventory_ok.occupied tt) f)

-- Moving an item between any two indices, in range or not, does not fault on a well-formed character
-- and leaves it well formed, does not touch the equipment, and keeps the count of every item over
-- all places as an int32.
pub change_inventory_item_position-Kept :
    (itemid : ℕ) (c : Character) (prev_index new_index : ℤ)
    → IsCharacter c
    → Kept itemid c (change_inventory_item_position c prev_index new_index)
unfolding change_inventory_item_position
change_inventory_item_position-Kept itemid c i j h = elim (in_range-cases i) [
  | inl e ↦ kept_refused itemid c _ h (rw e)
  | inr (m, em, m_in, m_lt) ↦ elim (in_range-cases j) [
    | inl e ↦ kept_refused itemid c _ h (rw (e, or_true (not (in_range i))))
    | inr (n, en, n_in, n_lt) ↦
        let (s, e) = place c.inventory h.inventory_ok m m_lt in
        subst (λ k. Kept itemid c (change_inventory_item_position c k j)) (sym em)
          (subst (λ k. Kept itemid c (change_inventory_item_position c (pos m) k)) (sym en)
            (moved_within itemid c h m n m_in n_in m_lt n_lt s e
              (All-get Occupied _ m s h.inventory_ok.occupied e)))
  ]
]
