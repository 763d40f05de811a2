-- ===== src/Model/Character/Exchange.antt =====
-- Where the items stand after a move.
use ue4team_project_server.Common.{
  ℕ, ◌==◌, ==_iff, ◌<◌, ◌≡◌, ◌≢◌, sym, ◌∙◌, Bool, true, false, Option, none, some, List, get_elem?,
  set, length, All-get, get_elem?_lt, get_elem?-set, get_elem?-set_ne, length-set, ok, pos, lt→ltb,
  Bool-cases, inl, inr, ◌⊎◌, arith, Result,
}
use ue4team_project_server.Model.Item.{Item, type_equip}
use ue4team_project_server.Model.Inventory.{Slot, inventory_size}
use ue4team_project_server.Model.Character.{Character, in_range, change_inventory_item_position}
use ue4team_project_server.Model.Character.Holding.{Occupied, IsCharacter}
use ue4team_project_server.Model.Character.Moving.{
  stacked, grown, move_to_empty, move_to_taken, displace_stack, displace_swap,
}

-- The item `a` at the new place takes in the moved item `b`: it is no equip item, and they have one id.
abbrev pub Stacks : Item → Item → Type 0
Stacks a b = (a.item_type ≢ type_equip) × (a.itemid ≡ b.itemid)

-- The item `a` at the new place is an equip item, or another item than `b`.
abbrev pub Differs : Item → Item → Type 0
Differs a b = (a.item_type ≡ type_equip) ⊎ (a.itemid ≢ b.itemid)

-- The item that is moved and the one that it meets are so related.
abbrev pub Meets : (Item → Item → Type 0) → Slot → Slot → Type 0
Meets R now prev = (a : Item) × (b : Item) × (now.item ≡ some a) × (prev.item ≡ some b) × R a b

-- The places `m` and `n` changed contents, the place `n` being empty or with an item that does not take in the
-- moved one; or it takes it in, and the slot of `m` was stacked on the one of `n`.
abbrev pub Exchanged : List (Option Slot) → List (Option Slot) → ℕ → ℕ → Slot → Type 0
Exchanged before after m n prev =
    ((get_elem? after n ≡ some (some prev))
      × (get_elem? after m ≡ get_elem? before n)
      × ((get_elem? before n ≡ some none)
          ⊎ ((now : Slot) × (get_elem? before n ≡ some (some now)) × Meets Differs now prev)))
    ⊎ ((now : Slot) × (get_elem? before n ≡ some (some now))
        × Meets Stacks now prev
        × (get_elem? after n ≡ some (some (grown prev now)))
        × (get_elem? after m ≡ some none))

stacked-Stacks : (a b : Item) → stacked a b ≡ true → Stacks a b
stacked-Stacks a b g = ground (arith, g)

stacked-Differs : (a b : Item) → stacked a b ≡ false → Differs a b
stacked-Differs a b g = elim (Bool-cases (a.item_type == type_equip)) [
  | inl e ↦ inl ((==_iff a.item_type type_equip).0 e)
  | inr e ↦ inr (λ same. absurd (ground (arith, g, e, same)))
]

abbrev pub Moves : Character → ℕ → ℕ → ℕ → Slot → Result (Bool × Character) → Type 0
Moves c m n k prev r =
    (d : Character) × (r ≡ ok (true, d))
    × Exchanged c.inventory.slots d.inventory.slots m n prev
    × (get_elem? d.inventory.slots k ≡ get_elem? c.inventory.slots k)

module _ (c : Character) (h : IsCharacter c) (m n k : ℕ) (prev : Slot) (b : Item)
    (m_lt : m < inventory_size) (n_lt : n < inventory_size)
    (e : get_elem? c.inventory.slots m ≡ some (some prev)) (hb : prev.item ≡ some b) (mn : m ≢ n)
    (km : m ≢ k) (kn : n ≢ k) where
  abbrev slots : List (Option Slot)
  slots = c.inventory.slots

  abbrev first : List (Option Slot)
  first = set slots m none

  m_in : in_range (pos m) ≡ true
  m_in = lt→ltb m inventory_size m_lt

  n_in : in_range (pos n) ≡ true
  n_in = lt→ltb n inventory_size n_lt

  first_n : (t : Option Slot) → get_elem? slots n ≡ some t → get_elem? first n ≡ some t
  first_n t f = get_elem?-set_ne slots m n none mn ∙ f

  first_m : get_elem? first m ≡ some none
  first_m = get_elem?-set slots m none (omega (arith, h.inventory_ok.places))

  -- Setting place `n` leaves the others.
  other :
      (ys : List (Option Slot)) (v : Option Slot) (i : ℕ)
      → n ≢ i
      → get_elem? (set ys n v) i ≡ get_elem? ys i
  other ys v i ne = get_elem?-set_ne ys n i v ne

  first_k : get_elem? first k ≡ get_elem? slots k
  first_k = get_elem?-set_ne slots m k none km

  within :
      (ys : List (Option Slot)) (v : Option Slot)
      → length ys ≡ inventory_size
      → get_elem? (set ys n v) n ≡ some v
  within ys v l = get_elem?-set ys n v (omega arith)

  first_size : length first ≡ inventory_size
  first_size = length-set slots m none ∙ h.inventory_ok.places

  to_empty :
      get_elem? slots n ≡ some none
      → Moves c m n k prev (change_inventory_item_position c (pos m) (pos n))
  to_empty f = (
    _,
    move_to_empty c m n m_in n_in prev e (first_n none f),
    inl (
      within first (some prev) first_size,
      other first (some prev) m (λ q. mn (sym q)) ∙ first_m ∙ sym f,
      inl f,
    ),
    other first (some prev) k kn ∙ first_k,
  )

  module _ (now : Slot) (a : Item) (f : get_elem? slots n ≡ some (some now))
      (ha : now.item ≡ some a) where
    abbrev second : List (Option Slot)
    second = set first n none

    second_size : length second ≡ inventory_size
    second_size = length-set first n none ∙ first_size

    second_m : get_elem? second m ≡ some none
    second_m = other first none m (λ q. mn (sym q)) ∙ first_m

    second_n : get_elem? second n ≡ some none
    second_n = within first none first_size

    stack :
        stacked a b ≡ true → Moves c m n k prev (change_inventory_item_position c (pos m) (pos n))
    stack g = (
      _,
      move_to_taken c m n m_in n_in prev e now a b (first_n (some now) f) ha hb (grown prev now)
          (record { slots = second }) none
          (displace_stack c m n m_in n_in prev e now a b (first_n (some now) f) ha hb g) second_n,
      inr (
        now,
        f,
        (a, b, ha, hb, stacked-Stacks a b g),
        within second (some (grown prev now)) second_size,
        other second (some (grown prev now)) m (λ q. mn (sym q)) ∙ second_m,
      ),
      other second (some (grown prev now)) k kn ∙ other first none k kn ∙ first_k,
    )

    abbrev third : List (Option Slot)
    third = set second m (some now)

    swap :
        stacked a b ≡ false → Moves c m n k prev (change_inventory_item_position c (pos m) (pos n))
    swap g = (
      _,
      move_to_taken c m n m_in n_in prev e now a b (first_n (some now) f) ha hb prev
          (record { slots = third }) none
          (displace_swap c m n m_in n_in prev e now a b (first_n (some now) f) ha hb none second_m
            g)
          (get_elem?-set_ne second m n (some now) mn ∙ second_n),
      inl (
        within third (some prev) (length-set second m (some now) ∙ second_size),
        other third (some prev) m (λ q. mn (sym q))
            ∙ get_elem?-set second m (some now) (omega (arith, second_size))
            ∙ sym f,
        inr (now, f, (a, b, ha, hb, stacked-Differs a b g)),
      ),
      other third (some prev) k kn
          ∙ get_elem?-set_ne second m k (some now) km
          ∙ other first none k kn
          ∙ first_k,
    )

  at_place :
      (t : Option Slot)
      → get_elem? slots n ≡ some t
      → Occupied t
      → Moves c m n k prev (change_inventory_item_position c (pos m) (pos n))
  at_place none f _ = to_empty f
  at_place (some now) f (a, ha) = elim (Bool-cases (stacked a b)) [
    | inl g ↦ stack now a f ha g
    | inr g ↦ swap now a f ha g
  ]

-- On a well-formed character, moving from a taken place to another place of the inventory succeeds. If the
-- other place holds an item of the same id that is no equip item, the first is stacked on it, whatever the
-- counts, modulo 2 ^ 32, and becomes empty; if it is empty, or holds an equip item or an item of another id,
-- the two places exchange their contents. Every third place keeps what it holds.
pub change_inventory_item_position-Moves :
    (c : Character) (m n k : ℕ) (prev : Slot)
    → IsCharacter c
    → m < inventory_size
    → n < inventory_size
    → get_elem? c.inventory.slots m ≡ some (some prev)
    → m ≢ n
    → m ≢ k
    → n ≢ k
    → Moves c m n k prev (change_inventory_item_position c (pos m) (pos n))
change_inventory_item_position-Moves c m n k prev h m_lt n_lt e mn km kn =
    let (b, hb) = All-get Occupied c.inventory.slots m (some prev) h.inventory_ok.occupied e in
    let (t, f) = get_elem?_lt c.inventory.slots n (omega (arith, h.inventory_ok.places)) in
    at_place c h m n k prev b m_lt n_lt e hb mn km kn t f
      (All-get Occupied c.inventory.slots n t h.inventory_ok.occupied f)
