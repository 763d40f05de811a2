-- ===== src/ZoneServer/Inventories.antt =====
-- UE4Model/Server/ZoneServer.cpp: HandleInventoryUpdate, with InventoryUpdate of
-- UE4Model/Packet/PacketGenerator.cpp and WriteItem of UE4Model/Packet/PacketHelper.cpp.
use ue4team_project_server.Common.{
  List, ℕ, ◌^◌, ◌<◌, ◌≡◌, ◌≢◌, subst, inl, inr, Bool, true, ◌||◌, not, ◌==◌, if◌then◌else◌, Option,
  none, some, get_elem?, Result, ok, throw, fault, run_time_error, ℤ, pos, signed, arith, lt→ltb,
}
use ue4team_project_server.Common.{◌>>=◌ as and_then}
use ue4team_project_server.Stream.ByteStream.{ByteStream}
use ue4team_project_server.Stream.InputStream.{Reader, pure, read_int32}
use ue4team_project_server.Stream.InputStream.{◌>>=◌ as and_read}
use ue4team_project_server.Stream.OutputStream.{Writer, ◌>>◌, write_int8, write_int16, write_int32}
use ue4team_project_server.Channel.Packets.{value_of}
use ue4team_project_server.Model.Item.{
  Item, Class, plain, consume, equip, write_stat, type_null, type_equip,
}
use ue4team_project_server.Model.Inventory.{Slot, inventory_size, at}
use ue4team_project_server.Model.Character.{Character, in_range, change_inventory_item_position}
use ue4team_project_server.Model.Character.Holding.{IsCharacter}
use ue4team_project_server.Model.Character.Moving.{grown}
use ue4team_project_server.Model.Character.Exchange.{
  Exchanged, Moves, change_inventory_item_position-Moves,
}

abbrev pub nothing : Writer
nothing out = ok out

-- An equip item's values, through a cast that does not look at the class.
abbrev pub packet_stat : Class → Writer
packet_stat plain = λ out. fault
packet_stat consume = λ out. fault
packet_stat (equip stat) = write_stat stat

abbrev pub packet_item : Item → Writer
packet_item item = do
  write_int32 item.item_type
  (if item.item_type == type_null then nothing else (do
    write_int32 item.itemid
    (if item.item_type == type_equip then packet_stat item.class else nothing)))

abbrev pub first_item : Option Item → ℕ → Writer
first_item none count = write_int32 type_null
first_item (some item) count = do packet_item item; write_int32 count

-- What stands in the second place is written when there is something in the first.
abbrev pub second_item : Option Item → Option Item → ℕ → Writer
second_item none item2 count = write_int32 type_null
second_item (some item) none count = λ out. fault
second_item (some item) (some item2) count = do packet_item item2; write_int32 count

-- kInventoryUpdate and kSlotUpdate, for two places of the inventory.
abbrev pub inventory_update : ℕ → Option Item → ℕ → ℕ → Option Item → ℕ → Writer
inventory_update slot1 item1 count1 slot2 item2 count2 = do
  write_int16 1010
  write_int8 2
  write_int8 0
  write_int32 slot1
  first_item item1 count1
  write_int8 0
  write_int32 slot2
  second_item item1 item2 count2

abbrev pub item_in : Option Slot → Option Item
item_in none = none
item_in (some s) = s.item

abbrev pub count_in : Option Slot → ℕ
count_in none = 0
count_in (some s) = s.count

-- The two places, as they are in the packet.
pub record Places : Type 0 where
  pub slot1 : ℕ
  pub slot2 : ℕ

abbrev pub read_places : Reader Places
read_places =
    and_read read_int32
      λ slot1. and_read read_int32 λ slot2. pure (record { slot1 = slot1; slot2 = slot2 })

abbrev pub int32 : ℕ → ℤ
int32 = signed (2 ^ 31)

abbrev pub reported : Places → Bool × Character → Result (Option (Character × Writer))
reported p (moved, c) = and_then (at c.inventory.slots (int32 p.slot1)) λ first.
    and_then (at c.inventory.slots (int32 p.slot2)) λ second. ok (
      some (
        c,
        inventory_update p.slot1 (item_in first) (count_in first) p.slot2 (item_in second)
            (count_in second),
      ))

abbrev pub update_places : Option Character → Places → Result (Option (Character × Writer))
update_places none p = ok none
update_places (some c) p =
    and_then (change_inventory_item_position c (int32 p.slot1) (int32 p.slot2)) (reported p)

-- The character after the call, and what writes the packet that is sent to its client.
unfoldable pub handle_inventory_update :
    Option Character → ByteStream → Result (Option (Character × Writer))
handle_inventory_update chr packet = and_then (value_of (read_places packet)) λ p.
    if not (in_range (int32 p.slot1)) || not (in_range (int32 p.slot2))
    then throw run_time_error
    else update_places chr p

module _ (m n : ℕ) (m_lt : m < inventory_size) (n_lt : n < inventory_size) where
  small : (k : ℕ) → k < inventory_size → int32 k ≡ pos k
  small k k_lt = rw (lt→ltb k (2 ^ 31) (omega arith))

  -- The packet for two empty places.
  abbrev pub both_empty : Writer
  both_empty = inventory_update m none 0 n none 0

  second_after :
      (before after : List (Option Slot)) (prev : Slot)
      → Exchanged before after m n prev
      → (now : Slot) × (get_elem? after n ≡ some (some now))
  second_after before after prev (inl (there, rest, apart)) = (prev, there)
  second_after before after prev (inr (now, here, meets, there, rest)) = (grown prev now, there)

  -- On a well-formed character, an item is moved to another place of the inventory and leaves its place empty,
  -- since the other place was empty or took the item in. Then the update succeeds, the other place holds the
  -- item, and the packet that the client is sent is that for two empty places.
  pub moved_item_is_hidden :
      (c d : Character) (prev : Slot) (packet : ByteStream)
      → IsCharacter c
      → m ≢ n
      → value_of (read_places packet) ≡ ok (record { slot1 = m; slot2 = n })
      → get_elem? c.inventory.slots m ≡ some (some prev)
      → change_inventory_item_position c (pos m) (pos n) ≡ ok (true, d)
      → get_elem? d.inventory.slots m ≡ some none
      → ((now : Slot) × (get_elem? d.inventory.slots n ≡ some (some now)))
        × (handle_inventory_update (some c) packet ≡ ok (some (d, both_empty)))
  unfolding handle_inventory_update
  moved_item_is_hidden c d prev packet h mn read taken change empty =
      let (now, there) = landed in
      (
        (now, there),
        rw
            (
              read,
              small m m_lt,
              small n n_lt,
              lt→ltb m inventory_size m_lt,
              lt→ltb n inventory_size n_lt,
              change,
            )
            (reported_empty now there),
      )
    where
      reported_empty :
          (now : Slot)
          → get_elem? d.inventory.slots n ≡ some (some now)
          → reported (record { slot1 = m; slot2 = n }) (true, d) ≡ ok (some (d, both_empty))
      reported_empty now there = rw (small m m_lt, small n n_lt, empty, there)

      same :
          (r : Result (Bool × Character))
          → r ≡ ok (true, d)
          → Moves c m n inventory_size prev r
          → (now : Slot) × (get_elem? d.inventory.slots n ≡ some (some now))
      same r e (d', e', x, k) =
          let one : d' ≡ d = ground (arith, e, e') in
          second_after c.inventory.slots d.inventory.slots prev (
            subst (λ (t : Character). Exchanged c.inventory.slots t.inventory.slots m n prev) one x)

      landed : (now : Slot) × (get_elem? d.inventory.slots n ≡ some (some now))
      landed = same (change_inventory_item_position c (pos m) (pos n)) change (
          change_inventory_item_position-Moves c m n inventory_size prev h m_lt n_lt taken mn
            (λ e. absurd (omega arith)) (λ e. absurd (omega arith)))
