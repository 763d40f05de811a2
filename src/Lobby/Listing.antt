-- ===== src/Lobby/Listing.antt =====
-- UE4LobbyServer/LobbyServer.cpp: SendCharacterList.
use ue4team_project_server.Common.{
  ℕ, ◌+◌, ◌-◌, ◌/◌, ◌%◌, ◌^◌, Bool, ◌||◌, List, [], ◌∷◌, ◌++◌, Option, none, some, length, set,
  replicate, leb, ◌==◌, if◌then◌else◌, ℤ, pos, negsuc, signed, is_negative, to_ℕ, throw, sql_error,
  text_keys,
}
use ue4team_project_server.Common.Calls.{Call, ◌>>=◌, ◌>>◌, return, lift}
use ue4team_project_server.Server.Client.{Client}
use ue4team_project_server.Lobby.CharacterInfo.{LobbyCharacterInfo, c_name}
use ue4team_project_server.Lobby.State.{
  slot_size, no_cid, list_notify, to_client, Lobby, Statements, execute, send, put_slots,
}

-- slot < 0 || slot >= bound
abbrev pub out_of : ℕ → ℤ → Bool
out_of bound slot = is_negative slot || leb bound (to_ℕ slot)

abbrev pub int32 : ℕ → ℤ
int32 = signed (2 ^ 31)

-- (itemid / 100000) % 10, which is 0 or negative for a negative id.
abbrev pub item_digit : ℤ → ℤ
item_digit (pos n) = pos (n / 100000 % 10)
item_digit (negsuc n) =
    let digit = (n + 1) / 100000 % 10 in if digit == 0 then pos 0 else negsuc (digit - 1)

abbrev pub put_on : ℤ → ℕ → LobbyCharacterInfo → LobbyCharacterInfo
put_on (negsuc n) itemid info = info
put_on (pos n) itemid info =
    if n == 0
    then record info { armor_itemid = itemid }
    else if n == 1
    then record info { hand_itemid = itemid }
    else if n == 2
    then record info { shoes_itemid = itemid }
    else if n == 3
    then record info { weapon_itemid = itemid }
    else info

unfoldable pub dress : List ℕ → LobbyCharacterInfo → LobbyCharacterInfo
dress [] info = info
dress (itemid ∷ itemids) info = dress itemids (put_on (item_digit (int32 itemid)) itemid info)

-- What the loop of SendCharacterList has written, and the slots that it has filled.
pub record Listing : Type 0 where
  pub infos : List LobbyCharacterInfo
  pub slots : List ℕ

abbrev pub empty_slots : List ℕ
empty_slots = replicate slot_size no_cid

module _ {Db : Type 0} (d : Statements Db) where
  abbrev pub list_row : ℕ → Option LobbyCharacterInfo → Listing → Call (Lobby Db) Listing
  list_row cid none l = return l
  list_row cid (some info) l =
      if out_of slot_size (int32 info.slot) then lift (throw sql_error) else (do
        itemids ← execute (d.equipped_items cid)
        let dressed = dress itemids info
        name ← lift (c_name dressed)
        return (record {
          infos = l.infos ++ dressed ∷ [];
          slots = set l.slots (to_ℕ (int32 dressed.slot)) cid;
        }))

  unfoldable pub list_rows : List ℕ → Listing → Call (Lobby Db) Listing
  list_rows [] l = return l
  list_rows (cid ∷ cids) l = do
    row ← execute (d.character cid)
    l' ← list_row cid row l
    list_rows cids l'

  unfoldable pub send_character_list : Client → Call (Lobby Db) (Unit {0})
  send_character_list client = do
    cids ← execute (d.cids_of_account client.accid)
    l ← list_rows cids (record { infos = []; slots = empty_slots })
    send (to_client client.uuid (list_notify (length cids) l.infos))
    put_slots client.uuid l.slots
