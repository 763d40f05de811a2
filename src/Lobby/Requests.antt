-- ===== src/Lobby/Requests.antt =====
-- UE4LobbyServer/LobbyServer.cpp: the requests of a client. A handler is given the client as it stands in
-- the storage, and the packet behind its opcode. Locks are left out: a call runs alone.
use ue4team_project_server.Common.{
  ℕ, ◌+◌, not, List, [], ◌∷◌, Option, none, some, get_elem?, set, ◌==◌, if◌then◌else◌, to_ℕ, throw,
  run_time_error, deref, same_text, text_keys,
}
use ue4team_project_server.Common.Calls.{Call, ◌>>=◌, ◌>>◌, return, get, modify, lift}
use ue4team_project_server.Common.Keyed.{find, erase, or_else}
use ue4team_project_server.Stream.ByteStream.{ByteStream}
use ue4team_project_server.Stream.InputStream.{Reader, read_int32, read_string}
use ue4team_project_server.Server.Client.{Client, set_state, in_state}
use ue4team_project_server.Server.RemoteSessionInfo.{RemoteSessionInfo}
use ue4team_project_server.Channel.Packets.{value_of, zone_server, request_user_migration}
use ue4team_project_server.Lobby.CharacterInfo.{
  LobbyCharacterInfo, c_name, read_lobby_character_info,
}
use ue4team_project_server.Lobby.State.{
  slot_size, confirm, reserve_to_migrate, no_cid, create_notify, delete_notify, to_client,
  to_intermediate, Lobby, Statements, execute, send, put_client, close_client, touch_slots,
  put_slots, zero_slots,
}
use ue4team_project_server.Lobby.Listing.{out_of, int32, send_character_list}

-- Reading from a packet of which nothing more is read.
abbrev pub receive : {Db A : Type 0} → Reader A → ByteStream → Call (Lobby Db) A
receive reader packet = lift (value_of (reader packet))

-- The handlers that ask for the state kConfirm return without it.
abbrev pub if_confirmed :
    {Db : Type 0} → Client → Call (Lobby Db) (Unit {0}) → Call (Lobby Db) (Unit {0})
if_confirmed client handler = if in_state confirm client.state then handler else return tt

-- slot_info_[uuid][slot], where `operator[]` of the map makes a missing entry.
abbrev pub slots_of : {Db : Type 0} → List ℕ → Lobby Db → List ℕ
slots_of uuid s = or_else (find uuid s.slot_info) zero_slots

abbrev pub slot_at : {Db : Type 0} → Client → ℕ → Call (Lobby Db) ℕ
slot_at client slot = do
  touch_slots client.uuid
  s ← get
  lift (deref (get_elem? (slots_of client.uuid s) slot))

abbrev pub set_slot : {Db : Type 0} → Client → ℕ → ℕ → Call (Lobby Db) (Unit {0})
set_slot client slot cid = do
  touch_slots client.uuid
  s ← get
  put_slots client.uuid (set (slots_of client.uuid s) slot cid)

-- What the server adds to what the client sent.
abbrev pub with_defaults : LobbyCharacterInfo → LobbyCharacterInfo
with_defaults info = record info {
  level = 1;
  str = 10;
  dex = 10;
  intel = 10;
  zone = 100;
  x = 0;
  y = 0;
  z = 0;
  gold = 0;
  armor_itemid = 3000001;
  hand_itemid = 3100001;
  shoes_itemid = 3200001;
  weapon_itemid = 3300001;
}

abbrev pub default_items : List ℕ
default_items = 3000001 ∷ 3100001 ∷ 3200001 ∷ 3300001 ∷ []

abbrev pub confirmed : List ℕ → RemoteSessionInfo → Client → Client
confirmed id info client = record (set_state confirm client) { accid = info.accid; account = id }

-- An authority that is there, but for another address, stays.
abbrev pub matching : Client → Option RemoteSessionInfo → Option RemoteSessionInfo
matching client none = none
matching client (some info) = if same_text info.ip client.remote_address then some info else none

abbrev pub session_info : Client → ℕ → ℕ → RemoteSessionInfo
session_info client cid now = record {
  ip = client.remote_address;
  id = client.account;
  time = now;
  accid = client.accid;
  cid = cid;
}

module _ {Db : Type 0} (d : Statements Db) where
  abbrev pub confirm_with : Client → List ℕ → Option RemoteSessionInfo → Call (Lobby Db) (Unit {0})
  confirm_with client id none = return tt
  confirm_with client id (some info) = do
    put_client (confirmed id info client)
    modify (λ s. record s { authority_map = erase id s.authority_map })
    send_character_list d (confirmed id info client)

  unfoldable pub handle_confirm_request : Client → ByteStream → Call (Lobby Db) (Unit {0})
  handle_confirm_request client packet = do
    id ← receive read_string packet
    s ← get
    confirm_with client id (matching client (find id s.authority_map))

  unfoldable pub handle_character_list_request : Client → ByteStream → Call (Lobby Db) (Unit {0})
  handle_character_list_request client packet = if_confirmed client (send_character_list d client)

  unfoldable pub insert_items : ℕ → ℕ → List ℕ → Call (Lobby Db) (Unit {0})
  insert_items cid accid [] = return tt
  insert_items cid accid (itemid ∷ itemids) = do
    execute (d.insert_item cid accid itemid)
    insert_items cid accid itemids

  abbrev pub created : Client → LobbyCharacterInfo → Option ℕ → Call (Lobby Db) (Unit {0})
  created client info none = send (to_client client.uuid (create_notify none))
  created client info (some cid) = do
    set_slot client (to_ℕ (int32 info.slot)) cid
    insert_items cid client.accid default_items
    name ← lift (c_name info)
    send (to_client client.uuid (create_notify (some info)))

  abbrev pub create : Client → LobbyCharacterInfo → ℕ → Call (Lobby Db) (Unit {0})
  create client info old = if not (old == no_cid) then close_client client else (do
    name ← lift (c_name info)
    execute (d.insert_character client.accid (with_defaults info))
    cid ← execute (d.cid_of_name name)
    created client (with_defaults info) cid)

  unfoldable pub handle_character_create_request : Client → ByteStream → Call (Lobby Db) (Unit {0})
  handle_character_create_request client packet = if_confirmed client (do
    info ← receive read_lobby_character_info packet
    if out_of slot_size (int32 info.slot)
        then close_client client
        else (do old ← slot_at client (to_ℕ (int32 info.slot)); create client info old))

  abbrev pub delete : Client → ℕ → ℕ → Call (Lobby Db) (Unit {0})
  delete client slot cid = if cid == no_cid then close_client client else (do
    execute (d.delete_character cid)
    set_slot client (to_ℕ (int32 slot)) no_cid
    send (to_client client.uuid (delete_notify slot)))

  -- The test lets a slot of `slot_size` pass, which is outside the array.
  unfoldable pub handle_character_delete_request : Client → ByteStream → Call (Lobby Db) (Unit {0})
  handle_character_delete_request client packet = if_confirmed client (do
    slot ← receive read_int32 packet
    if out_of (slot_size + 1) (int32 slot)
        then close_client client
        else (do cid ← slot_at client (to_ℕ (int32 slot)); delete client slot cid))

  abbrev pub select : Client → ℕ → ℕ → Call (Lobby Db) (Unit {0})
  select client now cid =
      if cid == no_cid
      then lift (throw run_time_error)
      else send (
          to_intermediate
            (request_user_migration zone_server client.uuid (session_info client cid now)))

  -- What is left once the client is set.
  abbrev pub choose : ℕ → Client → ByteStream → Call (Lobby Db) (Unit {0})
  choose now client packet = do
    slot ← receive read_int32 packet
    if out_of slot_size (int32 slot)
        then lift (throw run_time_error)
        else (do cid ← slot_at client (to_ℕ (int32 slot)); select client now cid)

  -- `now` is the time of the clock in the new RemoteSessionInfo. The client is set before anything is
  -- read.
  unfoldable pub handle_character_select_request :
      ℕ → Client → ByteStream → Call (Lobby Db) (Unit {0})
  handle_character_select_request now client packet =
      if_confirmed client
        (do put_client (set_state reserve_to_migrate client); choose now client packet)
