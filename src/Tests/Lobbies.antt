-- ===== src/Tests/Lobbies.antt =====
-- A lobby with one client, and an account whose characters are made and deleted.
use ue4team_project_server.Common.{
  length, ℕ, ◌+◌, ◌≤◌, ◌≡◌, refl, List, [], ◌∷◌, ◌++◌, none, some, false, pos, ok, fault, Result,
  Any, ◌⊎◌, text_keys, same_text, arith,
}
use ue4team_project_server.Common.Keyed.{find, emplace}
use ue4team_project_server.Stream.Bytes.{to_bytes}
use ue4team_project_server.Stream.ByteStream.{ByteStream, set_access_offset}
use ue4team_project_server.Stream.InputStream.{read_int16, read_int32, read_string, read_fixed}
use ue4team_project_server.Server.Client.{Client, set_state}
use ue4team_project_server.Server.RemoteSessionInfo.{RemoteSessionInfo}
use ue4team_project_server.Channel.Packets.{
  Authority, value_of, request_user_migration, zone_server,
}
use ue4team_project_server.Channel.Packets.Codec.{authority_bytes}
use ue4team_project_server.Lobby.CharacterInfo.{LobbyCharacterInfo, read_lobby_character_info}
use ue4team_project_server.Lobby.CharacterInfo.Codec.{info_bytes}
use ue4team_project_server.Lobby.State.{
  Lobby, Statements, no_cid, confirm, not_confirm, reserve_to_migrate, slot_size, to_client,
  to_intermediate, create_notify, delete_notify, Sent,
}
use ue4team_project_server.Lobby.Requests.{
  handle_character_create_request, handle_character_delete_request, handle_character_select_request,
  with_defaults, session_info,
}
use ue4team_project_server.Lobby.Dispatch.{
  get_client, process_packet, process_channel_packet, notify_session_authority, on_active,
}
use ue4team_project_server.Channel.Packets.{read_notify_session_authority_info}
use ue4team_project_server.Server.RemoteSessionInfo.{read_session_info, from_time_t, to_time_t}
use ue4team_project_server.Lobby.Requests.{handle_confirm_request}
use ue4team_project_server.Lobby.Listing.{send_character_list, list_rows}
use ue4team_project_server.Common.Keyed.{erase, assign}
use ue4team_project_server.Migration.Arrival.{framed}
use ue4team_project_server.Lobby.Entry.{second_authority_is_lost}
use ue4team_project_server.Lobby.Guards.{unconfirmed_is_ignored}
use ue4team_project_server.Lobby.Characters.{HasSlots, Accepts}
use ue4team_project_server.Lobby.Characters.Lives.{
  delete_behind_last, made_and_deleted, made_and_chosen,
}
use ue4team_project_server.Lobby.Spec.Counting.{grants_to}
use ue4team_project_server.Lobby.Refinement.Events.{Event, active, packet, channel_packet}
use ue4team_project_server.Lobby.Refinement.Runs.{
  run, uses, all_told, Refines, run-Refines, clients_were_granted,
}

abbrev user_uuid : List ℕ
user_uuid = b'u' ∷ []

abbrev account : List ℕ
account = b'm' ∷ b'e' ∷ []

abbrev address : List ℕ
address = b'h' ∷ []

-- A database that takes every statement; it is the number of characters that were inserted.
abbrev accepting : Statements ℕ
accepting = record {
  insert_character = λ accid info db. (ok tt, db + 1);
  cid_of_name = λ name db. (ok (some 77), db);
  insert_item = λ cid accid itemid db. (ok tt, db);
  delete_character = λ cid db. (ok tt, db);
  cids_of_account = λ accid db. (ok [], db);
  character = λ cid db. (ok none, db);
  equipped_items = λ cid db. (ok [], db);
}

abbrev user : Client
user = record {
  uuid = user_uuid;
  state = pos confirm;
  accid = 9;
  account = account;
  remote_address = address;
  closed = false;
}

abbrev free_slots : List ℕ
free_slots = no_cid ∷ no_cid ∷ no_cid ∷ no_cid ∷ no_cid ∷ []

abbrev lobby : Lobby ℕ
lobby = record {
  client_storage = (user_uuid, user) ∷ [];
  authority_map = [];
  slot_info = (user_uuid, free_slots) ∷ [];
  database = 0;
  sent = [];
}

abbrev hero : LobbyCharacterInfo
hero = record {
  slot = 2;
  name = b'a' ∷ b'b' ∷ [];
  gender = 1;
  level = 0;
  str = 0;
  dex = 0;
  intel = 0;
  job = 4;
  face = 5;
  hair = 6;
  gold = 0;
  zone = 0;
  x = 0;
  y = 0;
  z = 0;
  armor_itemid = 0;
  hand_itemid = 0;
  shoes_itemid = 0;
  weapon_itemid = 0;
}

abbrev hero_packet : ByteStream
hero_packet = record { memory = info_bytes hero; buffer_length = 75; access_offset = 0 }

abbrev slot_packet : ℕ → ByteStream
slot_packet slot = record { memory = to_bytes 4 slot; buffer_length = 4; access_offset = 0 }

read_hero : value_of (read_lobby_character_info hero_packet) ≡ ok hero
unfolding read_lobby_character_info read_fixed read_string to_bytes
read_hero = refl

read_slot : value_of (read_int32 (slot_packet 2)) ≡ ok 2
unfolding read_fixed to_bytes
read_slot = refl

lobby-HasSlots : HasSlots user free_slots lobby
unfolding find same_text
lobby-HasSlots = record { stored = refl; sized = omega arith }

accepted : Accepts accepting user hero 0 77
accepted = record {
  inserted = 1;
  insert_ok = refl;
  named = 1;
  cid_ok = refl;
  items_ok = λ c a i b. (b, refl);
}

read_behind : value_of (read_int32 (slot_packet 5)) ≡ ok slot_size
unfolding read_fixed to_bytes
read_behind = refl

delete_behind_last_example :
    (handle_character_delete_request accepting user (slot_packet 5) lobby).0 ≡ fault
delete_behind_last_example =
    delete_behind_last accepting user lobby free_slots (slot_packet 5) refl read_behind
      lobby-HasSlots

abbrev told_of_hero : List Sent
told_of_hero = to_client user_uuid (create_notify (some (with_defaults hero))) ∷ []

abbrev made : Result (Unit {0}) × Lobby ℕ
made = handle_character_create_request accepting user hero_packet lobby

made_and_deleted_example :
    (made.0 ≡ ok tt)
    × ((db : ℕ) × (handle_character_delete_request accepting user (slot_packet 2) made.1 ≡ (
      ok tt,
      record lobby {
        sent = told_of_hero ++ to_client user_uuid (delete_notify 2) ∷ [];
        database = db;
      },
    )))
made_and_deleted_example =
    made_and_deleted accepting user lobby free_slots hero_packet (slot_packet 2) hero 77 refl
      read_hero (omega arith) (omega arith) lobby-HasSlots refl accepted read_slot (omega arith)
      (λ b. (b, refl))

made_and_chosen_example :
    let u = handle_character_select_request accepting 1000 user (slot_packet 2) made.1 in
    (u.0 ≡ ok tt)
    × (u.1.sent
        ≡ told_of_hero
          ++ to_intermediate
              (request_user_migration zone_server user_uuid (session_info user 77 1000))
            ∷ [])
    × (find user_uuid u.1.client_storage ≡ some (set_state reserve_to_migrate user))
made_and_chosen_example =
    made_and_chosen accepting user lobby free_slots hero_packet (slot_packet 2) hero 77 refl
      read_hero (omega arith) (omega arith) lobby-HasSlots refl accepted read_slot (omega arith)
      1000

abbrev stranger : Client
stranger = set_state not_confirm user

abbrev with_stranger : Lobby ℕ
with_stranger = record lobby { client_storage = (user_uuid, stranger) ∷ [] }

-- A creation request that ends behind its opcode.
abbrev create_packet : ℕ → ByteStream
create_packet offset = record {
  memory = 4 ∷ 0 ∷ 102 ∷ 0 ∷ [];
  buffer_length = 4;
  access_offset = offset;
}

stranger_found : get_client user_uuid with_stranger ≡ some stranger
unfolding get_client find same_text
stranger_found = refl

offset_two : set_access_offset 2 (create_packet 0) ≡ ok (create_packet 2)
unfolding set_access_offset
offset_two = refl

opcode_102 : read_int16 (create_packet 2) ≡ ok (102, create_packet 4)
unfolding read_fixed
opcode_102 = refl

unconfirmed_is_ignored_example :
    process_packet accepting 1000 user_uuid (create_packet 0) with_stranger ≡ (ok tt, with_stranger)
unconfirmed_is_ignored_example =
    unconfirmed_is_ignored accepting 1000 user_uuid stranger (create_packet 0) (create_packet 2)
      (create_packet 4) 102 with_stranger stranger_found refl offset_two opcode_102 (omega arith)

-- The intermediate server tells of the account, its client connects and confirms.
abbrev empty_lobby : Lobby ℕ
empty_lobby = record {
  client_storage = [];
  authority_map = [];
  slot_info = [];
  database = 0;
  sent = [];
}

abbrev info : RemoteSessionInfo
info = record { ip = address; id = account; time = 0; accid = 9; cid = no_cid }

abbrev notice : ByteStream
notice = framed (to_bytes 2 0 ++ authority_bytes (b'l' ∷ []) user_uuid info)

abbrev confirmation : ByteStream
confirmation = framed (to_bytes 2 100 ++ (account ++ 0 ∷ []))

abbrev entry : List Event
entry = packet 1000 user_uuid confirmation ∷ active user_uuid address ∷ channel_packet notice ∷ []

run-Refines_example : Refines entry (run accepting entry empty_lobby)
run-Refines_example = run-Refines accepting entry empty_lobby refl refl

clients_were_granted_example :
    ((key : List ℕ) (c : Client)
      → find key (run accepting entry empty_lobby).client_storage ≡ some c
      → (c.uuid ≡ key)
        × ((c.state ≡ pos not_confirm)
            ⊎ Any
                (λ i. (i.id ≡ c.account) × (i.accid ≡ c.accid) × (i.ip ≡ c.remote_address))
                (all_told entry)))
    × ((id : List ℕ) → uses accepting id entry empty_lobby ≤ grants_to id (all_told entry))
clients_were_granted_example = clients_were_granted accepting entry empty_lobby refl refl

-- The client of that run is in, and the authority is used up.
entered : get_client user_uuid (run accepting entry empty_lobby) ≡ some user
unfolding get_client run find same_text process_packet process_channel_packet
    notify_session_authority on_active set_access_offset read_fixed read_string to_bytes
    read_notify_session_authority_info read_session_info handle_confirm_request emplace erase assign
    send_character_list list_rows from_time_t
entered = refl

-- An authority that waits for the address `x`, and a notice for the same account from `h`.
abbrev waiting_lobby : Lobby ℕ
waiting_lobby = record with_stranger {
  authority_map = (account, record info { ip = b'x' ∷ [] }) ∷ [];
}

abbrev bare_notice : ByteStream
bare_notice =
    let bytes : List ℕ = authority_bytes (b'l' ∷ []) user_uuid info in
    record { memory = bytes; buffer_length = length bytes; access_offset = 0 }

abbrev account_packet : ByteStream
account_packet = record { memory = account ++ 0 ∷ []; buffer_length = 3; access_offset = 0 }

abbrev second_authority : Authority
second_authority = record {
  route = record { server_uuid = b'l' ∷ []; user_uuid = user_uuid };
  info = info;
}

notice_read :
    (value_of (read_notify_session_authority_info bare_notice) ≡ ok second_authority)
    × (value_of (read_string account_packet) ≡ ok account)
    × (find account waiting_lobby.authority_map ≡ some (record info { ip = b'x' ∷ [] }))
    × (same_text (b'x' ∷ []) address ≡ false)
unfolding read_notify_session_authority_info read_session_info read_fixed read_string to_bytes
    from_time_t to_time_t find same_text
notice_read = (refl, refl, refl, refl)

second_authority_is_lost_example :
    let t = (notify_session_authority bare_notice waiting_lobby).1 in
    (t.authority_map ≡ waiting_lobby.authority_map)
    × (handle_confirm_request accepting stranger account_packet t ≡ (ok tt, t))
second_authority_is_lost_example =
    second_authority_is_lost accepting stranger waiting_lobby bare_notice account_packet
      second_authority (record info { ip = b'x' ∷ [] }) notice_read.0 notice_read.1 notice_read.2
      notice_read.3
