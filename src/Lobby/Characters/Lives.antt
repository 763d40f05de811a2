-- ===== src/Lobby/Characters/Lives.antt =====
-- What becomes of a character that was made, and a deletion in the slot behind the last.
use ue4team_project_server.Common.{
  ℕ, zero, suc, ◌<◌, ◌≡◌, refl, ap, ◌∙◌, List, [], ◌∷◌, ◌++◌, none, some, true, length, get_elem?,
  set, length-set, Result, ok, fault, text_keys, arith, ◌≢◌, get_elem?-set, set-set, set_same,
}
use ue4team_project_server.Common.Keyed.{
  find, assign, assign-assign, assign_known, find-assign_self, emplace_known,
}
use ue4team_project_server.Stream.ByteStream.{ByteStream}
use ue4team_project_server.Stream.InputStream.{read_int32}
use ue4team_project_server.Server.Client.{Client, in_state, set_state}
use ue4team_project_server.Channel.Packets.{zone_server, request_user_migration}
use ue4team_project_server.Lobby.CharacterInfo.{
  LobbyCharacterInfo, name_size, read_lobby_character_info,
}
use ue4team_project_server.Lobby.State.{
  Sent, Lobby, Statements, slot_size, confirm, reserve_to_migrate, no_cid, create_notify,
  delete_notify, to_client, to_intermediate, zero_slots,
}
use ue4team_project_server.Channel.Packets.{value_of}
use ue4team_project_server.Lobby.Requests.{
  with_defaults, session_info, handle_character_create_request, handle_character_delete_request,
  handle_character_select_request,
}
use ue4team_project_server.Lobby.Characters.{
  HasSlots, Accepts, put_slot, slot_in, slot_number, other_cid, slot_at_lem, create_request_lem,
  delete_request_lem,
}

module _ {Db : Type 0} (d : Statements Db) (client : Client) (s : Lobby Db) (slots : List ℕ) where
  -- A confirmed client that names slot 5, one behind the last of its five slots, passes the test of the
  -- deletion, and the read of the slot is outside the array.
  pub delete_behind_last :
      (packet : ByteStream)
      → in_state confirm client.state ≡ true
      → value_of (read_int32 packet) ≡ ok slot_size
      → HasSlots client slots s
      → (handle_character_delete_request d client packet s).0 ≡ fault
  unfolding handle_character_delete_request
  delete_behind_last packet state read h = rw (
    state,
    read,
    emplace_known client.uuid zero_slots slots s.slot_info h.stored,
    h.stored,
    behind slots slot_size h.sized,
  )
    where
      behind : (xs : List ℕ) (n : ℕ) → length xs ≡ n → get_elem? xs n ≡ none
      behind [] n e = refl
      behind (x ∷ xs) zero e = absurd (omega arith)
      behind (x ∷ xs) (suc n) e = behind xs n (omega arith)

  module _ (packet packet' : ByteStream) (info : LobbyCharacterInfo) (cid : ℕ)
      (state : in_state confirm client.state ≡ true)
      (read : value_of (read_lobby_character_info packet) ≡ ok info) (slot : info.slot < slot_size)
      (name : length info.name < name_size) (h : HasSlots client slots s)
      (free : get_elem? slots info.slot ≡ some no_cid) (a : Accepts d client info s.database cid)
      (read' : value_of (read_int32 packet') ≡ ok info.slot) (there : cid ≢ no_cid) where
    abbrev notified : List Sent
    notified = s.sent ++ to_client client.uuid (create_notify (some (with_defaults info))) ∷ []

    abbrev filled : List ℕ
    filled = set slots info.slot cid

    filled_at : get_elem? filled info.slot ≡ some cid
    filled_at = get_elem?-set slots info.slot cid (omega (arith, h.sized))

    -- the lobby after the creation
    abbrev with_character : Db → Lobby Db
    with_character db =
        put_slot d client filled (to_client client.uuid (create_notify (some (with_defaults info))))
          db s

    with_character-HasSlots : (db : Db) → HasSlots client filled (with_character db)
    with_character-HasSlots db = record {
      stored = find-assign_self client.uuid filled s.slot_info;
      sized = length-set slots info.slot cid ∙ h.sized;
    }

    -- A confirmed client makes a character in a free slot, with a name that fits, and the database takes it
    -- and gives it a cid; then it deletes the character of that slot. Both calls return, the slots of every
    -- client are as before the two, and the client is told of both.
    pub made_and_deleted :
        ((b : Db) → (b' : Db) × (d.delete_character cid b ≡ (ok tt, b')))
        → let t = handle_character_create_request d client packet s in
          (t.0 ≡ ok tt)
          × ((db : Db) × (handle_character_delete_request d client packet' t.1 ≡ (
            ok tt,
            record s {
              sent = notified ++ to_client client.uuid (delete_notify info.slot) ∷ [];
              database = db;
            },
          )))
    made_and_deleted deletes =
        let (db, made) =
          create_request_lem d client packet s slots info cid state read slot name h free a in
        let (db', gone) = deletes db in
        let deleted =
          delete_request_lem d client packet' (with_character db) filled info.slot cid db' state
            read' slot (with_character-HasSlots db) filled_at there gone in
        (rw made, (db', rw made (deleted ∙ ap (back db') restored)))
      where
        back : Db → List (List ℕ × List ℕ) → Result (Unit {0}) × Lobby Db
        back db m = (
          ok tt,
          record s {
            slot_info = m;
            sent = notified ++ to_client client.uuid (delete_notify info.slot) ∷ [];
            database = db;
          },
        )

        restored :
            assign client.uuid (set filled info.slot no_cid) (assign client.uuid filled s.slot_info)
            ≡ s.slot_info
        restored =
            assign-assign client.uuid filled _ s.slot_info
            ∙ ap (λ v. assign client.uuid v s.slot_info)
                (set-set slots info.slot cid no_cid ∙ set_same slots info.slot no_cid free)
            ∙ assign_known client.uuid slots s.slot_info h.stored

    -- A confirmed client makes a character in a free slot, with a name that fits, and the database takes it
    -- and gives it a cid; then it chooses that slot. The choice returns, the client is reserved for the
    -- migration, and the intermediate server is asked to bring this client, with its account, its address
    -- and that cid, to a zone server.
    pub made_and_chosen :
        (now : ℕ)
        → let t = (handle_character_create_request d client packet s).1 in
          let u = handle_character_select_request d now client packet' t in
          (u.0 ≡ ok tt)
          × (u.1.sent
              ≡ notified
                ++ to_intermediate
                    (request_user_migration zone_server client.uuid (session_info client cid now))
                  ∷ [])
          × (find client.uuid u.1.client_storage ≡ some (set_state reserve_to_migrate client))
    unfolding handle_character_select_request
    made_and_chosen now =
        let (db, made) =
          create_request_lem d client packet s slots info cid state read slot name h free a in
        let t : Lobby Db = with_character db in
        let u : Lobby Db = record t {
          client_storage =
              assign client.uuid (set_state reserve_to_migrate client) t.client_storage;
        } in
        let h' : HasSlots client filled u = record {
          stored = (with_character-HasSlots db).stored;
          sized = (with_character-HasSlots db).sized;
        } in
        let at = slot_at_lem client u filled info.slot cid h' filled_at in
        rw
          (
            made,
            state,
            read',
            slot_in info.slot slot,
            slot_number info.slot (omega arith),
            at,
            other_cid cid there,
          )
          (
            refl,
            refl,
            find-assign_self client.uuid (set_state reserve_to_migrate client) t.client_storage,
          )
