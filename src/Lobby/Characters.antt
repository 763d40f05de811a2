-- ===== src/Lobby/Characters.antt =====
-- Making, deleting and choosing a character in a client's slots.
pub mod Lives
use ue4team_project_server.Common.{
  ℕ, ◌+◌, ◌≤◌, ◌<◌, ◌≡◌, refl, sym, ap, ◌∙◌, subst, List, [], ◌∷◌, ◌++◌, Option, none, some, Bool,
  true, false, not, ◌==◌, ltb, leb, ◌||◌, if◌then◌else◌, Bool-cases, inl, inr, length, get_elem?,
  set, length-set, Result, ok, throw, fault, text_keys, arith, ◌≢◌, ==_refl, get_elem?-set, set-set,
  set_same, lt→ltb, le→ltb, ◌^◌, signed, to_ℕ, is_negative,
}
use ue4team_project_server.Common.Keyed.{
  find, assign, emplace, emplace_known, assign-assign, assign_known, find-assign_self,
}
use ue4team_project_server.Common.Calls.{Call, ◌>>=◌, ◌>>◌, lift}
use ue4team_project_server.Stream.ByteStream.{ByteStream}
use ue4team_project_server.Stream.InputStream.{read_int32}
use ue4team_project_server.Server.Client.{Client, in_state, set_state}
use ue4team_project_server.Channel.Packets.{zone_server, request_user_migration}
use ue4team_project_server.Lobby.CharacterInfo.{
  LobbyCharacterInfo, name_size, c_name, read_lobby_character_info,
}
use ue4team_project_server.Lobby.State.{
  Lobby, Statements, slot_size, confirm, reserve_to_migrate, no_cid, create_notify, delete_notify,
  to_client, to_intermediate, zero_slots, execute, put_client, Sent,
}
use ue4team_project_server.Lobby.Listing.{out_of, int32}
use ue4team_project_server.Channel.Packets.{value_of}
use ue4team_project_server.Lobby.Requests.{
  slots_of, slot_at, set_slot, with_defaults, default_items, created, create, delete, select,
  session_info, insert_items, handle_character_create_request, handle_character_delete_request,
  handle_character_select_request,
}

-- The slots of a client, as the list of its characters or a creation has left them.
pub record HasSlots {Db : Type 0} (client : Client) (slots : List ℕ) (s : Lobby Db) : Type 0 where
  pub stored : find client.uuid s.slot_info ≡ some slots
  pub sized : length slots ≡ slot_size

pub slot_in : (slot : ℕ) → slot < slot_size → out_of slot_size (int32 slot) ≡ false
slot_in slot h = ground arith

pub slot_past : (slot : ℕ) → slot ≤ slot_size → out_of (slot_size + 1) (int32 slot) ≡ false
slot_past slot h = ground arith

pub other_cid : (cid : ℕ) → cid ≢ no_cid → (cid == no_cid) ≡ false
other_cid cid h = ground arith

pub slot_number : (slot : ℕ) → slot < 10 → to_ℕ (int32 slot) ≡ slot
slot_number slot h = ground arith

module _ {Db : Type 0} (client : Client) (s : Lobby Db) where
  pub slot_at_lem :
      (slots : List ℕ) (slot cid : ℕ)
      → HasSlots client slots s
      → get_elem? slots slot ≡ some cid
      → slot_at client slot s ≡ (ok cid, s)
  slot_at_lem slots slot cid h e =
      rw (emplace_known client.uuid zero_slots slots s.slot_info h.stored, h.stored, e)

  pub set_slot_lem :
      (slots : List ℕ) (slot cid : ℕ)
      → HasSlots client slots s
      → set_slot client slot cid s
        ≡ (ok tt, record s { slot_info = assign client.uuid (set slots slot cid) s.slot_info })
  set_slot_lem slots slot cid h =
      rw (emplace_known client.uuid zero_slots slots s.slot_info h.stored, h.stored)

-- The database takes the character and gives it the cid.
pub record Accepts {Db : Type 0} (d : Statements Db) (client : Client) (info : LobbyCharacterInfo)
    (db : Db) (cid : ℕ) : Type 0 where
  pub inserted : Db
  pub insert_ok : d.insert_character client.accid (with_defaults info) db ≡ (ok tt, inserted)
  pub named : Db
  pub cid_ok : d.cid_of_name info.name inserted ≡ (ok (some cid), named)
  pub items_ok :
      (c accid itemid : ℕ) (b : Db) → (b' : Db) × (d.insert_item c accid itemid b ≡ (ok tt, b'))

module _ {Db : Type 0} (d : Statements Db) where
  insert_items_lem :
      (cid accid : ℕ) (itemids : List ℕ) (s : Lobby Db)
      → ((c a i : ℕ) (b : Db) → (b' : Db) × (d.insert_item c a i b ≡ (ok tt, b')))
      → (b : Db) × (insert_items d cid accid itemids s ≡ (ok tt, record s { database = b }))
  unfolding insert_items
  insert_items_lem cid accid [] s h = (s.database, refl)
  insert_items_lem cid accid (itemid ∷ itemids) s h =
      let (b, e) = h cid accid itemid s.database in
      let (b', e') = insert_items_lem cid accid itemids (record s { database = b }) h in
      (b', rw (e, e'))

  -- The lobby with a cid in a slot, a packet sent and the database as it is left.
  abbrev pub put_slot : Client → List ℕ → Sent → Db → Lobby Db → Lobby Db
  put_slot client slots packet db s = record s {
    slot_info = assign client.uuid slots s.slot_info;
    sent = s.sent ++ packet ∷ [];
    database = db;
  }

  created_lem :
      (client : Client) (t : Lobby Db) (slots : List ℕ) (info : LobbyCharacterInfo) (cid : ℕ)
      → info.slot < slot_size
      → length info.name < name_size
      → HasSlots client slots t
      → ((c a i : ℕ) (b : Db) → (b' : Db) × (d.insert_item c a i b ≡ (ok tt, b')))
      → (db : Db) × (created d client (with_defaults info) (some cid) t ≡ (
        ok tt,
        put_slot client
            (set slots info.slot cid)
            (to_client client.uuid (create_notify (some (with_defaults info))))
            db
            t,
      ))
  created_lem client t slots info cid slot name h items_ok =
      let u : Lobby Db = record t {
        slot_info = assign client.uuid (set slots info.slot cid) t.slot_info;
      } in
      let (b, items) = insert_items_lem cid client.accid default_items u items_ok in
      (
        b,
        rw (
          slot_number info.slot (omega arith),
          emplace_known client.uuid zero_slots slots t.slot_info h.stored,
          h.stored,
          items,
          lt→ltb _ _ name,
        ),
      )

  module _ (client : Client) (packet : ByteStream) (s : Lobby Db) (slots : List ℕ) where
    pub create_request_lem :
        (info : LobbyCharacterInfo) (cid : ℕ)
        → in_state confirm client.state ≡ true
        → value_of (read_lobby_character_info packet) ≡ ok info
        → info.slot < slot_size
        → length info.name < name_size
        → HasSlots client slots s
        → get_elem? slots info.slot ≡ some no_cid
        → Accepts d client info s.database cid
        → (db : Db) × (handle_character_create_request d client packet s ≡ (
          ok tt,
          put_slot client
              (set slots info.slot cid)
              (to_client client.uuid (create_notify (some (with_defaults info))))
              db
              s,
        ))
    unfolding handle_character_create_request
    create_request_lem info cid state read slot name h free a =
        let t : Lobby Db = record s { database = a.named } in
        let h' : HasSlots client slots t = record { stored = h.stored; sized = h.sized } in
        let at = slot_at_lem client s slots info.slot no_cid h free in
        let (db, made) = created_lem client t slots info cid slot name h' a.items_ok in
        (
          db,
          rw
              (
                state,
                read,
                slot_in info.slot slot,
                slot_number info.slot (omega arith),
                at,
                lt→ltb _ _ name,
                a.insert_ok,
                a.cid_ok,
              )
              made,
        )

    pub delete_request_lem :
        (slot cid : ℕ) (db : Db)
        → in_state confirm client.state ≡ true
        → value_of (read_int32 packet) ≡ ok slot
        → slot < slot_size
        → HasSlots client slots s
        → get_elem? slots slot ≡ some cid
        → cid ≢ no_cid
        → d.delete_character cid s.database ≡ (ok tt, db)
        → handle_character_delete_request d client packet s ≡ (
          ok tt,
          put_slot client (set slots slot no_cid) (to_client client.uuid (delete_notify slot)) db s,
        )
    unfolding handle_character_delete_request
    delete_request_lem slot cid db state read fits h e there deleted =
        let t : Lobby Db = record s { database = db } in
        let h' : HasSlots client slots t = record { stored = h.stored; sized = h.sized } in
        rw (
          state,
          read,
          slot_past slot (omega arith),
          slot_number slot (omega arith),
          slot_at_lem client s slots slot cid h e,
          other_cid cid there,
          deleted,
          emplace_known client.uuid zero_slots slots s.slot_info h.stored,
          h.stored,
        )
