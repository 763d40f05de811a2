-- ===== src/Lobby/Refinement/Steps.antt =====
-- The handlers that move a client, and the dispatch of a packet.
use ue4team_project_server.Common.{
  ℕ, ◌≡◌, refl, ap, ◌∙◌, List, Option, none, some, true, Bool-cases, inl, inr, Result, ok, throw,
  fault, text_keys, same_text_refl, arith, negsuc, ℤ, pos,
}
use mathlib.Core.Path.{fun_ext}
use ue4team_project_server.Common.Calls.{◌>>◌, caught}
use ue4team_project_server.Common.Keyed.{find, assign, erase, find-erase, set_at, unset}
use ue4team_project_server.Stream.ByteStream.{ByteStream, set_access_offset}
use ue4team_project_server.Stream.InputStream.{read_string, read_int16}
use ue4team_project_server.Server.Client.{Client, set_state, in_state}
use ue4team_project_server.Server.RemoteSessionInfo.{RemoteSessionInfo}
use ue4team_project_server.Lobby.State.{Lobby, Statements, put_client, confirm, reserve_to_migrate}
use ue4team_project_server.Channel.Packets.{value_of}
use ue4team_project_server.Lobby.Requests.{
  matching, confirm_with, confirmed, handle_confirm_request, handle_character_select_request,
  choose,
}
use ue4team_project_server.Lobby.Spec.{admitted, reserved, grant_of}
use ue4team_project_server.Lobby.Quiet.{
  quiet, guest, seat, hall, Seated, Quiet, close-hall, seat-assign,
}
use ue4team_project_server.Lobby.Refinement.{
  apply, Follows, stays, Quiet-Follows, lift-Follows, matching-eq-some, send_character_list-Quiet,
  list_request-Quiet, create_request-Quiet, delete_request-Quiet,
}
use ue4team_project_server.Lobby.Dispatch.{
  Opcode, lobby_confirm_request, character_list_request, character_create_request,
  character_delete_request, character_selection_request, other, handle, open_packet, process_for,
  process_packet, get_client, close_stored, close_found, opcode_of,
}

module _ {Db : Type 0} where
  -- The lobby after a client is written to the storage and an authority may be taken out of the map.
  abbrev moved : Client → List (List ℕ × RemoteSessionInfo) → Lobby Db → Lobby Db
  moved c authorities s = record s {
    client_storage = assign c.uuid c s.client_storage;
    authority_map = authorities;
  }

  guests-moved :
      (c : Client) (authorities : List (List ℕ × RemoteSessionInfo)) (s : Lobby Db)
      → (hall (moved c authorities s)).guests ≡ set_at c.uuid (guest c) (hall s).guests
  guests-moved c authorities s = fun_ext λ key. seat-assign c.uuid c s.client_storage key

  moved-Seated :
      (c : Client) (authorities : List (List ℕ × RemoteSessionInfo)) (s : Lobby Db)
      → Seated c (moved c authorities s)
  moved-Seated c authorities s =
      seat-assign c.uuid c s.client_storage c.uuid ∙ rw (same_text_refl c.uuid)

  erased-tickets :
      (id : List ℕ) (s : Lobby Db)
      → ◌≡◌ {A = List ℕ → Option RemoteSessionInfo}
          (λ j. find j (erase id s.authority_map))
          (unset id (hall s).tickets)
  erased-tickets id s = fun_ext λ j. find-erase id s.authority_map j

module _ {Db : Type 0} (d : Statements Db) (client : Client) (s : Lobby Db) where
  -- The hall after a client is let in, whatever becomes of the list of its characters.
  pub admit_reached :
      (id : List ℕ) (info : RemoteSessionInfo)
      → hall (confirm_with d client id (some info) s).1
        ≡ apply (admitted (guest client) id info) (hall s)
  admit_reached id info =
      let c : Client = confirmed id info client in
      let t : Lobby Db = moved c (erase id s.authority_map) s in
      (send_character_list-Quiet d c c).keeps t (moved-Seated c (erase id s.authority_map) s) ∙ λ i.
      record {
        tickets = erased-tickets id s i;
        guests = guests-moved c (erase id s.authority_map) s i;
      }

  pub admit-Follows :
      (id : List ℕ) (o : Option RemoteSessionInfo)
      → Seated client s
      → matching client (find id s.authority_map) ≡ o
      → Follows s (confirm_with d client id o s)
  unfolding grant_of
  admit-Follows id none seated e = stays s _ refl
  admit-Follows id (some info) seated e =
      let (held, address) = matching-eq-some client (find id s.authority_map) e in
      record {
        label = admitted (guest client) id info;
        allowed = (seated, held, address);
        reached = admit_reached id info;
        grants_nothing = λ infos. refl;
      }

  pub confirm-Follows :
      (packet : ByteStream) → Seated client s → Follows s (handle_confirm_request d client packet s)
  unfolding handle_confirm_request
  confirm-Follows packet seated =
      lift-Follows s (value_of (read_string packet)) _
        λ id. admit-Follows id (matching client (find id s.authority_map)) seated refl

  in_state-eq : (state : ℕ) (z : ℤ) → in_state state z ≡ true → z ≡ pos state
  in_state-eq state (pos n) e = ground arith
  in_state-eq state (negsuc n) e = absurd cc

  choose-Quiet :
      (now : ℕ) (packet : ByteStream)
      → Quiet (set_state reserve_to_migrate client) (choose d now client packet)
  choose-Quiet now packet = search quiet depth 30

  reserve-Follows :
      (now : ℕ) (packet : ByteStream)
      → Seated client s
      → (in_state confirm client.state ≡ true)
      → Follows s
          ((put_client (set_state reserve_to_migrate client) >> choose d now client packet) s)
  unfolding grant_of
  reserve-Follows now packet seated e =
      let c : Client = set_state reserve_to_migrate client in
      let t : Lobby Db = moved c s.authority_map s in
      record {
        label = reserved (guest client);
        allowed = (seated, in_state-eq confirm client.state e);
        reached = (choose-Quiet now packet).keeps t (moved-Seated c s.authority_map s) ∙ λ i.
            record { tickets = (hall s).tickets; guests = guests-moved c s.authority_map s i };
        grants_nothing = λ infos. refl;
      }

  select-Follows :
      (now : ℕ) (packet : ByteStream)
      → Seated client s
      → Follows s (handle_character_select_request d now client packet s)
  unfolding handle_character_select_request
  select-Follows now packet seated = elim (Bool-cases (in_state confirm client.state)) [
    | inl e ↦ rw e (reserve-Follows now packet seated e)
    | inr e ↦ rw e (stays s _ refl)
  ]

  handle-Follows :
      (now : ℕ) (opcode : Opcode) (packet : ByteStream)
      → Seated client s
      → Follows s (handle d now client opcode packet s)
  handle-Follows now lobby_confirm_request packet seated = confirm-Follows packet seated
  handle-Follows now character_list_request packet seated =
      Quiet-Follows client _ s (list_request-Quiet d client packet) seated
  handle-Follows now character_create_request packet seated =
      Quiet-Follows client _ s (create_request-Quiet d client packet) seated
  handle-Follows now character_delete_request packet seated =
      Quiet-Follows client _ s (delete_request-Quiet d client packet) seated
  handle-Follows now character_selection_request packet seated = select-Follows now packet seated
  handle-Follows now other packet seated = stays s _ refl

module _ {Db : Type 0} where
  close_found-hall :
      (uuid : List ℕ) (o : Option Client) (s : Lobby Db)
      → find uuid s.client_storage ≡ o
      → hall (close_found uuid o s) ≡ hall s
  close_found-hall uuid none s e = refl
  close_found-hall uuid (some c) s e = close-hall uuid c s (ap seat e)

  -- The handler of an exception closes the session, which is not seen.
  caught-Follows :
      (client : Client) (s : Lobby Db) (r : Result (Unit {0}) × Lobby Db)
      → Follows s r
      → Follows s (caught r (close_stored client))
  unfolding get_client
  caught-Follows client s (ok u, t) f = record {
    label = f.label;
    allowed = f.allowed;
    reached = f.reached;
    grants_nothing = f.grants_nothing;
  }
  caught-Follows client s (fault, t) f = record {
    label = f.label;
    allowed = f.allowed;
    reached = f.reached;
    grants_nothing = f.grants_nothing;
  }
  caught-Follows client s (throw type, t) f = record {
    label = f.label;
    allowed = f.allowed;
    reached = close_found-hall client.uuid (find client.uuid t.client_storage) t refl ∙ f.reached;
    grants_nothing = f.grants_nothing;
  }

module _ {Db : Type 0} (d : Statements Db) where
  opened-Follows :
      (now : ℕ) (client : Client) (s : Lobby Db) (opened : ℕ × ByteStream)
      → Seated client s
      → Follows s (open_packet d now client opened s)
  opened-Follows now client s (opcode, packet) seated =
      handle-Follows d client s now (opcode_of opcode) packet seated

  process_for-Follows :
      (now : ℕ) (client : Client) (packet : ByteStream) (s : Lobby Db)
      → Seated client s
      → Follows s (process_for d now (some client) packet s)
  process_for-Follows now client packet s seated =
      lift-Follows s (set_access_offset 2 packet) _ λ body. caught-Follows client s _ (
        lift-Follows s (read_int16 body) (open_packet d now client)
          λ opened. opened-Follows now client s opened seated)

  found-Follows :
      (now : ℕ) (key : List ℕ) (packet : ByteStream) (s : Lobby Db) (o : Option Client)
      → find key s.client_storage ≡ o
      → ((c : Client) → o ≡ some c → c.uuid ≡ key)
      → Follows s (process_for d now o packet s)
  found-Follows now key packet s none e keyed = stays s _ refl
  found-Follows now key packet s (some client) e keyed =
      process_for-Follows now client packet s
        (ap (λ k. seat (find k s.client_storage)) (keyed client refl) ∙ ap seat e)

  pub process_packet-Follows :
      (now : ℕ) (key : List ℕ) (packet : ByteStream) (s : Lobby Db)
      → ((c : Client) → find key s.client_storage ≡ some c → c.uuid ≡ key)
      → Follows s (process_packet d now key packet s)
  unfolding process_packet get_client
  process_packet-Follows now key packet s keyed =
      found-Follows now key packet s (find key s.client_storage) refl keyed
