-- ===== src/Lobby/Guards.antt =====
-- What a client that is not confirmed can do, and what a selection that fails leaves.
use ue4team_project_server.Common.{
  ℕ, ◌≡◌, refl, ◌≢◌, List, some, false, ◌==◌, ==_iff, if◌then◌else◌, Bool-cases, inl, inr, ok,
  arith,
}
use ue4team_project_server.Stream.ByteStream.{ByteStream, set_access_offset}
use ue4team_project_server.Stream.InputStream.{read_int16}
use ue4team_project_server.Server.Client.{Client, in_state}
use ue4team_project_server.Lobby.State.{Lobby, Statements, confirm}
use ue4team_project_server.Lobby.Requests.{
  handle_character_list_request, handle_character_create_request, handle_character_delete_request,
  handle_character_select_request,
}
use ue4team_project_server.Lobby.Dispatch.{
  Opcode, lobby_confirm_request, character_list_request, character_create_request,
  character_delete_request, character_selection_request, other, opcode_of, handle, process_packet,
  get_client,
}

module _ {Db : Type 0} (d : Statements Db) where
  -- Every handler but that of the confirmation asks for the state first.
  handle_unconfirmed :
      (now : ℕ) (client : Client) (opcode : Opcode) (packet : ByteStream) (s : Lobby Db)
      → in_state confirm client.state ≡ false
      → opcode ≢ lobby_confirm_request
      → handle d now client opcode packet s ≡ (ok tt, s)
  unfolding handle_character_list_request handle_character_create_request
      handle_character_delete_request handle_character_select_request
  handle_unconfirmed now client lobby_confirm_request packet s e n = absurd (n refl)
  handle_unconfirmed now client character_list_request packet s e n = rw e
  handle_unconfirmed now client character_create_request packet s e n = rw e
  handle_unconfirmed now client character_delete_request packet s e n = rw e
  handle_unconfirmed now client character_selection_request packet s e n = rw e
  handle_unconfirmed now client other packet s e n = refl

  opcode_of-ne : (n : ℕ) → n ≢ 100 → opcode_of n ≢ lobby_confirm_request
  opcode_of-ne n h = elim (Bool-cases (n == 100)) [
    | inl e ↦ absurd (h ((==_iff n 100).0 e))
    | inr e ↦ rw e (others n)
  ]
    where
      others :
          (m : ℕ)
          → (if m == 101
              then character_list_request
              else if m == 102
              then character_create_request
              else if m == 103
              then character_delete_request
              else if m == 104
              then character_selection_request
              else other)
            ≢ lobby_confirm_request
      others m = ground arith

  -- A packet that is long enough to have an opcode, from a client that is not in the state kConfirm, and
  -- with any opcode but that of the confirmation, returns and changes nothing: it sends nothing, asks
  -- nothing of the database and closes no session.
  pub unconfirmed_is_ignored :
      (now : ℕ) (key : List ℕ) (client : Client) (packet body rest : ByteStream) (opcode : ℕ)
      (s : Lobby Db)
      → get_client key s ≡ some client
      → in_state confirm client.state ≡ false
      → set_access_offset 2 packet ≡ ok body
      → read_int16 body ≡ ok (opcode, rest)
      → opcode ≢ 100
      → process_packet d now key packet s ≡ (ok tt, s)
  unfolding process_packet
  unconfirmed_is_ignored now key client packet body rest opcode s found e offset read n = rw (
    found,
    offset,
    read,
    handle_unconfirmed now client (opcode_of opcode) rest s e (opcode_of-ne opcode n),
  )
