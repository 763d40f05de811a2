-- ===== src/Lobby/Entry.antt =====
-- A confirmation that finds its authority.
use ue4team_project_server.Common.{
  false, same_text, ℕ, ◌≡◌, refl, ap, ◌∙◌, List, none, some, ok, same_text_iff, same_text_refl,
  text_keys,
}
use ue4team_project_server.Common.Keyed.{find}
use ue4team_project_server.Stream.ByteStream.{ByteStream}
use ue4team_project_server.Stream.InputStream.{read_string}
use ue4team_project_server.Server.Client.{Client}
use ue4team_project_server.Server.RemoteSessionInfo.{RemoteSessionInfo}
use ue4team_project_server.Channel.Packets.{value_of, Authority, read_notify_session_authority_info}
use ue4team_project_server.Lobby.Dispatch.{notify_session_authority}
use ue4team_project_server.Common.Keyed.{emplace_known}
use ue4team_project_server.Lobby.State.{Lobby, Statements}
use ue4team_project_server.Lobby.Requests.{handle_confirm_request}
use ue4team_project_server.Lobby.Spec.{let_in}
use ue4team_project_server.Lobby.Quiet.{guest, hall}
use ue4team_project_server.Lobby.Refinement.Steps.{admit_reached}

module _ {Db : Type 0} (d : Statements Db) (client : Client) (s : Lobby Db) where
  -- A client whose id has an authority for its address is let in by the confirmation, and the authority is
  -- used up, whatever becomes of the list of its characters.
  pub confirm-admits :
      (packet : ByteStream) (id : List ℕ) (info : RemoteSessionInfo)
      → value_of (read_string packet) ≡ ok id
      → find id s.authority_map ≡ some info
      → info.ip ≡ client.remote_address
      → let t = hall (handle_confirm_request d client packet s).1 in
        (t.guests client.uuid ≡ some (let_in (guest client) id info)) × (t.tickets id ≡ none)
  unfolding handle_confirm_request
  confirm-admits packet id info read held address =
      rw (read, held, (same_text_iff info.ip client.remote_address).1 address)
        (
          ap (λ h. h.guests client.uuid) (admit_reached d client s id info)
              ∙ rw (same_text_refl client.uuid),
          ap (λ h. h.tickets id) (admit_reached d client s id info) ∙ rw (same_text_refl id),
        )

  -- A notice of an authority for an id that already waits, for some other address, leaves the map as it is;
  -- and a client that then confirms the id from an address that is not the waiting one's is not let in: the
  -- call returns and changes nothing.
  pub second_authority_is_lost :
      (notice packet : ByteStream) (a : Authority) (old : RemoteSessionInfo)
      → value_of (read_notify_session_authority_info notice) ≡ ok a
      → value_of (read_string packet) ≡ ok (a.info.id)
      → find (a.info.id) s.authority_map ≡ some old
      → same_text old.ip client.remote_address ≡ false
      → let t = (notify_session_authority notice s).1 in
        (t.authority_map ≡ s.authority_map)
        × (handle_confirm_request d client packet t ≡ (ok tt, t))
  unfolding handle_confirm_request notify_session_authority
  second_authority_is_lost notice packet a old told read waits other =
      let same = emplace_known (a.info.id) (a.info) old s.authority_map waits in
      rw (told, same) (refl, rw (read, waits, other))
