-- ===== src/Lobby/Refinement.antt =====
-- Each handler of the lobby takes at most one step of the machine in Lobby/Spec.antt.
pub mod Steps
pub mod Events
pub mod Runs
use ue4team_project_server.Common.{
  ℕ, ◌+◌, ◌≡◌, refl, sym, ap, ◌∙◌, subst, List, [], ◌∷◌, Option, none, some, Bool, true, false,
  Bool-cases, inl, inr, if◌then◌else◌, Result, ok, throw, fault, ExceptionType, text_keys,
  same_text, same_text_iff, arith, ℤ, length, not, ◌==◌, pos,
}
use mathlib.Core.Path.{fun_ext}
use ue4team_project_server.Common.Calls.{
  Call, after, ◌>>=◌, ◌>>◌, return, get, modify, lift, caught,
}
use ue4team_project_server.Common.Keyed.{find, assign, erase, emplace, find-erase, find-emplace}
use ue4team_project_server.Stream.ByteStream.{ByteStream}
use ue4team_project_server.Stream.InputStream.{read_int32, read_string}
use ue4team_project_server.Server.Client.{Client, close, set_state, in_state}
use ue4team_project_server.Server.RemoteSessionInfo.{RemoteSessionInfo}
use ue4team_project_server.Lobby.CharacterInfo.{LobbyCharacterInfo, c_name}
use ue4team_project_server.Lobby.State.{
  Lobby, Statements, slot_size, put_client, confirm, reserve_to_migrate, no_cid, close_client,
}
use ue4team_project_server.Lobby.Listing.{
  Listing, list_row, list_rows, send_character_list, out_of, int32, dress,
}
use ue4team_project_server.Channel.Packets.{value_of}
use ue4team_project_server.Lobby.Requests.{
  slot_at, set_slot, created, create, delete, select, insert_items, matching, confirm_with,
  confirmed, handle_confirm_request, handle_character_list_request, handle_character_create_request,
  handle_character_delete_request, handle_character_select_request, default_items, with_defaults,
}
use ue4team_project_server.Lobby.Spec.{
  Guest, Hall, Label, stutter, admitted, reserved, let_in, leaving, apply, Allowed, grant_of,
}
use ue4team_project_server.Lobby.Quiet.{
  quiet, guest, seat, hall, Seated, Quiet, Quiet-bind, Quiet-then, Quiet-if, Quiet-lift,
  Quiet-return, Quiet-get, Quiet-send, Quiet-touch_slots, Quiet-put_slots, Quiet-execute,
  Quiet-close, seat-assign,
}

module _ {Db : Type 0} (d : Statements Db) (client : Client) where
  list_row-Quiet :
      (cid : ℕ) (row : Option LobbyCharacterInfo) (l : Listing)
      → Quiet client (list_row d cid row l)
  list_row-Quiet cid none l = search quiet
  list_row-Quiet cid (some info) l = search quiet

  list_rows-Quiet : (cids : List ℕ) (l : Listing) → Quiet client (list_rows d cids l)
  unfolding list_rows
  list_rows-Quiet [] l = search quiet
  list_rows-Quiet (cid ∷ cids) l = search (quiet, list_row-Quiet, list_rows-Quiet cids)

  pub send_character_list-Quiet : (c : Client) → Quiet client (send_character_list d c)
  unfolding send_character_list
  send_character_list-Quiet c = search (quiet, list_rows-Quiet)

  insert_items-Quiet :
      (cid accid : ℕ) (itemids : List ℕ) → Quiet client (insert_items d cid accid itemids)
  unfolding insert_items
  insert_items-Quiet cid accid [] = search quiet
  insert_items-Quiet cid accid (itemid ∷ itemids) =
      Quiet-then client _ _ (Quiet-execute client (d.insert_item cid accid itemid))
        (insert_items-Quiet cid accid itemids)

  created-Quiet :
      (info : LobbyCharacterInfo) (cid : Option ℕ) → Quiet client (created d client info cid)
  created-Quiet info none = search quiet
  created-Quiet info (some cid) = search (quiet, insert_items-Quiet)

  pub create_request-Quiet :
      (packet : ByteStream) → Quiet client (handle_character_create_request d client packet)
  unfolding handle_character_create_request
  create_request-Quiet packet = search (quiet, created-Quiet) depth 30

  pub delete_request-Quiet :
      (packet : ByteStream) → Quiet client (handle_character_delete_request d client packet)
  unfolding handle_character_delete_request
  delete_request-Quiet packet = search quiet depth 30

  pub list_request-Quiet :
      (packet : ByteStream) → Quiet client (handle_character_list_request d client packet)
  unfolding handle_character_list_request
  list_request-Quiet packet = search (quiet, send_character_list-Quiet)

-- One step of the machine that grants nothing.
pub record Follows {Db : Type 0} (s : Lobby Db) {A : Type 0} (r : Result A × Lobby Db)
    : Type 0 where
  pub label : Label
  pub allowed : Allowed label (hall s)
  pub reached : hall r.1 ≡ apply label (hall s)
  pub grants_nothing : (infos : List RemoteSessionInfo) → grant_of label infos ≡ infos

module _ {Db : Type 0} where
  pub stays :
      {A : Type 0} (s : Lobby Db) (r : Result A × Lobby Db) → hall r.1 ≡ hall s → Follows s r
  unfolding grant_of
  stays s r e = record {
    label = stutter;
    allowed = tt;
    reached = e;
    grants_nothing = λ infos. refl;
  }

  pub Quiet-Follows :
      {A : Type 0} (client : Client) (call : Call (Lobby Db) A) (s : Lobby Db)
      → Quiet client call
      → Seated client s
      → Follows s (call s)
  Quiet-Follows client call s q seated = stays s (call s) (q.keeps s seated)

  -- What a throw or a fault of the first part leaves is the state before it.
  pub lift-Follows :
      {A B : Type 0} (s : Lobby Db) (r : Result A) (next : A → Call (Lobby Db) B)
      → ((a : A) → Follows s (next a s))
      → Follows s ((lift r >>= next) s)
  lift-Follows s (ok a) next k = k a
  lift-Follows s (throw type) next k = stays s _ refl
  lift-Follows s fault next k = stays s _ refl

pub matching-eq-some :
    (client : Client) (o : Option RemoteSessionInfo) {info : RemoteSessionInfo}
    → matching client o ≡ some info
    → (o ≡ some info) × (info.ip ≡ client.remote_address)
matching-eq-some client none e = absurd cc
matching-eq-some client (some i) {info} e =
    elim (Bool-cases (same_text i.ip client.remote_address)) [
      | inl same ↦
          let e' : some i ≡ some info = rw same at e in
          (
            e',
            ap (λ r. r.ip) (sym (some_inj e')) ∙ (same_text_iff i.ip client.remote_address).0 same,
          )
      | inr other ↦ let e' : none ≡ some info = rw other at e in absurd cc
    ]
  where
    some_inj : some i ≡ some info → i ≡ info
    some_inj p = cc
