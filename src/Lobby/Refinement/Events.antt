-- ===== src/Lobby/Refinement/Events.antt =====
-- The calls of the lobby from its sessions, each as a step of the machine in Lobby/Spec.antt.
use ue4team_project_server.Common.{
  ℕ, ◌≡◌, refl, ◌∙◌, inl, inr, List, [], ◌∷◌, ◌++◌, Option, none, some, Bool-cases, if◌then◌else◌,
  ◌==◌, Result, ok, throw, fault, text_keys, same_text, ◌>>=◌ as and_then,
}
use mathlib.Core.Path.{fun_ext}
use ue4team_project_server.Common.Calls.{after, lift, caught}
use ue4team_project_server.Common.Keyed.{
  find, erase, emplace, find-erase, find-emplace, set_if_new, unset, or_else,
}
use ue4team_project_server.Stream.ByteStream.{ByteStream, set_access_offset}
use ue4team_project_server.Stream.InputStream.{read_int16}
use ue4team_project_server.Server.Client.{Client, set_state, new_client, in_state}
use ue4team_project_server.Server.RemoteSessionInfo.{RemoteSessionInfo}
use ue4team_project_server.Channel.Packets.{
  Authority, Migrated, read_notify_session_authority_info, read_react_user_migration, value_of,
}
use ue4team_project_server.Lobby.State.{Lobby, not_confirm, confirm}
use ue4team_project_server.Lobby.Dispatch.{
  get_client, on_active, on_close, log_out, told_of, notify_session_authority, react_user_migration,
  tell_zone, zone_told, opened_in, bound,
}
use ue4team_project_server.Lobby.Spec.{
  Guest, Label, stutter, granted, connected, disconnected, apply, Allowed, grant_of,
}
use ue4team_project_server.Lobby.Quiet.{guest, seat, hall}
use ue4team_project_server.Lobby.Refinement.{Follows}

-- What calls the lobby: a session that opens under a new UUID from an address, one that closes, a packet of
-- one at a time of the clock, and a packet of the intermediate server.
pub data Event : Type 0 where
  active : List ℕ → List ℕ → Event
  close : List ℕ → Event
  packet : ℕ → List ℕ → ByteStream → Event
  channel_packet : ByteStream → Event

-- The authority that a packet of the intermediate server tells the lobby of, if it does.
abbrev pub authority : Result Authority → List RemoteSessionInfo
authority (ok a) = a.info ∷ []
authority (throw type) = []
authority fault = []

abbrev pub read_authority : ℕ × ByteStream → List RemoteSessionInfo
read_authority (opcode, rest) =
    if opcode == 0 then authority (value_of (read_notify_session_authority_info rest)) else []

abbrev pub open_authority : Result (ℕ × ByteStream) → List RemoteSessionInfo
open_authority (ok opened) = read_authority opened
open_authority (throw type) = []
open_authority fault = []

unfoldable pub told : Event → List RemoteSessionInfo
told (active uuid address) = []
told (close key) = []
told (packet now key stream) = []
told (channel_packet stream) = open_authority (and_then (set_access_offset 2 stream) read_int16)

-- One step of the machine, with the authorities that it is granted.
pub record Steps {Db : Type 0} (s t : Lobby Db) (new : List RemoteSessionInfo) : Type 0 where
  pub label : Label
  pub allowed : Allowed label (hall s)
  pub reached : hall t ≡ apply label (hall s)
  pub grants_new : (infos : List RemoteSessionInfo) → grant_of label infos ≡ new ++ infos

module _ {Db : Type 0} (s : Lobby Db) where
  keeps : (t : Lobby Db) → hall t ≡ hall s → Steps s t []
  unfolding grant_of
  keeps t e = record { label = stutter; allowed = tt; reached = e; grants_new = λ infos. refl }

  pub Follows-Steps : {A : Type 0} (r : Result A × Lobby Db) → Follows s r → Steps s r.1 []
  Follows-Steps r f = record {
    label = f.label;
    allowed = f.allowed;
    reached = f.reached;
    grants_new = f.grants_nothing;
  }

  pub on_active-Steps : (uuid address : List ℕ) → Steps s (on_active uuid address s) []
  unfolding on_active grant_of
  on_active-Steps uuid address = record {
    label = connected uuid (guest c);
    allowed = (refl, refl);
    reached = λ i. record { tickets = (hall s).tickets; guests = guests i };
    grants_new = λ infos. refl;
  }
    where
      c : Client
      c = set_state not_confirm (new_client uuid address)

      seat-or_else :
          (o : Option Client) → seat (some (or_else o c)) ≡ some (or_else (seat o) (guest c))
      seat-or_else none = refl
      seat-or_else (some c') = refl

      guests-at :
          (key : List ℕ)
          → seat (find key (emplace uuid c s.client_storage))
            ≡ set_if_new uuid (guest c) (hall s).guests key
      guests-at key = elim (Bool-cases (same_text uuid key)) [
        | inl same ↦
            rw (find-emplace uuid c s.client_storage key, same)
              (seat-or_else (find uuid s.client_storage))
        | inr other ↦ rw (find-emplace uuid c s.client_storage key, other)
      ]

      guests :
          ◌≡◌ {A = List ℕ → Option Guest}
            (λ key. seat (find key (emplace uuid c s.client_storage)))
            (set_if_new uuid (guest c) (hall s).guests)
      guests = fun_ext guests-at

  erased :
      (key : List ℕ)
      → ◌≡◌ {A = List ℕ → Option Guest}
          (λ k. seat (find k (erase key s.client_storage)))
          (unset key (hall s).guests)
  erased key = fun_ext λ k. elim (Bool-cases (same_text key k)) [
    | inl same ↦ rw (find-erase key s.client_storage k, same)
    | inr other ↦ rw (find-erase key s.client_storage k, other)
  ]

  pub on_close-Steps : (key : List ℕ) → Steps s (on_close key s).1 []
  unfolding on_close get_client grant_of
  on_close-Steps key = record {
    label = disconnected key;
    allowed = tt;
    reached =
        logged_out (find key s.client_storage)
          (record s { client_storage = erase key s.client_storage })
        ∙ λ i. record { tickets = (hall s).tickets; guests = erased key i };
    grants_new = λ infos. refl;
  }
    where
      logged_out : (o : Option Client) (t : Lobby Db) → hall (log_out o t).1 ≡ hall t
      logged_out none t = refl
      logged_out (some c) t = elim (Bool-cases (in_state confirm c.state)) [
        | inl e ↦ rw e
        | inr e ↦ rw e
      ]

  tickets-emplaced :
      (info : RemoteSessionInfo)
      → ◌≡◌ {A = List ℕ → Option RemoteSessionInfo}
          (λ id. find id (emplace info.id info s.authority_map))
          (set_if_new info.id info (hall s).tickets)
  tickets-emplaced info = fun_ext λ id. find-emplace info.id info s.authority_map id

  notified : (r : Result Authority) → Steps s (after (lift r s) told_of).1 (authority r)
  unfolding grant_of
  notified (ok a) = record {
    label = granted a.info;
    allowed = tt;
    reached = λ i. record { tickets = tickets-emplaced a.info i; guests = (hall s).guests };
    grants_new = λ infos. refl;
  }
  notified (throw type) = keeps s refl
  notified fault = keeps s refl

  reacted : (r : Result Migrated) → hall (after (lift r s) zone_told).1 ≡ hall s
  reacted (ok m) = told_zone (get_client m.user_uuid s)
    where
      told_zone : (o : Option Client) → hall (tell_zone m o s).1 ≡ hall s
      told_zone none = refl
      told_zone (some c) = refl
  reacted (throw type) = refl
  reacted fault = refl

  bound-Steps : (opened : ℕ × ByteStream) → Steps s (bound opened s).1 (read_authority opened)
  unfolding notify_session_authority react_user_migration
  bound-Steps (opcode, rest) = elim (Bool-cases (opcode == 0)) [
    | inl e ↦ rw e (notified (value_of (read_notify_session_authority_info rest)))
    | inr e ↦ elim (Bool-cases (opcode == 1)) [
      | inl e' ↦ rw (e, e') (keeps _ (reacted (value_of (read_react_user_migration rest))))
      | inr e' ↦ rw (e, e') (keeps s refl)
    ]
  ]

  caught-Steps :
      (r : Result (Unit {0}) × Lobby Db) (new : List RemoteSessionInfo)
      → Steps s r.1 new
      → Steps s (caught r (λ t. t)).1 new
  caught-Steps (ok u, t) new f = f
  caught-Steps (throw type, t) new f = f
  caught-Steps (fault, t) new f = f

  opened-Steps :
      (r : Result (ℕ × ByteStream))
      → Steps s (caught (after (lift r s) bound) (λ t. t)).1 (open_authority r)
  opened-Steps (ok opened) =
      caught-Steps (bound opened s) (read_authority opened) (bound-Steps opened)
  opened-Steps (throw type) = keeps s refl
  opened-Steps fault = keeps s refl

  pub offset-Steps :
      (r : Result ByteStream)
      → Steps s (after (lift r s) opened_in).1 (open_authority (and_then r read_int16))
  offset-Steps (ok body) = opened-Steps (read_int16 body)
  offset-Steps (throw type) = keeps s refl
  offset-Steps fault = keeps s refl
