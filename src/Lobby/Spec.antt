-- ===== src/Lobby/Spec.antt =====
-- What the lobby promises about who may come in, without packets, slots or a database: a state machine of
-- the authorities that are waiting and of the clients that are connected.
pub mod Admission
pub mod Counting
use ue4team_project_server.Common.{
  ℕ, ◌+◌, ◌≤◌, ◌≡◌, refl, sym, ap, ◌∙◌, subst, ◌≢◌, ◌⊎◌, inl, inr, List, [], ◌∷◌, Option, none,
  some, Any, ℤ, pos, negsuc, ◌==◌, ==_iff, if◌then◌else◌, Bool, true, false, Bool-cases, same_text,
  same_text_iff, text_keys, arith,
}
use ue4team_project_server.Common.Keyed.{set_if_new, set_at, unset, or_else}
use ue4team_project_server.Server.RemoteSessionInfo.{RemoteSessionInfo}
use ue4team_project_server.Server.Client.{in_state}
use ue4team_project_server.Lobby.State.{not_confirm, confirm, reserve_to_migrate}

-- A connected client.
pub record Guest : Type 0 where
  pub uuid : List ℕ
  pub state : ℤ
  pub accid : ℕ
  pub account : List ℕ
  pub address : List ℕ

pub record Hall : Type 0 where
  pub tickets : List ℕ → Option RemoteSessionInfo
  pub guests : List ℕ → Option Guest

pub data Label : Type 0 where
  stutter : Label
  granted : RemoteSessionInfo → Label
  connected : List ℕ → Guest → Label
  disconnected : List ℕ → Label
  admitted : Guest → List ℕ → RemoteSessionInfo → Label
  reserved : Guest → Label

-- A guest that is let in carries the account of its ticket.
abbrev pub let_in : Guest → List ℕ → RemoteSessionInfo → Guest
let_in g id info = record g { state = pos confirm; accid = info.accid; account = id }

abbrev pub leaving : Guest → Guest
leaving g = record g { state = pos reserve_to_migrate }

abbrev pub apply : Label → Hall → Hall
apply stutter h = h
apply (granted info) h = record h { tickets = set_if_new info.id info h.tickets }
apply (connected uuid g) h = record h { guests = set_if_new uuid g h.guests }
apply (disconnected uuid) h = record h { guests = unset uuid h.guests }
apply (admitted g id info) h = record {
  tickets = unset id h.tickets;
  guests = set_at g.uuid (let_in g id info) h.guests;
}
apply (reserved g) h = record h { guests = set_at g.uuid (leaving g) h.guests }

-- When a step may be taken: a ticket lets in the guest at the address that it was given for, and only a
-- guest that is in leaves for a zone.
abbrev pub Allowed : Label → Hall → Type 0
Allowed stutter h = Unit
Allowed (granted info) h = Unit
Allowed (connected uuid g) h = (g.uuid ≡ uuid) × (g.state ≡ pos not_confirm)
Allowed (disconnected uuid) h = Unit
Allowed (admitted g id info) h =
    (h.guests g.uuid ≡ some g) × (h.tickets id ≡ some info) × (info.ip ≡ g.address)
Allowed (reserved g) h = (h.guests g.uuid ≡ some g) × (g.state ≡ pos confirm)

-- The labels stand newest first.
pub data Run (start : Hall) : List Label → Hall → Type 0 where
  here : Run start [] start
  next :
      {h : Hall} {ls : List Label}
      → Run start ls h
      → (l : Label) → Allowed l h
      → Run start (l ∷ ls) (apply l h)

abbrev pub nobody : Hall
nobody = record { tickets = λ _. none; guests = λ _. none }

unfoldable pub grant_of : Label → List RemoteSessionInfo → List RemoteSessionInfo
grant_of (granted info) infos = info ∷ infos
grant_of stutter infos = infos
grant_of (connected uuid g) infos = infos
grant_of (disconnected uuid) infos = infos
grant_of (admitted g id info) infos = infos
grant_of (reserved g) infos = infos

-- The authorities granted in a run.
unfoldable pub grants : List Label → List RemoteSessionInfo
unfolding grant_of
grants [] = []
grants (l ∷ ls) = grant_of l (grants ls)
