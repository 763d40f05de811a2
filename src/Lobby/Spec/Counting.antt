-- ===== src/Lobby/Spec/Counting.antt =====
-- A ticket lets in once: what is used up under an id was granted to it.
use ue4team_project_server.Common.{
  ℕ, ◌+◌, ◌≤◌, ◌≡◌, List, [], ◌∷◌, Option, none, some, Bool, true, false, same_text, same_text_iff,
  text_keys, arith,
}
use ue4team_project_server.Common.Keyed.{set_if_new, unset}
use ue4team_project_server.Server.RemoteSessionInfo.{RemoteSessionInfo}
use ue4team_project_server.Lobby.Spec.{
  Hall, Label, stutter, granted, connected, disconnected, admitted, reserved, apply, grant_of,
}

abbrev pub one_if : Bool → ℕ
one_if true = 1
one_if false = 0

-- How many authorities were granted to an id.
unfoldable pub grants_to : List ℕ → List RemoteSessionInfo → ℕ
grants_to id [] = 0
grants_to id (info ∷ infos) = one_if (same_text info.id id) + grants_to id infos

abbrev pub waiting : Option RemoteSessionInfo → ℕ
waiting none = 0
waiting (some info) = 1

waiting-le-one : (o : Option RemoteSessionInfo) → waiting o ≤ 1
waiting-le-one none = omega arith
waiting-le-one (some info) = omega arith

-- Whether an authority that was waiting is gone.
abbrev pub used : Option RemoteSessionInfo → Option RemoteSessionInfo → ℕ
used none after = 0
used (some info) none = 1
used (some info) (some other) = 0

set_if_new-used :
    (id i : List ℕ) (info : RemoteSessionInfo) (f : List ℕ → Option RemoteSessionInfo)
    → used (f id) (set_if_new i info f id) + waiting (set_if_new i info f id)
      ≤ one_if (same_text i id) + waiting (f id)
set_if_new-used id i info f = ground (arith, waiting-le-one (f id), same_text_iff i id)

unset-used :
    (id i : List ℕ) (f : List ℕ → Option RemoteSessionInfo)
    → used (f id) (unset i f id) + waiting (unset i f id) ≤ waiting (f id)
unset-used id i f = ground (arith, waiting-le-one (f id))

kept-used : (o : Option RemoteSessionInfo) → used o o ≡ 0
kept-used none = omega arith
kept-used (some info) = omega arith

-- What a step uses up was waiting or is granted by it.
pub step-used :
    (id : List ℕ) (l : Label) (h : Hall) (infos : List RemoteSessionInfo) (n : ℕ)
    → n + waiting (h.tickets id) ≤ grants_to id infos
    → used (h.tickets id) ((apply l h).tickets id) + n + waiting ((apply l h).tickets id)
      ≤ grants_to id (grant_of l infos)
unfolding grant_of grants_to
step-used id stutter h infos n e = omega (arith, kept-used (h.tickets id))
step-used id (granted info) h infos n e = omega (arith, set_if_new-used id info.id info h.tickets)
step-used id (connected uuid g) h infos n e = omega (arith, kept-used (h.tickets id))
step-used id (disconnected uuid) h infos n e = omega (arith, kept-used (h.tickets id))
step-used id (admitted g i info) h infos n e = omega (arith, unset-used id i h.tickets)
step-used id (reserved g) h infos n e = omega (arith, kept-used (h.tickets id))
