-- ===== src/Matching/Reachable.antt =====
-- The service over any run: clients that come and go, get their characters, ask for matches, withdraw,
-- confirm and refuse.
use ue4team_project_server.Common.{ℕ, ◌+◌, ◌^◌, ◌<◌, ◌≡◌, Bool, false, none, [], ◌∷◌, ◌++◌, ok}
use ue4team_project_server.ZoneSystem.Tables.{Tables}
use ue4team_project_server.Matching.Match.{Match}
use ue4team_project_server.Matching.Service.{
  Service, set_character, handle_matching_request, handle_matching_confirm_request, on_close,
}

module _ (tables : Tables) where
  -- Requests that throw change nothing, and a run ends with a call that faults.
  pub data Step : Service → Service → Type 0 where
    connects :
        {v : Service} (key : ℕ)
        → Step v (record v {
          clients = v.clients ++ record { key = key; match = none; has_character = false } ∷ [];
        })
    enters : {v : Service} (key : ℕ) → Step v (record v { clients = set_character key v.clients })
    requests :
        {v w : Service} (key : ℕ) (is_request : Bool) (mapid : ℕ)
        → v.system.match_id + 1 < 2 ^ 64
        → handle_matching_request key is_request mapid v ≡ ok w
        → Step v w
    confirms :
        {v w : Service} (key : ℕ) (match_ok : Bool)
        → handle_matching_confirm_request tables key match_ok v ≡ ok w
        → Step v w
    disconnects : {v : Service} (key : ℕ) → Step v (on_close key v)

  pub data Reachable : Service → Type 0 where
    started :
        Reachable
          (record { system = record { match_id = 0; match_queue = [] }; clients = []; events = [] })
    after : {v w : Service} → Reachable v → Step v w → Reachable w
