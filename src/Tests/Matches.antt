-- ===== src/Tests/Matches.antt =====
-- Clients 1 and 2, and a match that waits for its second client.
use ue4team_project_server.Matching.Reachable.{Reachable}
use ue4team_project_server.Matching.Service.{
  has_map, match_confirm, spawn_all, remove_match, Service, match_result, match_canceled, opened,
  spawned, get_match_from_weak, handle_matching_request, handle_matching_confirm_request,
}
use ue4team_project_server.ZoneSystem.Tables.{ZoneData, Tables}
use ue4team_project_server.Model.FVector.{zero_vector}
use ue4team_project_server.Common.Keyed.{find}
use ue4team_project_server.Matching.Match.{confirm, confirming}
use ue4team_project_server.Common.{
  ℕ, ◌≡◌, ◌≢◌, refl, true, false, some, [], ◌∷◌, ok, fault, throw, run_time_error, ◌>>=◌, arith,
}
use ue4team_project_server.Matching.Queue.{IsSystem}
use ue4team_project_server.Matching.Requests.{
  AnsweredUnless, is_lost, handle_matching_confirm_request-Answered,
}
use ue4team_project_server.Matching.Bystander.{idle, for_three, bystander_cancels}
use ue4team_project_server.Matching.Progress.{
  seat, dungeon, two_clients, serving, matched, two_clients_meet, request_after_withdrawal,
}

abbrev dungeon_entry : ZoneData
dungeon_entry = record {
  map_id = 200;
  zone_type = 1;
  portal = record { map_id = 100; range = 0; location = zero_vector };
  player_spawn = zero_vector;
  spawn_point = [];
}

-- Map 200 is the only one with data.
abbrev one_map : Tables
one_map = record { zone_data = (200, dungeon_entry) ∷ []; mob_data = [] }

map_known : has_map one_map 200 ≡ true
unfolding find
map_known = refl

abbrev full : Service
full = record {
  system = record {
    match_id = 1;
    match_queue =
        record {
          state = confirming;
          mapid = 200;
          match_instance_id = 0;
          seats =
              record { client_key = some 1; confirmed = true }
              ∷ record { client_key = some 2; confirmed = false }
              ∷ [];
        }
        ∷ [];
  };
  clients = matched 0 1 ∷ matched 0 2 ∷ [];
  events = [];
}

full-IsSystem : IsSystem (full.system)
full-IsSystem = record {
  matches = (record { two_seats = refl; sound = (refl, (refl, tt)); standing = refl }, tt);
  below = (omega arith, tt);
  unique = (tt, tt);
}

different : ◌≢◌ {A = ℕ} 1 2
different e = omega arith

-- The second confirmation opens the dungeon.
opening :
    handle_matching_confirm_request one_map 2 true full
    ≡ ok (record full {
      system = record { match_id = 1; match_queue = [] };
      events = opened 200 ∷ spawned 1 ∷ spawned 2 ∷ [];
    })
unfolding handle_matching_confirm_request match_confirm confirm spawn_all remove_match find
opening = refl

-- The same for a map without data.
abbrev astray : Service
astray = record full {
  system = record {
    match_id = 1;
    match_queue =
        record {
          state = confirming;
          mapid = 300;
          match_instance_id = 0;
          seats =
              record { client_key = some 1; confirmed = true }
              ∷ record { client_key = some 2; confirmed = false }
              ∷ [];
        }
        ∷ [];
  };
}

losing : handle_matching_confirm_request one_map 2 true astray ≡ fault
unfolding handle_matching_confirm_request match_confirm confirm find
losing = refl

handle_matching_confirm_request-Answered_example :
    AnsweredUnless
      (is_lost one_map (get_match_from_weak 2 full) 2 true full)
      (handle_matching_confirm_request one_map 2 true full)
handle_matching_confirm_request-Answered_example =
    handle_matching_confirm_request-Answered one_map 2 true full full-IsSystem

two_clients_meet_example :
    (handle_matching_request 1 true 200 (two_clients 5 1 2) >>= λ v1.
    handle_matching_request 2 true 200 v1 >>= λ v2.
    handle_matching_confirm_request one_map 2 true v2 >>= λ v3.
    handle_matching_confirm_request one_map 1 true v3)
    ≡ ok (
        serving 5 []
          (matched 5 1)
          (matched 5 2)
          (match_result 1 ∷ match_result 2 ∷ opened 200 ∷ spawned 1 ∷ spawned 2 ∷ []))
two_clients_meet_example = two_clients_meet one_map 5 1 2 200 map_known different

request_after_withdrawal_example :
    (handle_matching_request 1 true 200 (two_clients 5 1 2) >>= λ v1.
    handle_matching_request 2 true 200 v1 >>= λ v2.
    handle_matching_request 2 false 0 v2 >>= λ v3. handle_matching_request 2 true 300 v3)
    ≡ throw run_time_error
request_after_withdrawal_example = request_after_withdrawal 5 1 2 200 300 different

-- The service after clients 1, 2 and 3 have asked for map 200.
abbrev bound : Service
bound =
    for_three 6 (dungeon confirming 5 200 (seat 1 false) (seat 2 false) ∷ []) (matched 5 1)
      (matched 5 2) (matched 5 3) (match_result 1 ∷ match_result 2 ∷ [])

bystander_cancels_example :
    ((handle_matching_request 1 true 200 (for_three 5 [] (idle 1) (idle 2) (idle 3) []) >>= λ v1.
    handle_matching_request 2 true 200 v1 >>= λ v2. handle_matching_request 3 true 200 v2)
      ≡ ok bound)
    × (handle_matching_confirm_request one_map 3 false bound
        ≡ ok (
            for_three 6 []
              (idle 1)
              (idle 2)
              (matched 5 3)
              (match_result 1 ∷ match_result 2 ∷ match_canceled 1 ∷ match_canceled 2 ∷ [])))
bystander_cancels_example =
    bystander_cancels one_map 5 1 2 3 200 different (λ e. omega arith) (λ e. omega arith)
