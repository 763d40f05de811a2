-- ===== src/Matching/Progress.antt =====
-- Runs of requests: two clients that meet, and what a withdrawal leaves behind.
use ue4team_project_server.Common.{
  run_time_error, throw, ◌>>=◌, List, ◌^◌, ◌%◌, some, ◌+◌, ==_refl, ℕ, ◌≡◌, ◌≢◌, Bool, true, false,
  ◌==◌, none, [], ◌∷◌, ok, arith,
}
use ue4team_project_server.ZoneSystem.Tables.{Tables}
use ue4team_project_server.Matching.Match.{
  confirm, remove, confirming, Match, recruiting, State, Seat, join, new_match,
}
use ue4team_project_server.Matching.Service.{
  has_map, remove_match, spawn_all, spawned, opened, match_confirm, handle_matching_confirm_request,
  match_remove, Event, ZoneClient, Service, match_result, create_or_find, handle_matching_request,
  match_join, notify_result,
}

-- The server before any request: nobody is matched, and clients `a` and `b` have characters.
abbrev pub two_clients : ℕ → ℕ → ℕ → Service
two_clients id a b = record {
  system = record { match_id = id; match_queue = [] };
  clients =
      record { key = a; match = none; has_character = true }
      ∷ record { key = b; match = none; has_character = true }
      ∷ [];
  events = [];
}

pub eq_false : (a b : ℕ) → a ≢ b → (a == b) ≡ false
eq_false a b h = ground arith

abbrev pub matched : ℕ → ℕ → ZoneClient
matched id key = record { key = key; match = some id; has_character = true }

abbrev pub seat : ℕ → Bool → Seat
seat key confirmed = record { client_key = some key; confirmed = confirmed }

abbrev pub free_seat : Seat
free_seat = record { client_key = none; confirmed = false }

abbrev pub dungeon : State → ℕ → ℕ → Seat → Seat → Match
dungeon state id mapid first second = record {
  state = state;
  mapid = mapid;
  match_instance_id = id;
  seats = first ∷ second ∷ [];
}

abbrev pub serving : ℕ → List Match → ZoneClient → ZoneClient → List Event → Service
serving id queue a b events = record {
  system = record { match_id = (id + 1) % 2 ^ 64; match_queue = queue };
  clients = a ∷ b ∷ [];
  events = events;
}

abbrev unmatched : ℕ → ZoneClient
unmatched key = record { key = key; match = none; has_character = true }

module _ (id a b mapid : ℕ) (ne : a ≢ b) where
  abbrev waiting : Service
  waiting =
      serving id (dungeon recruiting id mapid (seat a false) free_seat ∷ []) (matched id a)
        (unmatched b) []

  abbrev asked : Seat → Seat → Service
  asked first second =
      serving id (dungeon confirming id mapid first second ∷ []) (matched id a) (matched id b)
        (match_result a ∷ match_result b ∷ [])

  first_request : handle_matching_request a true mapid (two_clients id a b) ≡ ok waiting
  unfolding handle_matching_request match_join join create_or_find new_match
  first_request = simp (==_refl a, ==_refl id)

  second_request :
      handle_matching_request b true mapid waiting ≡ ok (asked (seat a false) (seat b false))
  unfolding handle_matching_request match_join join create_or_find notify_result
  second_request = simp (==_refl a, ==_refl b, ==_refl mapid, ==_refl id, eq_false a b ne)

  withdrawal :
      handle_matching_request b false 0 (asked (seat a false) (seat b false))
      ≡ ok (asked (seat a false) free_seat)
  unfolding handle_matching_request match_remove remove
  withdrawal = simp (==_refl b, ==_refl id, eq_false a b ne)

  request_again :
      (other : ℕ)
      → handle_matching_request b true other (asked (seat a false) free_seat) ≡ throw run_time_error
  unfolding handle_matching_request
  request_again other = simp (==_refl b, ==_refl id, eq_false a b ne)

  module _ (tables : Tables) (d : has_map tables mapid ≡ true) where
    first_confirm :
        handle_matching_confirm_request tables b true (asked (seat a false) (seat b false))
        ≡ ok (asked (seat a false) (seat b true))
    unfolding handle_matching_confirm_request match_confirm confirm
    first_confirm = simp (==_refl b, ==_refl id, eq_false a b ne)

    second_confirm :
        handle_matching_confirm_request tables a true (asked (seat a false) (seat b true))
        ≡ ok (
            serving id []
              (matched id a)
              (matched id b)
              (match_result a ∷ match_result b ∷ opened mapid ∷ spawned a ∷ spawned b ∷ []))
    unfolding handle_matching_confirm_request match_confirm confirm spawn_all remove_match
    second_confirm = simp (==_refl a, ==_refl b, ==_refl id, eq_false a b ne, d)

-- Two clients that ask for the same map and then both confirm are both asked to confirm and are both
-- taken to a new dungeon of that map, and no match is left in the queue, whatever id the match gets,
-- if the map has data and the keys of the clients differ.
pub two_clients_meet :
    (tables : Tables) (id a b mapid : ℕ)
    → has_map tables mapid ≡ true
    → a ≢ b
    → (handle_matching_request a true mapid (two_clients id a b) >>= λ v1.
        handle_matching_request b true mapid v1 >>= λ v2.
        handle_matching_confirm_request tables b true v2 >>= λ v3.
        handle_matching_confirm_request tables a true v3)
      ≡ ok (
          serving id []
            (matched id a)
            (matched id b)
            (match_result a ∷ match_result b ∷ opened mapid ∷ spawned a ∷ spawned b ∷ []))
two_clients_meet tables id a b mapid d ne = rw (
  first_request id a b mapid ne,
  second_request id a b mapid ne,
  first_confirm id a b mapid ne tables d,
  second_confirm id a b mapid ne tables d,
)

-- A client that withdraws while another one is in its match keeps its weak pointer to the match, so
-- that its next request, for any map, throws kRunTimeError.
pub request_after_withdrawal :
    (id a b mapid other : ℕ)
    → a ≢ b
    → (handle_matching_request a true mapid (two_clients id a b) >>= λ v1.
        handle_matching_request b true mapid v1 >>= λ v2.
        handle_matching_request b false 0 v2 >>= λ v3. handle_matching_request b true other v3)
      ≡ throw run_time_error
request_after_withdrawal id a b mapid other ne = rw (
  first_request id a b mapid ne,
  second_request id a b mapid ne,
  withdrawal id a b mapid ne,
  request_again id a b mapid ne other,
)
