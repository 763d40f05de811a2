-- ===== src/Matching/Service.antt =====
-- UE4Model/System/MatchingSystem.cpp, class MatchSystem, and its callers in UE4Model/Server/ZoneServer.cpp:
-- the queue of matches, the clients' weak pointers into it, and the requests of the clients.
-- A match lives as long as it is in the queue, and a weak pointer is the id of its match.
use ue4team_project_server.Common.{
  ℕ, ◌+◌, ◌%◌, ◌^◌, Bool, true, false, ◌==◌, if◌then◌else◌, Option, none, some, List, [], ◌∷◌, ◌++◌,
  Result, ok, throw, fault, ◌>>=◌, deref, run_time_error, null_pointer,
}
use ue4team_project_server.ZoneSystem.Tables.{ZoneData, Tables, get_data}
use ue4team_project_server.Matching.Match.{Seat, Match, new_match, join, remove, confirm}

pub record MatchSystem : Type 0 where
  pub match_id : ℕ
  pub match_queue : List Match

-- An entry of `client_storage_`.
pub record ZoneClient : Type 0 where
  pub key : ℕ
  pub match : Option ℕ
  pub has_character : Bool

-- What the clients see, in order: the two packets to a client, a new dungeon, and its spawns.
pub data Event : Type 0 where
  match_result match_canceled spawned : ℕ → Event
  opened : ℕ → Event

pub record Service : Type 0 where
  pub system : MatchSystem
  pub clients : List ZoneClient
  pub events : List Event

abbrev pub find_map : ℕ → List Match → Option Match
find_map mapid [] = none
find_map mapid (m ∷ queue) = if mapid == m.mapid then some m else find_map mapid queue

abbrev pub find_id : ℕ → List Match → Option Match
find_id id [] = none
find_id id (m ∷ queue) = if id == m.match_instance_id then some m else find_id id queue

abbrev pub erase_id : ℕ → List Match → List Match
erase_id id [] = []
erase_id id (m ∷ queue) = if id == m.match_instance_id then queue else m ∷ erase_id id queue

-- A match that changed, through its pointer in the queue.
abbrev pub replace : Match → List Match → List Match
replace new [] = []
replace new (m ∷ queue) =
    if new.match_instance_id == m.match_instance_id then new ∷ queue else m ∷ replace new queue

abbrev pub found : ℕ → MatchSystem → Option Match → Match × MatchSystem
found mapid s (some m) = (m, s)
found mapid s none =
    let m = new_match s.match_id mapid in
    (m, record { match_id = (s.match_id + 1) % 2 ^ 64; match_queue = s.match_queue ++ m ∷ [] })

unfoldable pub create_or_find : ℕ → MatchSystem → Match × MatchSystem
create_or_find mapid s = found mapid s (find_map mapid s.match_queue)

unfoldable pub find : ℕ → MatchSystem → Option Match
find match_instance_id s = find_id match_instance_id s.match_queue

unfoldable pub remove_match : ℕ → MatchSystem → MatchSystem
remove_match match_instance_id s = record s {
  match_queue = erase_id match_instance_id s.match_queue;
}

abbrev pub get_client : ℕ → List ZoneClient → Option ZoneClient
get_client key [] = none
get_client key (c ∷ clients) = if c.key == key then some c else get_client key clients

abbrev pub set_match_weak : ℕ → Option ℕ → List ZoneClient → List ZoneClient
set_match_weak key id [] = []
set_match_weak key id (c ∷ clients) =
    if c.key == key then record c { match = id } ∷ clients else c ∷ set_match_weak key id clients

-- SetCharacter
abbrev pub set_character : ℕ → List ZoneClient → List ZoneClient
set_character key [] = []
set_character key (c ∷ clients) =
    if c.key == key
    then record c { has_character = true } ∷ clients
    else c ∷ set_character key clients

abbrev pub erase_client : ℕ → List ZoneClient → List ZoneClient
erase_client key [] = []
erase_client key (c ∷ clients) = if c.key == key then clients else c ∷ erase_client key clients

abbrev pub lock : Option ℕ → MatchSystem → Option Match
lock none s = none
lock (some id) s = find_id id s.match_queue

abbrev pub match_of_client : Option ZoneClient → MatchSystem → Option Match
match_of_client none s = none
match_of_client (some c) s = lock c.match s

-- `GetMatchFromWeak` of the client with this key.
abbrev pub get_match_from_weak : ℕ → Service → Option Match
get_match_from_weak key v = match_of_client (get_client key v.clients) v.system

abbrev pub to_client : (ℕ → Event) → Option ZoneClient → List Event
to_client event none = []
to_client event (some c) = event c.key ∷ []

-- The loop of `Join` that asks the clients of full seats; it reads each key without a test.
unfoldable pub notify_result : List ZoneClient → List Seat → Result (List Event)
notify_result clients [] = ok []
notify_result clients (s ∷ seats) = do
  key ← deref s.client_key
  events ← notify_result clients seats
  ok (to_client match_result (get_client key clients) ++ events)

abbrev pub cancel_seat : Option ℕ → List ZoneClient → List ZoneClient × List Event
cancel_seat none clients = (clients, [])
cancel_seat (some key) clients =
    (set_match_weak key none clients, to_client match_canceled (get_client key clients))

-- The loop of `Confirm` without `match_ok`.
unfoldable pub cancel_all : List Seat → List ZoneClient → List ZoneClient × List Event
cancel_all [] clients = (clients, [])
cancel_all (s ∷ seats) clients =
    let (now, first) = cancel_seat s.client_key clients in
    let (after, others) = cancel_all seats now in (after, first ++ others)

abbrev pub spawn_client : Option ZoneClient → Result (List Event)
spawn_client none = ok []
spawn_client (some c) = if c.has_character then ok (spawned c.key ∷ []) else fault

-- The loop of `Confirm` that takes the clients' characters to the new zone.
unfoldable pub spawn_all : List ZoneClient → List Seat → Result (List Event)
spawn_all clients [] = ok []
spawn_all clients (s ∷ seats) = do
  key ← deref s.client_key
  first ← spawn_client (get_client key clients)
  others ← spawn_all clients seats
  ok (first ++ others)

abbrev pub put : Match → MatchSystem → MatchSystem
put m s = record s { match_queue = replace m s.match_queue }

abbrev pub joined : Match × Bool → Service → Result Service
joined (m, false) v = ok (record v { system = put m v.system })
joined (m, true) v = do
  events ← notify_result v.clients m.seats
  ok (record v { system = put m v.system; events = v.events ++ events })

unfoldable pub match_join : ℕ → Match → Service → Result Service
match_join client_key m v = joined (join client_key m) v

abbrev pub removed : Match × Bool → Service → Service
removed (m, false) v = record v { system = put m v.system }
removed (m, true) v = record v { system = remove_match m.match_instance_id v.system }

unfoldable pub match_remove : ℕ → Match → Service → Service
match_remove client_key m v = removed (remove client_key m) v

-- `CreateNewInstance` returns null for a map of which the tables have no data, and the null zone is used.
abbrev pub has_data : Option ZoneData → Bool
has_data none = false
has_data (some entry) = true

abbrev pub has_map : Tables → ℕ → Bool
has_map tables mapid = has_data (get_data tables mapid)

module _ (tables : Tables) where
  abbrev pub confirmed_with : Match × Bool → Service → Result Service
  confirmed_with (m, false) v = ok (record v { system = put m v.system })
  confirmed_with (m, true) v =
      if has_map tables m.mapid
      then (do
        events ← spawn_all v.clients m.seats
        ok (record v {
          system = remove_match m.match_instance_id v.system;
          events = v.events ++ opened m.mapid ∷ events;
        }))
      else fault

  abbrev pub canceled_with : Match → Service → List ZoneClient × List Event → Service
  canceled_with m v (clients, events) = record {
    system = remove_match m.match_instance_id v.system;
    clients = clients;
    events = v.events ++ events;
  }

  unfoldable pub match_confirm : ℕ → Bool → Match → Service → Result Service
  unfolding remove_match cancel_all
  match_confirm client_key match_ok m v =
      if match_ok
      then confirmed_with (confirm client_key m) v
      else ok (canceled_with m v (cancel_all m.seats v.clients))

  abbrev pub confirm_in : Option Match → ℕ → Bool → Service → Result Service
  confirm_in none client_key match_ok v = ok v
  confirm_in (some m) client_key match_ok v = match_confirm client_key match_ok m v

  unfoldable pub handle_matching_confirm_request : ℕ → Bool → Service → Result Service
  handle_matching_confirm_request client_key match_ok v =
      confirm_in (get_match_from_weak client_key v) client_key match_ok v

abbrev pub enter : ℕ → Match × MatchSystem → Service → Result Service
enter client_key (m, s) v = match_join client_key m (record v {
  system = s;
  clients = set_match_weak client_key (some m.match_instance_id) v.clients;
})

abbrev pub request_with : Option Match → ℕ → Bool → ℕ → Service → Result Service
request_with none client_key true mapid v = enter client_key (create_or_find mapid v.system) v
request_with (some m) client_key true mapid v = throw run_time_error
request_with none client_key false mapid v = throw null_pointer
request_with (some m) client_key false mapid v = ok (match_remove client_key m v)

unfoldable pub handle_matching_request : ℕ → Bool → ℕ → Service → Result Service
handle_matching_request client_key is_request mapid v =
    request_with (get_match_from_weak client_key v) client_key is_request mapid v

abbrev pub close_with : Option Match → ℕ → Service → Service
close_with none key v = v
close_with (some m) key v = match_remove key m v

-- The part of `ZoneServer::OnClose` that is about matches.
unfoldable pub on_close : ℕ → Service → Service
on_close key v =
    close_with (get_match_from_weak key v) key (record v { clients = erase_client key v.clients })
