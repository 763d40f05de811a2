-- ===== src/Matching/Match.antt =====
-- UE4Model/System/MatchingSystem.cpp, class Match: the seats of a dungeon party that is being formed.
-- A client's key is its UUID text, which is only compared; it is a number here.
use ue4team_project_server.Common.{
  ℕ, Bool, true, false, not, ◌&&◌, ◌||◌, ◌==◌, if◌then◌else◌, Option, none, some, List, [], ◌∷◌,
  replicate,
}

pub data State : Type 0 where
  recruiting confirming completed : State

pub record Seat : Type 0 where
  pub client_key : Option ℕ
  pub confirmed : Bool

pub record Match : Type 0 where
  pub state : State
  pub mapid : ℕ
  pub match_instance_id : ℕ
  pub seats : List Seat

abbrev pub max_match_count : ℕ
max_match_count = 2

unfoldable pub new_match : ℕ → ℕ → Match
new_match match_id mapid = record {
  state = recruiting;
  mapid = mapid;
  match_instance_id = match_id;
  seats = replicate max_match_count (record { client_key = none; confirmed = false });
}

abbrev pub is_recruiting : State → Bool
is_recruiting recruiting = true
is_recruiting confirming = false
is_recruiting completed = false

-- `optional == key`: an empty optional is not equal to a key.
abbrev pub is_key : ℕ → Option ℕ → Bool
is_key key none = false
is_key key (some k) = k == key

abbrev pub is_taken : Option ℕ → Bool
is_taken none = false
is_taken (some k) = true

abbrev pub has_empty : List Seat → Bool
has_empty [] = false
has_empty (s ∷ seats) = not (is_taken s.client_key) || has_empty seats

abbrev pub all_empty : List Seat → Bool
all_empty [] = true
all_empty (s ∷ seats) = not (is_taken s.client_key) && all_empty seats

abbrev pub all_confirmed : List Seat → Bool
all_confirmed [] = true
all_confirmed (s ∷ seats) = s.confirmed && all_confirmed seats

-- The first empty seat takes the key; its mark stays as it is.
abbrev pub sit : ℕ → List Seat → List Seat
sit key [] = []
sit key (s ∷ seats) =
    if is_taken s.client_key then s ∷ sit key seats else record s { client_key = some key } ∷ seats

-- The first seat of the key is emptied.
abbrev pub leave : ℕ → List Seat → List Seat
leave key [] = []
leave key (s ∷ seats) =
    if is_key key s.client_key
    then record { client_key = none; confirmed = false } ∷ seats
    else s ∷ leave key seats

-- The first seat of the key is marked.
abbrev pub mark : ℕ → List Seat → List Seat
mark key [] = []
mark key (s ∷ seats) =
    if is_key key s.client_key then record s { confirmed = true } ∷ seats else s ∷ mark key seats

abbrev pub seated : Match → List Seat → Match × Bool
seated m seats =
    if has_empty seats
    then (record m { seats = seats }, false)
    else (record m { seats = seats; state = confirming }, true)

-- The match after `Join`, and whether its clients are asked to confirm.
unfoldable pub join : ℕ → Match → Match × Bool
join client_key m = if is_recruiting m.state then seated m (sit client_key m.seats) else (m, false)

-- The match after `Remove`, and whether it is taken out of the queue.
unfoldable pub remove : ℕ → Match → Match × Bool
remove client_key m =
    let seats = leave client_key m.seats in (record m { seats = seats }, all_empty seats)

abbrev pub marked : Match → List Seat → Match × Bool
marked m seats =
    if all_confirmed seats
    then (record m { seats = seats; state = completed }, true)
    else (record m { seats = seats }, false)

-- The match after `Confirm` with `match_ok`, and whether the dungeon is opened.
unfoldable pub confirm : ℕ → Match → Match × Bool
confirm client_key m = marked m (mark client_key m.seats)
